-- ===== src/Dpdk/Settings.antt =====
-- openstack_hypervisor/hooks.py: `_configure_ovs`, which sets hardware offloading and DPDK in the
-- database of the switch. `machine` is `platform.machine()`, and `pmd_dirs` is what `glob` finds.
use mathlib.Core.Bool.{true≢false}
use snap_openstack_hyperviso.Base.{
  ℕ, ◌≡◌, refl, sym, ap, ◌∙◌, Bool, true, false, ◌&&◌, Option, none, some, List, [], ◌∷◌, ◌++◌, All,
  if◌then◌else◌, is_empty, Result, ok, err, exception, ok-injective, err-ne-ok, ◌==◌, inl, inr,
  text_eq, Bool-cases,
}
use snap_openstack_hyperviso.Base.Dict.{Dict, insert}
use snap_openstack_hyperviso.Base.Text.{Text, str, truthy}
use snap_openstack_hyperviso.Base.Effects.{Exec, pure, lift, ◌>>=◌, bind-eq-ok}
use snap_openstack_hyperviso.Ovs.{Outcome, Session, with_timeout}
use snap_openstack_hyperviso.Ovs.Json.{Data}
use snap_openstack_hyperviso.Ovs.Tables.{Table, column_of}
use snap_openstack_hyperviso.Ovs.SetCheck.{list_table, set_check, Matches, set_check-Answers}
use snap_openstack_hyperviso.Dpdk.Readiness.{dpdk_supported}

-- The settings of the section `network` that this reads.
pub record OvsSettings : Type 0 where
  pub hw_offloading : Bool
  pub ovs_dpdk_enabled : Bool
  pub ovs_memory : Option Text
  pub ovs_pmd_cpu_mask : Option Text
  pub ovs_lcore_mask : Option Text

-- `if value: settings[key] = value`
abbrev pub add_given : Text → Option Text → Dict Text Text → Dict Text Text
add_given key none settings = settings
add_given key (some value) settings = if truthy value then insert key value settings else settings

abbrev pub hw_offload_settings : Dict Text Text
hw_offload_settings = (str "hw-offload", str "true") ∷ []

abbrev pub init_settings : Bool → List Text → Result (Dict Text Text)
init_settings false pmd_dirs = ok ((str "dpdk-init", str "false") ∷ [])
init_settings true [] = err (exception (str "Unable to locate dpdk pmd plugin directory"))
init_settings true (pmd_lib_dir ∷ rest) =
    ok ((str "dpdk-init", str "try") ∷ (str "dpdk-extra", str "-d " ++ pmd_lib_dir) ∷ [])

abbrev pub with_masks : OvsSettings → Dict Text Text → Dict Text Text
with_masks network settings = add_given (str "pmd-cpu-mask") network.ovs_pmd_cpu_mask (
    add_given (str "dpdk-lcore-mask") network.ovs_lcore_mask
      (add_given (str "dpdk-socket-mem") network.ovs_memory settings))

module _ {W : Type 0} (run : List Text → W → Outcome × W) (loads : Text → Result Table)
    (uuid_of : Text → Result Text) (printed : Data → Text) where
  abbrev pub check_other_config : Dict Text Text → Exec (Session W) Bool
  check_other_config settings =
      set_check run loads uuid_of printed (str "Open_vSwitch") (str ".") (str "other_config")
        settings

  -- The second half, with `config_changed`.
  abbrev pub apply_dpdk_settings : Bool → Dict Text Text → Exec (Session W) Bool
  apply_dpdk_settings config_changed settings =
      if is_empty settings then pure config_changed else (do
        changed ← with_timeout run 15 (check_other_config settings)
        pure (if changed then true else config_changed))

  -- The first half.
  abbrev pub check_hw_offload : Bool → Exec (Session W) Bool
  check_hw_offload hw_offloading =
      if hw_offloading then check_other_config hw_offload_settings else pure false

  abbrev pub configure_dpdk : Text → List Text → OvsSettings → Bool → Exec (Session W) Bool
  configure_dpdk machine pmd_dirs network config_changed =
      lift (init_settings (network.ovs_dpdk_enabled && dpdk_supported machine) pmd_dirs)
      >>= λ settings. apply_dpdk_settings config_changed (with_masks network settings)

  unfoldable pub configure_ovs : Text → List Text → OvsSettings → Exec (Session W) Bool
  unfolding set_check insert dpdk_supported with_timeout
  configure_ovs machine pmd_dirs network =
      check_hw_offload network.hw_offloading >>= configure_dpdk machine pmd_dirs network

is_empty-insert : (k v : Text) (d : Dict Text Text) → is_empty (insert k v d) ≡ false
unfolding insert
is_empty-insert k v [] = refl
is_empty-insert k v ((j, w) ∷ d) = elim (Bool-cases (j == k)) [
  | inl t ↦ rw t refl
  | inr f ↦ rw f refl
]

add_given-filled :
    (key : Text) (value : Option Text) (d : Dict Text Text)
    → is_empty d ≡ false
    → is_empty (add_given key value d) ≡ false
add_given-filled key none d h = h
add_given-filled key (some value) d h = elim (Bool-cases (truthy value)) [
  | inl t ↦ rw t (is_empty-insert key value d)
  | inr f ↦ rw f h
]

init_settings-filled :
    (supported : Bool) (pmd_dirs : List Text) {settings : Dict Text Text}
    → init_settings supported pmd_dirs ≡ ok settings
    → is_empty settings ≡ false
init_settings-filled false pmd_dirs h = ap is_empty (sym (ok-injective h))
init_settings-filled true [] h = absurd (err-ne-ok h)
init_settings-filled true (d ∷ ds) h = ap is_empty (sym (ok-injective h))

with_masks-filled :
    (network : OvsSettings) (d : Dict Text Text)
    → is_empty d ≡ false
    → is_empty (with_masks network d) ≡ false
with_masks-filled network d h =
    add_given-filled _ network.ovs_pmd_cpu_mask _
      (add_given-filled _ network.ovs_lcore_mask _ (add_given-filled _ network.ovs_memory d h))

module _ {W : Type 0} (run : List Text → W → Outcome × W) (loads : Text → Result Table)
    (uuid_of : Text → Result Text) (printed : Data → Text) where
  -- From `before` to `after` the settings were read from the switch, each as it should be.
  abbrev pub AlreadySet : Dict Text Text → Session W → Session W → Type 0
  AlreadySet settings before after =
      (parsed : Dict Text Data) × (list_table run loads uuid_of (str "Open_vSwitch") (str ".")
          (str "other_config" ∷ []) before
        ≡ (ok parsed, after))
      × All (Matches printed (column_of (str "other_config") parsed)) settings

  check_other_config-AlreadySet :
      (settings : Dict Text Text) (s s' : Session W)
      → check_other_config run loads uuid_of printed settings s ≡ (ok false, s')
      → AlreadySet settings s s'
  check_other_config-AlreadySet settings s s' h =
      let (parsed, after, e, (all, same)) =
        set_check-Answers run loads uuid_of printed (str "Open_vSwitch") (str ".")
          (str "other_config") settings s s' false h in
      (parsed, e ∙ ap (λ t. (ok parsed, t)) (sym same), all)

  abbrev pub with_limit : Option ℕ → Session W → Session W
  with_limit timeout s = record s { cli = record s.cli { timeout = timeout } }

  -- What was read with the time-out of 15 seconds, which is taken back.
  abbrev pub TimedAlreadySet : Dict Text Text → Session W → Session W → Type 0
  TimedAlreadySet settings s s' =
      (after : Session W) × AlreadySet settings (with_limit (some 15) s) after
      × (s' ≡ with_limit s.cli.timeout after)

  both_false : (a b : Bool) → (if a then true else b) ≡ false → (a ≡ false) × (b ≡ false)
  both_false true b h = absurd (true≢false h)
  both_false false b h = (refl, h)

  timed-AlreadySet :
      (settings : Dict Text Text) (s s' : Session W)
      → with_timeout run 15 (check_other_config run loads uuid_of printed settings) s
        ≡ (ok false, s')
      → TimedAlreadySet settings s s'
  unfolding with_timeout
  timed-AlreadySet settings s s' h =
      let t = with_limit (some 15) s in
      let after = (check_other_config run loads uuid_of printed settings t).1 in
      (
        after,
        check_other_config-AlreadySet settings t after (ap (λ r. (r, after)) (ap (λ p. p.0) h)),
        sym (ap (λ p. p.1) h),
      )

  apply_dpdk_settings-AlreadySet :
      (config_changed : Bool) (settings : Dict Text Text) (s s' : Session W)
      → is_empty settings ≡ false
      → apply_dpdk_settings run loads uuid_of printed config_changed settings s ≡ (ok false, s')
      → (config_changed ≡ false) × TimedAlreadySet settings s s'
  apply_dpdk_settings-AlreadySet config_changed [] s s' h e = absurd (true≢false h)
  apply_dpdk_settings-AlreadySet config_changed (x ∷ settings) s s' h e =
      let (changed, s1, f, g) =
        bind-eq-ok
          (with_timeout run 15 (check_other_config run loads uuid_of printed (x ∷ settings)))
          (λ changed. pure (if changed then true else config_changed)) s e in
      let (c, cc) = both_false changed config_changed (ok-injective (ap (λ p. p.0) g)) in
      (
        cc,
        timed-AlreadySet (x ∷ settings) s s'
            (f ∙ ap (λ b. (ok b, s1)) c ∙ ap (λ t. (ok false, t)) (ap (λ p. p.1) g)),
      )

  -- The setting of hardware offloading was read, or is not wanted and nothing was done.
  abbrev pub OffloadSettled : Bool → Session W → Session W → Type 0
  OffloadSettled hw_offloading s s' =
      if hw_offloading then AlreadySet hw_offload_settings s s' else (s' ≡ s)

  check_hw_offload-Settled :
      (hw_offloading : Bool) (s s' : Session W)
      → check_hw_offload run loads uuid_of printed hw_offloading s ≡ (ok false, s')
      → OffloadSettled hw_offloading s s'
  check_hw_offload-Settled true s s' e = check_other_config-AlreadySet _ s s' e
  check_hw_offload-Settled false s s' e = sym (ap (λ p. p.1) e)

  -- `_configure_ovs` says that nothing was changed only if in this run the setting of hardware
  -- offloading, if it is wanted, and then every setting of DPDK that it computes were read from the
  -- switch as they should be, and nothing else was run.
  pub configure_ovs-AlreadySet :
      (machine : Text) (pmd_dirs : List Text) (network : OvsSettings) (s s' : Session W)
      → configure_ovs run loads uuid_of printed machine pmd_dirs network s ≡ (ok false, s')
      → (settings : Dict Text Text) × (between : Session W) × (init_settings
            (network.ovs_dpdk_enabled && dpdk_supported machine)
            pmd_dirs
          ≡ ok settings)
        × OffloadSettled network.hw_offloading s between
        × TimedAlreadySet (with_masks network settings) between s'
  unfolding configure_ovs
  configure_ovs-AlreadySet machine pmd_dirs network s s' h =
      let (config_changed, s1, e, f) =
        bind-eq-ok (check_hw_offload run loads uuid_of printed network.hw_offloading)
          (configure_dpdk run loads uuid_of printed machine pmd_dirs network) s h in
      let (settings, s2, g, k) =
        bind-eq-ok
          (lift (init_settings (network.ovs_dpdk_enabled && dpdk_supported machine) pmd_dirs))
          (λ settings.
            apply_dpdk_settings run loads uuid_of printed config_changed
              (with_masks network settings))
          s1 f in
      let init = ap (λ p. p.0) g in
      let (unchanged, already) =
        apply_dpdk_settings-AlreadySet config_changed (with_masks network settings) s2 s'
          (with_masks-filled network settings (init_settings-filled _ pmd_dirs init)) k in
      (
        settings,
        s2,
        init,
        check_hw_offload-Settled network.hw_offloading s s2
            (e ∙ ap (λ b. (ok b, s1)) unchanged ∙ ap (λ t. (ok false, t)) (ap (λ p. p.1) g)),
        already,
      )
