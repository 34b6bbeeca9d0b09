-- ===== src/Dpdk/Ready.antt =====
-- What `_dpdk_config_is_ready` (openstack_hypervisor/hooks.py) found when it says yes.
use mathlib.Core.Bool.{true≢false}
use snap_openstack_hyperviso.Base.{
  ℕ, ◌≡◌, refl, sym, ap, subst, ◌∙◌, Bool, true, false, Option, none, some, List, [], ◌∷◌,
  if◌then◌else◌, text_eq, eq_of_==, Result, ok, err-ne-ok, ok-injective,
}
use snap_openstack_hyperviso.Base.Dict.{or_default}
use snap_openstack_hyperviso.Base.Text.{Text, str}
use snap_openstack_hyperviso.Base.Effects.{Exec, pure, ◌>>=◌, bind-eq-ok}
use snap_openstack_hyperviso.Ovs.{Outcome, Session, appctl}
use snap_openstack_hyperviso.Ovs.Queries.{get_dpdk_initialized}
use snap_openstack_hyperviso.Ovs.Json.{
  Data, raw, uuid, set_of, string, other, array, map_of, Entries,
}
use snap_openstack_hyperviso.Ovs.Tables.{Table, entry_of}
use snap_openstack_hyperviso.Dpdk.{Mappings}
use snap_openstack_hyperviso.Dpdk.Readiness.{
  dpdk_supported, data_truthy, is_text, setting_of, hwoffloading_ready, check_dpdk_init_config,
  expected_dpdk_ports_ready, get_ovs_other_config, if_asked, config_checks, dpdk_config_is_ready,
}
use snap_openstack_hyperviso.Dpdk.Answered.{if_pure-false, if_first, asked-eq-true, tested-eq-true}
use snap_openstack_hyperviso.Dpdk.Found.{
  SaidInitialized, get_dpdk_initialized-Said, PortsReady, expected_dpdk_ports_ready-PortsReady,
}

-- The column is a dict with this text under the key.
abbrev pub HasSetting : Data → Text → Text → Type 0
HasSetting config key value =
    (es : Entries) × (config ≡ map_of es) × (entry_of key es ≡ some (raw (string value)))

is_text-found :
    (es : Entries) (key : Text) (c : ℕ) (v : Text) (found : Option Data)
    → entry_of key es ≡ found
    → is_text (or_default (raw (string [])) found) (c ∷ v) ≡ true
    → entry_of key es ≡ some (raw (string (c ∷ v)))
is_text-found es key c v none e h = absurd (nil-ne (eq_of_== [] (c ∷ v) h))
  where
    nil-ne : [] ≡ c ∷ v → ⊥
    nil-ne p = cc
is_text-found es key c v (some (raw (string t))) e h =
    e ∙ ap (λ x. some (raw (string x))) (eq_of_== t (c ∷ v) h)
is_text-found es key c v (some (raw (other t))) e h = absurd (true≢false (sym h))
is_text-found es key c v (some (raw (array t))) e h = absurd (true≢false (sym h))
is_text-found es key c v (some (uuid t)) e h = absurd (true≢false (sym h))
is_text-found es key c v (some (set_of t)) e h = absurd (true≢false (sym h))
is_text-found es key c v (some (map_of t)) e h = absurd (true≢false (sym h))

module _ {W : Type 0} (run : List Text → W → Outcome × W) where
  setting_of-HasSetting :
      (key : Text) (c : ℕ) (v : Text) (config d : Data) (s : Session W) {s1 : Session W}
      → setting_of run key config s ≡ (ok d, s1)
      → is_text d (c ∷ v) ≡ true
      → HasSetting config key (c ∷ v)
  setting_of-HasSetting key c v (map_of es) d s h t = (
    es,
    refl,
    is_text-found es key c v (entry_of key es) refl
        (ap (λ x. is_text x (c ∷ v)) (ok-injective (ap (λ p. p.0) h)) ∙ t),
  )
  setting_of-HasSetting key c v (raw j) d s h t = absurd (err-ne-ok (ap (λ p. p.0) h))
  setting_of-HasSetting key c v (uuid j) d s h t = absurd (err-ne-ok (ap (λ p. p.0) h))
  setting_of-HasSetting key c v (set_of j) d s h t = absurd (err-ne-ok (ap (λ p. p.0) h))

  check_dpdk_init_config-HasSetting :
      (machine : Text) (config : Data) (s : Session W) {s1 : Session W}
      → check_dpdk_init_config run machine config s ≡ (ok true, s1)
      → dpdk_supported machine ≡ true
      → HasSetting config (str "dpdk-init") (str "try")
  unfolding check_dpdk_init_config
  check_dpdk_init_config-HasSetting machine config s h supported =
      let (d, s1, e, f) =
        bind-eq-ok (setting_of run (str "dpdk-init") config) (λ d. pure (is_text d (str "try"))) s
          (if_first (dpdk_supported machine) _ (pure true) supported s h) in
      setting_of-HasSetting (str "dpdk-init") _ _ config d s e (ok-injective (ap (λ p. p.0) f))

  -- Reading a setting runs nothing.
  setting_of-same :
      (key : Text) (config : Data) (s : Session W) {d : Data} {s1 : Session W}
      → setting_of run key config s ≡ (ok d, s1)
      → s ≡ s1
  setting_of-same key (map_of es) s h = ap (λ p. p.1) h
  setting_of-same key _ s h = absurd (err-ne-ok (ap (λ p. p.0) h))

  check_dpdk_init_config-same :
      (machine : Text) (config : Data) (s : Session W) {b : Bool} {s1 : Session W}
      → check_dpdk_init_config run machine config s ≡ (ok b, s1)
      → s ≡ s1
  unfolding check_dpdk_init_config
  check_dpdk_init_config-same machine config s {b} {s1} h = by_platform (dpdk_supported machine) h
    where
      by_platform :
          (supported : Bool)
          → (if supported
                then (setting_of run (str "dpdk-init") config >>= λ actual.
                    pure (is_text actual (str "try")))
                else pure true)
              s
            ≡ (ok b, s1)
          → s ≡ s1
      by_platform false h = ap (λ p. p.1) h
      by_platform true h =
          let (d, s2, e, f) = bind-eq-ok (setting_of run (str "dpdk-init") config) _ s h in
          setting_of-same (str "dpdk-init") config s e ∙ ap (λ p. p.1) f

  -- Hardware offloading is not asked for and nothing was run; or the setting is there, and the
  -- statistics of the offloading were shown.
  abbrev pub OffloadReady : Data → Bool → Session W → Session W → Type 0
  OffloadReady config hw_offloading s s' =
      if hw_offloading
      then (HasSetting config (str "hw-offload") (str "true")
          × ((stats : Text) × (appctl run (str "dpctl/offload-stats-show" ∷ []) s
                ≡ (ok stats, s'))))
      else (s ≡ s')

  hwoffloading_ready-Ready :
      (config : Data) (s s' : Session W)
      → hwoffloading_ready run config s ≡ (ok true, s')
      → OffloadReady config true s s'
  unfolding hwoffloading_ready
  hwoffloading_ready-Ready config s s' h =
      let (d, s1, e, f) = bind-eq-ok (setting_of run (str "hw-offload") config) _ s h in
      let (t, rest) = if_pure-false (is_text d (str "true")) _ s1 f in
      let (stats, g, same) =
        tested-eq-true (appctl run (str "dpctl/offload-stats-show" ∷ [])) (λ stats. true) s1 rest in
      (
        setting_of-HasSetting (str "hw-offload") _ _ config d s e t,
        (
          stats,
          ap (appctl run (str "dpctl/offload-stats-show" ∷ [])) (setting_of-same _ config s e) ∙ g,
        ),
      )

  -- What readiness with DPDK and, if asked for, hardware offloading rests on, from the session in
  -- which the settings have been read to the end of the run.
  pub record IsReady (config : Data) (machine : Text) (m : Mappings) (hw_offloading : Bool)
      (s s' : Session W) : Type 0 where
    pub dpdk_init : dpdk_supported machine ≡ true → HasSetting config (str "dpdk-init") (str "try")
    pub offloaded : Session W
    pub hw_offload : OffloadReady config hw_offloading s offloaded
    pub ports : PortsReady run m offloaded s'

  offload_asked :
      (config : Data) (hw_offloading : Bool) (next : Exec (Session W) Bool) (s s' : Session W)
      → (if hw_offloading
            then (hwoffloading_ready run config >>= λ ready. if ready then next else pure false)
            else next)
          s
        ≡ (ok true, s')
      → (s1 : Session W) × OffloadReady config hw_offloading s s1 × (next s1 ≡ (ok true, s'))
  offload_asked config false next s s' h = (s, refl, h)
  offload_asked config true next s s' h =
      let (s1, said, rest) = asked-eq-true true (hwoffloading_ready run config) next s h in
      (s1, hwoffloading_ready-Ready config s s1 (said refl), rest)

  module _ (loads : Text → Result Table) (uuid_of : Text → Result Text) where
    config_checks-IsReady :
        (machine : Text) (m : Mappings) (hw_offloading : Bool) (config : Data) (s s' : Session W)
        → config_checks run loads uuid_of machine m true hw_offloading config s ≡ (ok true, s')
        → IsReady config machine m hw_offloading s s'
    config_checks-IsReady machine m hw_offloading config s s' h =
        let (t, h1) = if_pure-false (data_truthy config) _ s h in
        let (s1, init, h2) =
          asked-eq-true true (check_dpdk_init_config run machine config)
            (if_asked run loads uuid_of hw_offloading (hwoffloading_ready run config)
              (if_asked run loads uuid_of true (expected_dpdk_ports_ready run m) (pure true)))
            s h1 in
        let (s2, offload, h3) =
          offload_asked config hw_offloading
            (if_asked run loads uuid_of true (expected_dpdk_ports_ready run m) (pure true)) s1 s'
            h2 in
        let (s3, expected, h4) =
          asked-eq-true true (expected_dpdk_ports_ready run m) (pure true) s2 h3 in
        record {
          dpdk_init =
              λ supported. check_dpdk_init_config-HasSetting machine config s (init refl) supported;
          offloaded = s2;
          hw_offload =
              subst (λ x. OffloadReady config hw_offloading x s2)
                (sym (check_dpdk_init_config-same machine config s (init refl))) offload;
          ports =
              subst (λ x. PortsReady run m s2 x) (ap (λ p. p.1) h4)
                (expected_dpdk_ports_ready-PortsReady run m s2 (expected refl));
        }

    -- When DPDK is enabled and the configuration is said to be ready, then in this run, one after the
    -- other, the switch said that DPDK is initialised; its other_config was read, and has dpdk-init
    -- set to try, on a platform with DPDK; if hardware offloading is asked for, hw-offload is set to
    -- true and its statistics were shown; and the interfaces of the switch were listed, every port of
    -- the mappings is among them, and every bond that has a bridge was found on it.
    pub dpdk_config_is_ready-IsReady :
        (machine : Text) (m : Mappings) (hw_offloading : Bool) (s s' : Session W)
        → dpdk_config_is_ready run loads uuid_of machine m true hw_offloading s ≡ (ok true, s')
        → (config : Data) × (s1 : Session W) × (s2 : Session W) × SaidInitialized run s s1
          × (get_ovs_other_config run loads uuid_of s1 ≡ (ok config, s2))
          × IsReady config machine m hw_offloading s2 s'
    unfolding dpdk_config_is_ready
    dpdk_config_is_ready-IsReady machine m hw_offloading s s' h =
        let (s1, initialized, rest) =
          asked-eq-true true (get_dpdk_initialized run)
            (get_ovs_other_config run loads uuid_of
              >>= config_checks run loads uuid_of machine m true hw_offloading)
            s h in
        let (config, s2, e, f) = bind-eq-ok (get_ovs_other_config run loads uuid_of) _ s1 rest in
        (
          config,
          s1,
          s2,
          get_dpdk_initialized-Said run s (initialized refl),
          e,
          config_checks-IsReady machine m hw_offloading config s2 s' f,
        )
