-- ===== src/Services/Defaulted.antt =====
-- `_update_default_config` of openstack_hypervisor/hooks.py, run again.
use snap_openstack_hyperviso.Base.{
  ◌≡◌, refl, sym, ap, ◌∙◌, ◌⊎◌, inl, inr, Bool, true, false, ◌||◌, List, [], ◌∷◌, text_eq, All,
  contains, contains-dedup, map, Result, ok, >>=-eq-ok, ok-injective, arith, if◌then◌else◌,
  Bool-cases,
}
use snap_openstack_hyperviso.Base.Dict.{Dict, insert, keys, contains-keys-insert}
use snap_openstack_hyperviso.Base.Text.{Text}
use snap_openstack_hyperviso.Services.{Value, is_unset}
use snap_openstack_hyperviso.Services.Defaults.{
  Default, default_value, add_default, add_missing, option_keys, section_of, set_missing,
  update_default_config,
}

-- The option is there, or its default is the unset value.
abbrev pub Settled : (Text → Bool) → Text × Default → Type 0
Settled there (option, default) =
    (there option ≡ true)
    ⊎ ((value : Value) × (default_value default ≡ ok value) × (is_unset value ≡ true))

add_default-stays :
    (there : Bool) (option : Text) (default : Default) (missing : Dict Text Value) (a : Text)
    {out : Dict Text Value}
    → add_default there option default missing ≡ ok out
    → contains (keys missing) a ≡ true
    → contains (keys out) a ≡ true
unfolding add_default
add_default-stays true option default missing a h k =
    ap (λ d. contains (keys d) a) (sym (ok-injective h)) ∙ k
add_default-stays false option default missing a h k =
    let (value, e, h') = >>=-eq-ok (default_value default) _ h in
    ap (λ d. contains (keys d) a) (sym (ok-injective h')) ∙ stays (is_unset value) value
  where
    stays :
        (b : Bool) (value : Value)
        → contains (keys (if b then missing else insert option value missing)) a ≡ true
    stays true value = k
    stays false value = contains-keys-insert a option value missing ∙ ground (arith, k)

add_missing-stays :
    (in_current : Text → Bool) (defaults : Dict Text Default) (missing : Dict Text Value) (a : Text)
    {out : Dict Text Value}
    → add_missing in_current defaults missing ≡ ok out
    → contains (keys missing) a ≡ true
    → contains (keys out) a ≡ true
unfolding add_missing
add_missing-stays in_current [] missing a h k =
    ap (λ d. contains (keys d) a) (sym (ok-injective h)) ∙ k
add_missing-stays in_current ((option, default) ∷ defaults) missing a h k =
    let (more, e, h') = >>=-eq-ok (add_default (in_current option) option default missing) _ h in
    add_missing-stays in_current defaults more a h'
      (add_default-stays (in_current option) option default missing a e k)

add_default-Settled :
    (there : Bool) (option : Text) (default : Default) (missing : Dict Text Value)
    {out : Dict Text Value}
    → add_default there option default missing ≡ ok out
    → (there ≡ true)
      ⊎ ((contains (keys out) option ≡ true)
          ⊎ ((value : Value) × (default_value default ≡ ok value) × (is_unset value ≡ true)))
unfolding add_default
add_default-Settled true option default missing h = inl refl
add_default-Settled false option default missing h =
    let (value, e, h') = >>=-eq-ok (default_value default) _ h in
    elim (Bool-cases (is_unset value)) [
      | inl t ↦ inr (inr (value, e, t))
      | inr f ↦ inr (
          inl (
            ap (λ d. contains (keys d) option) (sym (ok-injective h'))
            ∙ rw f (contains-keys-insert option option value missing ∙ ground arith)))
    ]

add_missing-Settled :
    (sections : List Text) (in_current there : Text → Bool) (defaults : Dict Text Default)
    (missing : Dict Text Value) {out : Dict Text Value}
    → add_missing in_current defaults missing ≡ ok out
    → ((option : Text)
        → contains sections (section_of option) ≡ true
        → (in_current option || contains (keys out) option) ≡ true
        → there option ≡ true)
    → All (λ (option, default). contains sections (section_of option) ≡ true) defaults
    → All (Settled there) defaults
unfolding add_missing
add_missing-Settled sections in_current there [] missing h k i = tt
add_missing-Settled sections in_current there ((option, default) ∷ defaults) missing h k (i, is) =
    let (more, e, h') = >>=-eq-ok (add_default (in_current option) option default missing) _ h in
    (
      elim (add_default-Settled (in_current option) option default missing e) [
        | inl t ↦ inl (k option i (rw t refl))
        | inr (inl c) ↦ inl (
            k option i (rw (add_missing-stays in_current defaults more option h' c) (ground arith)))
        | inr (inr unset) ↦ inr unset
      ],
      add_missing-Settled sections in_current there defaults more h' k is,
    )

sections_in :
    (sections : List Text) (defaults : Dict Text Default)
    → ((a : Text) → contains (map section_of (keys defaults)) a ≡ true → contains sections a ≡ true)
    → All (λ (option, default). contains sections (section_of option) ≡ true) defaults
unfolding keys
sections_in sections [] within = tt
sections_in sections ((option, default) ∷ defaults) within = (
  within (section_of option) (ground arith),
  sections_in sections defaults (λ a h. within a (ground (arith, h))),
)

add_default-nothing :
    (there : Text → Bool) (option : Text) (default : Default) (missing : Dict Text Value)
    → Settled there (option, default)
    → add_default (there option) option default missing ≡ ok missing
unfolding add_default
add_default-nothing there option default missing (inl t) = rw t refl
add_default-nothing there option default missing (inr (value, e, t)) =
    elim (Bool-cases (there option)) [ inl p ↦ rw p refl | inr f ↦ rw f (rw (e, t) refl) ]

add_missing-nothing :
    (there : Text → Bool) (defaults : Dict Text Default) (missing : Dict Text Value)
    → All (Settled there) defaults
    → add_missing there defaults missing ≡ ok missing
unfolding add_missing
add_missing-nothing there [] missing h = refl
add_missing-nothing there ((option, default) ∷ defaults) missing (h, hs) =
    rw (add_default-nothing there option default missing h)
      (add_missing-nothing there defaults missing hs)

module _ {C : Type 0} (has : C → List Text → Text → Bool)
    (set_options : Dict Text Value → C → Result C)
    (has-set : (missing_options : Dict Text Value) (config : C) (sections : List Text)
        (option : Text) (out : C)
      → contains sections (section_of option) ≡ true
      → set_options missing_options config ≡ ok out
      → (has config sections option || contains (keys missing_options) option) ≡ true
      → has out sections option ≡ true) where
  has-set_missing :
      (missing : Dict Text Value) (config : C) (sections : List Text) (option : Text) {out : C}
      → contains sections (section_of option) ≡ true
      → set_missing has set_options missing config ≡ ok out
      → (has config sections option || contains (keys missing) option) ≡ true
      → has out sections option ≡ true
  unfolding keys
  has-set_missing [] config sections option i h k =
      ap (λ c. has c sections option) (sym (ok-injective h)) ∙ ground (arith, k)
  has-set_missing (m ∷ missing) config sections option i h k =
      has-set (m ∷ missing) config sections option _ i h k

  -- If setting options adds them to those that are there, as far as their sections are asked for, `_update_default_config` run again after
  -- it has succeeded succeeds and changes nothing: each option is there, or has the unset value as
  -- its default.
  pub update_default_config-again :
      (defaults : Dict Text Default) (config : C) {out : C}
      → update_default_config has set_options defaults config ≡ ok out
      → All (Settled (has out (option_keys defaults))) defaults
        × (update_default_config has set_options defaults out ≡ ok out)
  unfolding update_default_config
  update_default_config-again defaults config {out = out} h =
      let (missing, e, h') =
        >>=-eq-ok (add_missing (has config (option_keys defaults)) defaults []) _ h in
      let settled =
        add_missing-Settled (option_keys defaults) (has config (option_keys defaults))
          (has out (option_keys defaults)) defaults [] e
          (λ option i k. has-set_missing missing config (option_keys defaults) option i h' k)
          (sections_in (option_keys defaults) defaults (λ a k. contains-dedup _ a ∙ k)) in
      (settled, rw (add_missing-nothing (has out (option_keys defaults)) defaults [] settled) refl)
