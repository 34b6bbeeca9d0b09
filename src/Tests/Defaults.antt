-- ===== src/Tests/Defaults.antt =====
-- openstack_hypervisor/hooks.py: the default configuration and the flavors at concrete inputs.
use snap_openstack_hyperviso.Base.{
  ◌≡◌, refl, sym, ap, ◌∙◌, ok-injective, Bool, true, none, some, ◌&&◌, ◌||◌, List, [], ◌∷◌, ◌++◌,
  All, contains, text_eq, dedup, Result, ok, err, arith,
}
use snap_openstack_hyperviso.Base.Dict.{Dict, insert, keys, lookup}
use snap_openstack_hyperviso.Base.Text.{Text, str, split, join}
use snap_openstack_hyperviso.Services.{Value, text}
use snap_openstack_hyperviso.Services.Defaults.{
  Default, default_config, add_default, add_missing, option_keys, section_of, update_default_config,
}
use snap_openstack_hyperviso.Services.Flavors.{
  flavors_of, add_compute_flavor, flavor_added, flavors_of-flavor_added,
}
use snap_openstack_hyperviso.Services.Defaulted.{Settled, update_default_config-again}

abbrev has : Dict Text Value → List Text → Text → Bool
has config sections option = contains sections (section_of option) && contains (keys config) option

abbrev set_options : Dict Text Value → Dict Text Value → Result (Dict Text Value)
set_options options config = ok (options ++ config)

contains-keys-append :
    (options config : Dict Text Value) (option : Text)
    → (contains (keys config) option || contains (keys options) option) ≡ true
    → contains (keys (options ++ config)) option ≡ true
unfolding keys
contains-keys-append [] config option h = ground (arith, h)
contains-keys-append ((k, v) ∷ options) config option h =
    ground (arith, h, contains-keys-append options config option)

weaker : (p q r : Bool) → ((p && q) || r) ≡ true → (q || r) ≡ true
weaker p q r h = ground (arith, h)

has-set :
    (options config : Dict Text Value) (sections : List Text) (option : Text)
    (out : Dict Text Value)
    → contains sections (section_of option) ≡ true
    → set_options options config ≡ ok out
    → (has config sections option || contains (keys options) option) ≡ true
    → has out sections option ≡ true
has-set options config sections option out i h k =
    ap (λ c. has c sections option) (sym (ok-injective h))
    ∙ rw
        (
          i,
          contains-keys-append options config option (
              weaker (contains sections (section_of option)) (contains (keys config) option)
                (contains (keys options) option) k),
        )
        refl

abbrev defaults : Dict Text Default
defaults = default_config (ok (text (str "10.0.0.1"))) (ok (text (str "host")))

abbrev config : Dict Text Value
config = (str "network.dns-servers", text (str "1.1.1.1")) ∷ []

abbrev result : Result (Dict Text Value) → Dict Text Value
result (ok d) = d
result (err c) = []

abbrev updated : Dict Text Value
updated = result (update_default_config has set_options defaults config)

default_config_test : lookup (str "network.ip-address") updated ≡ some (text (str "10.0.0.1"))
unfolding default_config update_default_config add_missing add_default insert lookup keys split
    text_eq dedup
default_config_test = refl

update_default_config-again_example :
    All (Settled (has updated (option_keys defaults))) defaults
    × (update_default_config has set_options defaults updated ≡ ok updated)
unfolding default_config update_default_config add_missing add_default insert keys split text_eq
    dedup
update_default_config-again_example =
    update_default_config-again has set_options has-set defaults config refl

add_compute_flavor_test :
    add_compute_flavor (str "sev") (some (str "gpu,big")) ≡ some (str "gpu,big,sev")
unfolding add_compute_flavor flavors_of split join text_eq
add_compute_flavor_test = refl

flavors_of-flavor_added_example :
    (flavors_of (flavor_added (str "sev") (some (str "gpu"))) ≡ str "gpu" ∷ str "sev" ∷ [])
    × (add_compute_flavor (str "sev") (flavor_added (str "sev") (some (str "gpu"))) ≡ none)
unfolding flavors_of split text_eq
flavors_of-flavor_added_example = flavors_of-flavor_added (str "sev") (some (str "gpu")) refl refl
