-- ===== src/Tests/Configuration.antt =====
-- The service exclusion of openstack_hypervisor/hooks.py at concrete inputs.
use snap_openstack_hyperviso.Base.{
  ◌≡◌, refl, true, false, List, [], ◌∷◌, contains, text_eq, dedup, ok,
}
use snap_openstack_hyperviso.Base.Dict.{lookup}
use snap_openstack_hyperviso.Base.Text.{Text, str}
use snap_openstack_hyperviso.Base.Order.{sorted}
use snap_openstack_hyperviso.Services.{
  Context, text, bool, services, check_config_present, missing_keys, unready, services_not_ready,
  get_exclude_services,
}
use snap_openstack_hyperviso.Services.Excluded.{is_excluded, get_exclude_services-total}

-- Telemetry is complete and asked for; the key of OVN and the node are missing.
abbrev partial_context : Context
partial_context =
    (
      str "identity",
      (str "password", text (str "secret")) ∷ (str "username", text (str "admin")) ∷ [],
    )
    ∷ (str "rabbitmq", (str "url", text (str "rabbit://host")) ∷ [])
    ∷ (str "network", (str "physnet_name", text (str "net1")) ∷ [])
    ∷ (str "credentials", (str "shared_secret", text []) ∷ [])
    ∷ (str "telemetry", (str "enable", bool true) ∷ [])
    ∷ []

exclude_test :
    get_exclude_services false partial_context
    ≡ ok (
        str "masakari-instancemonitor"
        ∷ str "neutron-ovn-metadata-agent"
        ∷ str "masakari-instancemonitor"
        ∷ [])
unfolding get_exclude_services services_not_ready unready missing_keys check_config_present services
    text_eq lookup sorted dedup
exclude_test = refl

get_exclude_services-total_example :
    (out : List Text) × (get_exclude_services true partial_context ≡ ok out)
    × ((svc : Text) → contains out svc ≡ is_excluded true partial_context svc)
get_exclude_services-total_example = get_exclude_services-total true partial_context
