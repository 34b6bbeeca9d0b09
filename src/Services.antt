-- ===== src/Services.antt =====
-- openstack_hypervisor/hooks.py: which services the `configure` hook keeps stopped, because their
-- configuration is incomplete, because they are not asked for, or because an external Open vSwitch
-- takes their place.
pub mod Excluded
pub mod Started
pub mod Restart
pub mod Defaults
pub mod Flavors
pub mod Defaulted
pub mod OnChange
pub mod Changed
pub mod Unchanged
use snap_openstack_hyperviso.Base.{
  ℕ, Bool, true, false, not, ◌&&◌, Option, none, some, List, [], ◌∷◌, ◌++◌, if◌then◌else◌, is_empty,
  ◌==◌, contains, text_eq, dedup, Result, ok, err, value_error, ◌>>=◌,
}
use snap_openstack_hyperviso.Base.Dict.{Dict, lookup, or_default}
use snap_openstack_hyperviso.Base.Text.{Text, str, split, truthy}
use snap_openstack_hyperviso.Base.Order.{sorted}

-- A value of the context: a text, a Boolean, or another value and whether Python takes it for true.
pub data Value : Type 0 where
  text : Text → Value
  bool : Bool → Value
  other : (truth : Bool) → Value

abbrev pub Section : Type 0
Section = Dict Text Value

-- The context, by section.
abbrev pub Context : Type 0
Context = Dict Text Section

-- `v == UNSET`
abbrev pub is_unset : Value → Bool
is_unset (text t) = is_empty t
is_unset (bool b) = false
is_unset (other truth) = false

abbrev pub truth_of : Option Value → Bool
truth_of none = false
truth_of (some (text t)) = truthy t
truth_of (some (bool b)) = b
truth_of (some (other truth)) = truth

-- The services of the entries of `TEMPLATES`, in order.
abbrev pub template_services : List Text
template_services =
    str "nova-compute"
    ∷ str "nova-api-metadata"
    ∷ str "neutron-ovn-metadata-agent"
    ∷ str "neutron-ovn-metadata-agent"
    ∷ str "neutron-sriov-nic-agent"
    ∷ str "libvirtd"
    ∷ str "libvirtd"
    ∷ str "virtlogd"
    ∷ str "ceilometer-compute-agent"
    ∷ str "ceilometer-compute-agent"
    ∷ str "masakari-instancemonitor"
    ∷ []

unfoldable pub services : List Text
unfolding sorted dedup
services = sorted (dedup template_services)

abbrev pub identity_keys : List Text
identity_keys = str "identity.password" ∷ str "identity.username" ∷ str "identity" ∷ []

-- `REQUIRED_CONFIG`
abbrev pub required_config : Dict Text (List Text)
required_config =
    (str "nova-compute", identity_keys ++ (str "rabbitmq.url" ∷ []))
    ∷ (str "nova-api-metadata", identity_keys ++ (str "rabbitmq.url" ∷ str "network" ∷ []))
    ∷ (
      str "neutron-ovn-metadata-agent",
      str "credentials" ∷ str "network" ∷ str "node" ∷ str "network.ovn_key" ∷ [],
    )
    ∷ (str "ceilometer-compute-agent", identity_keys ++ (str "rabbitmq.url" ∷ []))
    ∷ (str "masakari-instancemonitor", identity_keys ++ (str "node.fqdn" ∷ []))
    ∷ []

-- No value of the section is unset.
abbrev pub none_unset : Section → Bool
none_unset [] = true
none_unset ((key, value) ∷ rest) = not (is_unset value) && none_unset rest

-- `_section_complete`
unfoldable pub section_complete : Text → Context → Bool
unfolding lookup
section_complete section context =
    let s = or_default [] (lookup section context) in if is_empty s then false else none_unset s

abbrev pub is_set : Option Value → Bool
is_set none = false
is_set (some value) = not (is_unset value)

-- `_check_config_present`, by the pieces of `key.split(".")`. More than two pieces are a
-- `ValueError`, which nothing catches.
abbrev pub pieces_present : Context → List Text → Result Bool
pieces_present context (section ∷ []) = ok (section_complete section context)
pieces_present context (section ∷ key ∷ []) =
    ok (is_set (lookup key (or_default [] (lookup section context))))
pieces_present context _ = err (value_error (str "too many values to unpack"))

unfoldable pub check_config_present : Text → Context → Result Bool
unfolding split section_complete lookup
check_config_present key context = pieces_present context (split b'.' key)

-- The inner loop of `_services_not_ready`.
unfoldable pub missing_keys : Context → Text → List Text → List Text → Result (List Text)
missing_keys context svc [] not_ready = ok not_ready
missing_keys context svc (required ∷ rest) not_ready = do
  present ← check_config_present required context
  missing_keys context svc rest (if present then not_ready else not_ready ++ (svc ∷ []))

-- The outer loop.
unfoldable pub unready : Context → List Text → List Text → Result (List Text)
unready context [] not_ready = ok not_ready
unready context (svc ∷ rest) not_ready = do
  more ← missing_keys context svc (or_default [] (lookup svc required_config)) not_ready
  unready context rest more

-- `_services_not_ready`
unfoldable pub services_not_ready : Context → Result (List Text)
services_not_ready context = do
  not_ready ← unready context services []
  ok (sorted (dedup not_ready))

-- `context.get(section, {}).get(key)`, as a condition.
abbrev pub enabled : Text → Context → Bool
enabled section context = truth_of (lookup (str "enable") (or_default [] (lookup section context)))

-- `_services_not_enabled_by_config`
unfoldable pub services_not_enabled_by_config : Context → List Text
unfolding lookup
services_not_enabled_by_config context =
    (if enabled (str "telemetry") context then [] else str "ceilometer-compute-agent" ∷ [])
    ++ (if enabled (str "masakari") context then [] else str "masakari-instancemonitor" ∷ [])

abbrev pub external_ovs_services : List Text
external_ovs_services =
    str "ovsdb-server" ∷ str "ovs-vswitchd" ∷ str "ovn-controller" ∷ str "ovs-exporter" ∷ []

-- `_get_exclude_services`, given whether Open vSwitch is external.
unfoldable pub get_exclude_services : Bool → Context → Result (List Text)
unfolding services_not_enabled_by_config
get_exclude_services ovs_external context = do
  not_ready ← services_not_ready context
  ok (
      (not_ready ++ services_not_enabled_by_config context)
      ++ (if ovs_external then external_ovs_services else []))

abbrev pub monitoring_services : List Text
monitoring_services = str "libvirt-exporter" ∷ str "ovs-exporter" ∷ []

-- The services that `_ensure_internal_ovs_services` starts, in order. Where the snap does not list one
-- of them, the lookup before the start raises instead, which is left out.
unfoldable pub started_services : Bool → List Text → List Text → List Text
started_services enable_monitoring exclude_services [] = []
started_services enable_monitoring exclude_services (service ∷ rest) =
    let more = started_services enable_monitoring exclude_services rest in
    if contains exclude_services service
    then more
    else if contains monitoring_services service && not enable_monitoring
    then more
    else service ∷ more

unfoldable pub ensure_internal_ovs_services : Bool → List Text → List Text
unfolding started_services
ensure_internal_ovs_services enable_monitoring exclude_services =
    started_services enable_monitoring exclude_services external_ovs_services
