-- ===== src/Services/Defaults.antt =====
-- `DEFAULT_CONFIG` and `_update_default_config` of openstack_hypervisor/hooks.py.
--
-- `C` is the snap's configuration: `has` tells whether an option is among those that it returns for
-- the given sections, and `set_options` sets options, or raises.
use snap_openstack_hyperviso.Base.{
  Bool, true, false, List, [], ◌∷◌, if◌then◌else◌, text_eq, dedup, map, is_empty, Result, ok, ◌>>=◌,
}
use snap_openstack_hyperviso.Base.Dict.{Dict, insert, keys}
use snap_openstack_hyperviso.Base.Text.{Text, str, split}
use snap_openstack_hyperviso.Services.{Value, text, bool, other, is_unset}

-- A default: a value, or a function, with the value that it returns or what it raises.
pub data Default : Type 0 where
  constant : Value → Default
  computed : Result Value → Default

-- `default() if callable(default) else default`
abbrev pub default_value : Default → Result Value
default_value (constant value) = ok value
default_value (computed value) = value

-- The local address and the host's name are found when the hook runs.
unfoldable pub default_config : (local_ip getfqdn : Result Value) → Dict Text Default
default_config local_ip getfqdn =
    (str "identity.admin-role", constant (text (str "Admin")))
    ∷ (str "identity.auth-url", constant (text (str "http://localhost:5000/v3")))
    ∷ (str "identity.username", constant (text (str "")))
    ∷ (str "identity.password", constant (text (str "")))
    ∷ (str "identity.user-domain-id", constant (text (str "")))
    ∷ (str "identity.user-domain-name", constant (text (str "service_domain")))
    ∷ (str "identity.project-name", constant (text (str "services")))
    ∷ (str "identity.project-domain-id", constant (text (str "")))
    ∷ (str "identity.project-domain-name", constant (text (str "service_domain")))
    ∷ (str "identity.region-name", constant (text (str "RegionOne")))
    ∷ (str "identity.keystone-region-name", constant (text (str "")))
    ∷ (str "rabbitmq.url", constant (text (str "")))
    ∷ (str "compute.cpu-mode", constant (text (str "host-model")))
    ∷ (str "compute.virt-type", constant (text (str "auto")))
    ∷ (str "compute.cpu-models", constant (text (str "")))
    ∷ (str "compute.spice-proxy-address", computed local_ip)
    ∷ (str "compute.rbd_user", constant (text (str "nova")))
    ∷ (str "compute.rbd_secret_uuid", constant (text (str "")))
    ∷ (str "compute.rbd_key", constant (text (str "")))
    ∷ (str "compute.cacert", constant (text (str "")))
    ∷ (str "compute.cert", constant (text (str "")))
    ∷ (str "compute.key", constant (text (str "")))
    ∷ (str "compute.migration-address", constant (text (str "")))
    ∷ (str "compute.resume-on-boot", constant (bool true))
    ∷ (str "compute.flavors", constant (text (str "")))
    ∷ (str "compute.pci-device-specs", constant (other false))
    ∷ (str "compute.pci-excluded-devices", constant (other false))
    ∷ (str "compute.pci-aliases", constant (other false))
    ∷ (str "compute.key-manager-enabled", constant (bool false))
    ∷ (str "compute.multipath-forced", constant (bool false))
    ∷ (str "sev.reserved-host-memory-mb", constant (text (str "")))
    ∷ (str "network.physnet-name", constant (text (str "physnet1")))
    ∷ (str "network.external-bridge", constant (text (str "br-ex")))
    ∷ (str "network.external-bridge-address", constant (text (str "0.0.0.0/0")))
    ∷ (str "network.bridge-mapping", constant (text (str "")))
    ∷ (str "network.dns-servers", constant (text (str "8.8.8.8")))
    ∷ (str "network.ovs-dpdk-enabled", constant (bool false))
    ∷ (str "network.ovs-memory", constant (text (str "")))
    ∷ (str "network.ovs-pmd-cpu-mask", constant (text (str "")))
    ∷ (str "network.ovs-lcore-mask", constant (text (str "")))
    ∷ (str "network.ovs-dpdk-ports", constant (text (str "")))
    ∷ (str "network.dpdk-driver", constant (text (str "vfio-pci")))
    ∷ (str "network.ovn-sb-connection", constant (text (str "")))
    ∷ (str "network.ovn-cert", constant (text (str "")))
    ∷ (str "network.ovn-key", constant (text (str "")))
    ∷ (str "network.ovn-cacert", constant (text (str "")))
    ∷ (str "network.enable-gateway", constant (bool false))
    ∷ (str "network.ip-address", computed local_ip)
    ∷ (str "network.external-nic", constant (text (str "")))
    ∷ (str "network.sriov-nic-exclude-devices", constant (text (str "")))
    ∷ (str "monitoring.enable", constant (bool false))
    ∷ (str "logging.debug", constant (bool false))
    ∷ (str "node.fqdn", computed getfqdn)
    ∷ (str "node.ip-address", computed local_ip)
    ∷ (str "telemetry.enable", constant (bool false))
    ∷ (str "telemetry.publisher-secret", constant (text (str "")))
    ∷ (str "ca.bundle", constant (text (str "")))
    ∷ (str "masakari.enable", constant (bool false))
    ∷ (str "network.external-switch-restart", constant (bool false))
    ∷ []

-- The body of the loop.
unfoldable pub add_default : Bool → Text → Default → Dict Text Value → Result (Dict Text Value)
add_default true option default missing_options = ok missing_options
add_default false option default missing_options = do
  value ← default_value default
  ok (if is_unset value then missing_options else insert option value missing_options)

unfoldable pub add_missing :
    (Text → Bool) → Dict Text Default → Dict Text Value → Result (Dict Text Value)
add_missing in_current [] missing_options = ok missing_options
add_missing in_current ((option, default) ∷ defaults) missing_options = do
  more ← add_default (in_current option) option default missing_options
  add_missing in_current defaults more

-- `k.split(".")[0]`
abbrev first : List Text → Text
first [] = []
first (part ∷ parts) = part

abbrev pub section_of : Text → Text
section_of option = first (split b'.' option)

abbrev pub option_keys : Dict Text Default → List Text
option_keys defaults = dedup (map section_of (keys defaults))

module _ {C : Type 0} (has : C → List Text → Text → Bool)
    (set_options : Dict Text Value → C → Result C) where
  -- `if missing_options: snap.config.set(missing_options)`
  abbrev pub set_missing : Dict Text Value → C → Result C
  set_missing missing_options config =
      if is_empty missing_options then ok config else set_options missing_options config

  unfoldable pub update_default_config : Dict Text Default → C → Result C
  update_default_config defaults config = do
    missing_options ← add_missing (has config (option_keys defaults)) defaults []
    set_missing missing_options config
