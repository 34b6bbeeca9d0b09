-- ===== src/Tests/Dpdk.antt =====
-- openstack_hypervisor/hooks.py: DPDK and the settings of the switch at concrete inputs.
use snap_openstack_hyperviso.Base.{◌≡◌, refl, true, false, none, some, List, [], ◌∷◌, text_eq, Exc}
use snap_openstack_hyperviso.Base.Dict.{lookup}
use snap_openstack_hyperviso.Base.Text.{Text, str}
use snap_openstack_hyperviso.Base.Effects.{pure, Meets}
use snap_openstack_hyperviso.Ovs.{Outcome, completed, vsctl_outcome, Session, ovs_cli}
use snap_openstack_hyperviso.Ovs.ReadOnly.{Anything}
use snap_openstack_hyperviso.Netplan.{Network}
use snap_openstack_hyperviso.Pci.Sysfs.{Sysfs}
use snap_openstack_hyperviso.Dpdk.{
  PortInfo, Mappings, StoredMappings, process_dpdk_netplan_config, get_dpdk_mappings,
}
use snap_openstack_hyperviso.Dpdk.Takeover.{DpdkSettings, process_dpdk_ports}
use snap_openstack_hyperviso.Dpdk.Consistent.{
  IsConsistent, process_dpdk_netplan_config-IsConsistent,
}
use snap_openstack_hyperviso.Dpdk.Settled.{
  process_dpdk_netplan_config-again, lookup-process_dpdk_netplan_config,
}
use snap_openstack_hyperviso.Dpdk.Taken.{process_dpdk_ports-Meets}

-- eth0 and eth1 are in bond0, which is on the bridge br-ex, and eth2 is on the bridge br-data.
abbrev configured : Network
configured = record {
  ethernets = (str "eth2", record { mtu = some 9000 }) ∷ [];
  bonds =
      (
        str "bond0",
        record {
          interfaces = str "eth0" ∷ str "eth1" ∷ [];
          mode = some (str "active-backup");
          lacp = none;
          lacp_rate = none;
          mtu = none;
        },
      )
      ∷ [];
  bridges =
      (str "br-ex", record { interfaces = str "bond0" ∷ []; openvswitch = true })
      ∷ (str "br-data", record { interfaces = str "eth2" ∷ []; openvswitch = true })
      ∷ [];
}

abbrev all_pci : Sysfs
all_pci = record {
  listdir = λ path. [];
  read_file = λ path. none;
  real_path = λ path. some (str "/sys/devices/pci0000:00/0000:00:19.0");
}

abbrev interfaces : List Text
interfaces = str "eth0" ∷ str "eth2" ∷ str "eth1" ∷ []

abbrev unmapped : Mappings
unmapped = record { ports = []; bonds = [] }

taken_test :
    (process_dpdk_netplan_config all_pci configured unmapped interfaces).0.bonds
    ≡ (
      str "bond0",
      record {
        ports = str "eth0" ∷ str "eth1" ∷ [];
        bridge = str "br-ex";
        bond_mode = str "active-backup";
        lacp_mode = str "active";
        lacp_time = str "fast";
        mtu = none;
      },
    )
      ∷ []
unfolding process_dpdk_netplan_config text_eq
taken_test = refl

process_dpdk_netplan_config-IsConsistent_example :
    IsConsistent (process_dpdk_netplan_config all_pci configured unmapped interfaces).0
process_dpdk_netplan_config-IsConsistent_example =
    process_dpdk_netplan_config-IsConsistent all_pci configured unmapped interfaces (tt, tt)

process_dpdk_netplan_config-again_example :
    process_dpdk_netplan_config all_pci configured
      (process_dpdk_netplan_config all_pci configured unmapped interfaces).0
      interfaces
    ≡ ((process_dpdk_netplan_config all_pci configured unmapped interfaces).0, false)
process_dpdk_netplan_config-again_example =
    process_dpdk_netplan_config-again all_pci configured unmapped interfaces

abbrev eth0_info : PortInfo
eth0_info = record {
  pci_address = str "0000:00:19.0";
  mtu = none;
  bridge = some (str "br-old");
  bond = none;
  dpdk_port_name = str "dpdk-eth0";
}

abbrev eth0_mapped : Mappings
eth0_mapped = record { ports = (str "eth0", eth0_info) ∷ []; bonds = [] }

found_eth0 : lookup (str "eth0") eth0_mapped.ports ≡ some eth0_info
unfolding lookup text_eq
found_eth0 = refl

lookup-process_dpdk_netplan_config_example :
    lookup
      (str "eth0")
      (process_dpdk_netplan_config all_pci configured eth0_mapped interfaces).0.ports
    ≡ some eth0_info
lookup-process_dpdk_netplan_config_example =
    lookup-process_dpdk_netplan_config all_pci configured eth0_mapped interfaces (str "eth0")
      eth0_info found_eth0

-- A host on which every command succeeds.
abbrev obedient : List Text → Unit {0} → Outcome × Unit {0}
obedient args w = (completed [], w)

abbrev session : Session (Unit {0})
session = record { cli = ovs_cli none none none; world = tt }

abbrev enabled : DpdkSettings
enabled = record {
  ovs_dpdk_enabled = true;
  ovs_dpdk_ports = some (str "eth0,eth2, eth1");
  dpdk_driver = none;
  dpdk_port_mappings = [];
}

abbrev nothing_stored : Text → StoredMappings
nothing_stored text = record { stored_ports = none; stored_bonds = none }

abbrev Never : Exc → Type 0
Never c = ⊥

nothing_stored-IsConsistent :
    IsConsistent (get_dpdk_mappings nothing_stored enabled.dpdk_port_mappings)
unfolding get_dpdk_mappings
nothing_stored-IsConsistent = (tt, tt)

process_dpdk_ports-Meets_example :
    Meets Anything Never
      (process_dpdk_ports obedient
        (λ text. some configured)
        (λ path w. true)
        all_pci
        nothing_stored
        (λ m. pure tt)
        enabled
        session).0
unfolding vsctl_outcome
process_dpdk_ports-Meets_example =
    process_dpdk_ports-Meets obedient (λ text. some configured) (λ path w. true) Never
      (λ args w. tt) (λ args w. tt) (λ w text h. (configured, refl)) all_pci nothing_stored
      (λ m. pure tt) (λ m s. tt) enabled nothing_stored-IsConsistent session
