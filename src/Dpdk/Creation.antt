-- ===== src/Dpdk/Creation.antt =====
-- openstack_hypervisor/hooks.py: the mappings, defined as DPDK ports and bonds of the switch.
use snap_openstack_hyperviso.Base.{
  ℕ, zero, suc, Option, none, some, List, [], ◌∷◌, ◌++◌, map, if◌then◌else◌, text_eq, exception,
  type_error,
}
use snap_openstack_hyperviso.Base.Dict.{Dict, lookup}
use snap_openstack_hyperviso.Base.Decimal.{decimal}
use snap_openstack_hyperviso.Base.Text.{Text, str, given}
use snap_openstack_hyperviso.Base.Effects.{Exec, pure, raise, ◌>>=◌, ◌>>◌}
use snap_openstack_hyperviso.Ovs.{Outcome, Session, or_number}
use snap_openstack_hyperviso.Ovs.Commands.{command, add_bridge, add_port, add_bond}
use snap_openstack_hyperviso.Pci.Overrides.{ensure_driver_override}
use snap_openstack_hyperviso.Dpdk.{PortInfo, BondInfo, Mappings}

-- An entry of `dpdk_ports`.
pub record DpdkPort : Type 0 where
  pub name : Text
  pub pci_address : Text
  pub mtu : Option ℕ

abbrev pub dpdk_port : PortInfo → DpdkPort
dpdk_port info = record {
  name = info.dpdk_port_name;
  pci_address = info.pci_address;
  mtu = info.mtu;
}

abbrev pub mtu_request : Option ℕ → List Text
mtu_request none = []
mtu_request (some zero) = []
mtu_request (some (suc n)) = (str "mtu-request=" ++ decimal (suc n)) ∷ []

-- `["set", "Interface", …]` of `_add_dpdk_bond`.
unfoldable pub set_interface_args : Option ℕ → DpdkPort → List Text
unfolding decimal
set_interface_args mtu port =
    str "set"
    ∷ str "Interface"
    ∷ port.name
    ∷ str "type=dpdk"
    ∷ (str "options:dpdk-devargs=" ++ port.pci_address)
    ∷ mtu_request (or_number mtu port.mtu)

module _ {W : Type 0} (run : List Text → W → Outcome × W) where
  unfoldable pub add_dpdk_port : Text → Text → Text → Option ℕ → Exec (Session W) (Unit {0})
  unfolding add_port
  add_dpdk_port bridge_name dpdk_port_name pci_address mtu =
      add_port run bridge_name dpdk_port_name (record {
        port_type = some (str "dpdk");
        options = (str "dpdk-devargs", pci_address) ∷ [];
        external_ids = [];
        mtu = mtu;
      })

  -- The loop over the ports of a bond.
  unfoldable pub set_interfaces : Option ℕ → List DpdkPort → Exec (Session W) (Unit {0})
  unfolding set_interface_args
  set_interfaces mtu [] = pure tt
  set_interfaces mtu (port ∷ rest) =
      command run (set_interface_args mtu port) >> set_interfaces mtu rest

  unfoldable pub add_dpdk_bond :
      Text → Text → List DpdkPort → BondInfo → Exec (Session W) (Unit {0})
  unfolding add_bond set_interfaces
  add_dpdk_bond bridge_name bond_name dpdk_ports info = do
    add_bond run bridge_name bond_name (map (λ p. p.name) dpdk_ports) (record {
      bond_mode = some info.bond_mode;
      lacp_mode = some info.lacp_mode;
      lacp_time = some info.lacp_time;
    })
    set_interfaces info.mtu dpdk_ports

  -- A bridge that is `None` is no argument of a command.
  abbrev pub attach_port : PortInfo → Option Text → Exec (Session W) (Unit {0})
  attach_port info none = raise (type_error (str "expected str, bytes or os.PathLike object"))
  attach_port info (some bridge) = do
    add_bridge run bridge (str "netdev") []
    add_dpdk_port bridge info.dpdk_port_name info.pci_address info.mtu

  -- The loop over the ports.
  unfoldable pub create_ports : Text → Dict Text PortInfo → Exec (Session W) (Unit {0})
  unfolding ensure_driver_override add_bridge add_dpdk_port
  create_ports dpdk_driver [] = pure tt
  create_ports dpdk_driver ((port_name, info) ∷ rest) = do
    ensure_driver_override run info.pci_address dpdk_driver
    (if given info.bond then pure tt else attach_port info info.bridge)
    create_ports dpdk_driver rest

  abbrev pub find_port : Text → Option PortInfo → Exec (Session W) DpdkPort
  find_port port_name none = raise (exception (str "Missing dpdk port info: " ++ port_name))
  find_port port_name (some info) = pure (dpdk_port info)

  -- The loop that collects the ports of a bond.
  unfoldable pub bond_ports_of : Dict Text PortInfo → List Text → Exec (Session W) (List DpdkPort)
  unfolding lookup
  bond_ports_of ports [] = pure []
  bond_ports_of ports (port_name ∷ rest) = do
    port ← find_port port_name (lookup port_name ports)
    more ← bond_ports_of ports rest
    pure (port ∷ more)

  -- The loop over the bonds.
  unfoldable pub create_bonds :
      Dict Text PortInfo → Dict Text BondInfo → Exec (Session W) (Unit {0})
  unfolding bond_ports_of add_bridge add_dpdk_bond
  create_bonds ports [] = pure tt
  create_bonds ports ((bond_name, info) ∷ rest) = do
    bond_ports ← bond_ports_of ports info.ports
    add_bridge run info.bridge (str "netdev") []
    add_dpdk_bond info.bridge bond_name bond_ports info
    create_bonds ports rest

  unfoldable pub create_dpdk_ports_and_bonds : Mappings → Text → Exec (Session W) (Unit {0})
  unfolding create_ports create_bonds
  create_dpdk_ports_and_bonds m dpdk_driver = do
    create_ports dpdk_driver m.ports
    create_bonds m.ports m.bonds
