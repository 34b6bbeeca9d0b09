-- ===== src/Dpdk.antt =====
-- openstack_hypervisor/hooks.py: the DPDK ports and bonds that are taken over from Netplan. This file
-- has the mappings and how the configuration of Netplan fills them; the children change Netplan and
-- the switch by them, test whether they are in place, and prove what holds of them.
pub mod Creation
pub mod Takeover
pub mod Consistent
pub mod Settled
pub mod Completion
pub mod Taken
pub mod Readiness
pub mod Answered
pub mod Found
pub mod Ready
pub mod Settings
use snap_openstack_hyperviso.Base.{
  ℕ, Bool, true, false, not, ◌&&◌, ◌||◌, Option, none, some, List, [], ◌∷◌, ◌++◌, if◌then◌else◌,
  ◌==◌, text_eq, contains,
}
use snap_openstack_hyperviso.Base.Dict.{Dict, lookup, insert, is_some, or_default}
use snap_openstack_hyperviso.Base.Text.{Text, str, truthy}
use snap_openstack_hyperviso.Netplan.{Network, Ethernet, BondConfig, BridgeConfig}
use snap_openstack_hyperviso.Pci.Sysfs.{Sysfs, get_pci_address}

-- An entry of `port_mappings`.
pub record PortInfo : Type 0 where
  pub pci_address : Text
  pub mtu : Option ℕ
  pub bridge : Option Text
  pub bond : Option Text
  pub dpdk_port_name : Text

-- An entry of `bond_mappings`.
pub record BondInfo : Type 0 where
  pub ports : List Text
  pub bridge : Text
  pub bond_mode : Text
  pub lacp_mode : Text
  pub lacp_time : Text
  pub mtu : Option ℕ

pub record Mappings : Type 0 where
  pub ports : Dict Text PortInfo
  pub bonds : Dict Text BondInfo

-- The object that is stored as JSON; either key can be missing.
pub record StoredMappings : Type 0 where
  pub stored_ports : Option (Dict Text PortInfo)
  pub stored_bonds : Option (Dict Text BondInfo)

abbrev pub with_defaults : StoredMappings → Mappings
with_defaults stored = record {
  ports = or_default [] stored.stored_ports;
  bonds = or_default [] stored.stored_bonds;
}

-- `_get_dpdk_mappings`, of the text under `internal.dpdk-port-mappings`; `loads` is `json.loads`.
-- The text is one that the snap has stored itself, so it is read without an error.
unfoldable pub get_dpdk_mappings : (Text → StoredMappings) → Text → Mappings
get_dpdk_mappings loads mappings =
    if truthy mappings then with_defaults (loads mappings) else record { ports = []; bonds = [] }

abbrev pub get_dpdk_port_name : Text → Text
get_dpdk_port_name ifname = str "dpdk-" ++ ifname

-- The loop over the bonds: the first with the interface.
unfoldable pub bond_of : Text → Dict Text BondConfig → Option (Text × BondConfig)
bond_of iface [] = none
bond_of iface ((bond_name, config) ∷ rest) =
    if contains config.interfaces iface then some (bond_name, config) else bond_of iface rest

-- Where the loop over the bridges stops: at a bridge with the interface, or with its bond.
pub data Place : Type 0 where
  nowhere : Place
  iface_on bond_on : Text → Place

abbrev pub lists_bond : List Text → Option (Text × BondConfig) → Bool
lists_bond bridge_ifaces none = false
lists_bond bridge_ifaces (some (bond_name, config)) = contains bridge_ifaces bond_name

unfoldable pub place_of : Text → Option (Text × BondConfig) → Dict Text BridgeConfig → Place
place_of iface bond [] = nowhere
place_of iface bond ((bridge_name, config) ∷ rest) =
    let on_bridge = contains config.interfaces iface in
    let bond_on_bridge = lists_bond config.interfaces bond in
    if (on_bridge || bond_on_bridge) && not config.openvswitch
    then place_of iface bond rest
    else if on_bridge
    then iface_on bridge_name
    else if bond_on_bridge
    then bond_on bridge_name
    else place_of iface bond rest

-- What is done with an interface: nothing, a port of a bridge, or a port of a bond.
pub data Plan : Type 0 where
  skip : Plan
  as_port : (bond : Option Text) (bridge : Text) → Plan
  as_member : (bond : Text) → BondConfig → (bridge : Text) → Plan

abbrev bond_name_of : Option (Text × BondConfig) → Option Text
bond_name_of none = none
bond_name_of (some (bond_name, config)) = some bond_name

-- The interface is in no bond: the tests of `iface_bridge`.
abbrev plan_port : Option Text → Place → Plan
plan_port bond nowhere = skip
plan_port bond (iface_on bridge) = if truthy bridge then as_port bond bridge else skip
plan_port bond (bond_on bridge) = skip

-- The interface is in a bond: the tests of `bond_bridge`.
abbrev plan_member : Text → BondConfig → Place → Plan
plan_member bond_name config nowhere = skip
plan_member bond_name config (iface_on bridge) = skip
plan_member bond_name config (bond_on bridge) =
    if truthy bridge then as_member bond_name config bridge else skip

abbrev plan_for : Option (Text × BondConfig) → Place → Plan
plan_for none place = plan_port none place
plan_for (some (bond_name, config)) place =
    if truthy bond_name
    then plan_member bond_name config place
    else plan_port (some bond_name) place

unfoldable pub plan_of : Network → Text → Plan
unfolding bond_of place_of
plan_of net iface =
    let bond = bond_of iface net.bonds in plan_for bond (place_of iface bond net.bridges)

abbrev mtu_of : Option Ethernet → Option ℕ
mtu_of none = none
mtu_of (some e) = e.mtu

abbrev pub ovs_bond_mode : Option Text → Text
ovs_bond_mode none = str "balance-tcp"
ovs_bond_mode (some mode) = if mode == str "active-backup" then mode else str "balance-tcp"

-- The keys of an entry of `bond_mappings`.
abbrev pub bond_keys : List Text
bond_keys =
    str "ports"
    ∷ str "bridge"
    ∷ str "bond_mode"
    ∷ str "lacp_mode"
    ∷ str "lacp_time"
    ∷ str "mtu"
    ∷ []

abbrev new_bond : BondConfig → Text → Text → BondInfo
new_bond config bridge iface = record {
  ports = iface ∷ [];
  bridge = bridge;
  bond_mode = ovs_bond_mode config.mode;
  lacp_mode = or_default (str "active") config.lacp;
  lacp_time = or_default (str "fast") config.lacp_rate;
  mtu = config.mtu;
}

abbrev pub extend_unless : Bool → BondInfo → Text → BondInfo
extend_unless listed info iface =
    if listed then info else record info { ports = info.ports ++ (iface ∷ []) }

-- `iface not in bond_mappings[iface_bond]` looks among the keys of the entry.
abbrev pub joined_bond : Option BondInfo → BondConfig → Text → Text → BondInfo
joined_bond none config bridge iface = new_bond config bridge iface
joined_bond (some info) config bridge iface = extend_unless (contains bond_keys iface) info iface

module _ (fs : Sysfs) (net : Network) where
  abbrev pub port_info : Text → Option Text → Option Text → PortInfo
  port_info iface bridge bond = record {
    pci_address = get_pci_address fs iface;
    mtu = mtu_of (lookup iface net.ethernets);
    bridge = bridge;
    bond = bond;
    dpdk_port_name = get_dpdk_port_name iface;
  }

  -- The mappings, and `netplan_changes_required`.
  abbrev pub carry_out : Mappings → Bool → Text → Plan → Mappings × Bool
  carry_out m changed iface skip = (m, changed)
  carry_out m changed iface (as_port bond bridge) =
      (record m { ports = insert iface (port_info iface (some bridge) bond) m.ports }, true)
  carry_out m changed iface (as_member bond config bridge) = (
    record {
      ports = insert iface (port_info iface none (some bond)) m.ports;
      bonds = insert bond (joined_bond (lookup bond m.bonds) config bridge iface) m.bonds;
    },
    true,
  )

  -- One round of the loop over the interfaces.
  unfoldable pub process_iface : Mappings → Bool → Text → Mappings × Bool
  unfolding lookup insert get_pci_address plan_of
  process_iface m changed iface =
      if is_some (lookup iface m.ports)
      then (m, changed)
      else if truthy (get_pci_address fs iface)
      then carry_out m changed iface (plan_of net iface)
      else (m, changed)

  unfoldable pub process_ifaces : Mappings → Bool → List Text → Mappings × Bool
  unfolding process_iface
  process_ifaces m changed [] = (m, changed)
  process_ifaces m changed (iface ∷ rest) =
      let (m', changed') = process_iface m changed iface in process_ifaces m' changed' rest

  -- `_process_dpdk_netplan_config`
  unfoldable pub process_dpdk_netplan_config : Mappings → List Text → Mappings × Bool
  unfolding process_ifaces
  process_dpdk_netplan_config m dpdk_ifaces = process_ifaces m false dpdk_ifaces
