-- ===== src/Networking/External.antt =====
-- openstack_hypervisor/hooks.py: the external networking of OVN, which turns the difference between
-- the mappings of the switch and those of the options into commands.
-- The parameters are the order `enum` of a set, the commands, pyroute2 (`links`), SHA-256, the
-- machine's id, and `network_of`, the network of an address by the module ipaddress.
use snap_openstack_hyperviso.Base.{
  ℕ, Bool, true, false, ◌&&◌, Option, none, some, List, [], ◌∷◌, map, if◌then◌else◌, text_eq,
  Result, ok, err, is_empty,
}
use snap_openstack_hyperviso.Base.Dict.{Dict}
use snap_openstack_hyperviso.Base.Text.{Text, str, truthy, join}
use snap_openstack_hyperviso.Base.Effects.{Exec, pure, lift, ◌>>=◌, ◌>>◌}
use snap_openstack_hyperviso.Ovs.{Outcome, Session}
use snap_openstack_hyperviso.Ovs.Commands.{set, add_bridge, del_bridge}
use snap_openstack_hyperviso.Ovs.Tables.{Table}
use snap_openstack_hyperviso.Ovs.Ports.{
  del_interface_from_bridge, ensure_single_nic_on_bridge, del_external_nics_from_bridge,
  enable_chassis_as_gateway, disable_chassis_as_gateway,
}
use snap_openstack_hyperviso.Bridge.Mapping.{
  BridgeMapping, physnet_bridge_pair, resolve_bridge_mappings,
}
use snap_openstack_hyperviso.Bridge.Changes.{
  InterfaceChanges, BridgeResolutionStatus, resolve_ovs_changes, update_mappings_from_rename,
}
use snap_openstack_hyperviso.Bridge.Detect.{detect_current_mappings}
use snap_openstack_hyperviso.Bridge.StableMac.{physnet_mac_pair}
use snap_openstack_hyperviso.Networking.{
  Links, wait_for_interface, add_ip_to_interface, delete_ips_from_interface, ensure_link_up,
  add_iptable_postrouting_rule, delete_iptable_postrouting_rule,
}
use snap_openstack_hyperviso.Networking.Ovn.{
  NetworkOptions, get_datapath_type, has_address, set_external_ids,
}

abbrev pub comment : Text
comment = str "openstack-hypervisor external network rule"

abbrev pub several : List BridgeMapping → Bool
several [] = false
several (m ∷ []) = false
several (m ∷ n ∷ ms) = true

-- `physnet_mac_pair` of every mapping.
unfoldable pub mac_pairs : (Text → ℕ → ℕ) → Text → List BridgeMapping → Result (List Text)
unfolding physnet_mac_pair
mac_pairs sha256 machine_id [] = ok []
mac_pairs sha256 machine_id (m ∷ ms) =
    both (physnet_mac_pair sha256 m machine_id) (mac_pairs sha256 machine_id ms)
  where
    both : Result Text → Result (List Text) → Result (List Text)
    both (ok p) (ok ps) = ok (p ∷ ps)
    both (ok p) (err c) = err c
    both (err c) ps = err c

module _ {W : Type 0} (run : List Text → W → Outcome × W) where
  unfoldable pub del_bridges : List Text → Exec (Session W) (Unit {0})
  unfolding del_bridge
  del_bridges [] = pure tt
  del_bridges (bridge ∷ rest) = del_bridge run bridge >> del_bridges rest

  unfoldable pub add_bridges : Text → List Text → Exec (Session W) (Unit {0})
  unfolding add_bridge
  add_bridges datapath_type [] = pure tt
  add_bridges datapath_type (bridge ∷ rest) =
      add_bridge run bridge datapath_type (str "protocols=OpenFlow13,OpenFlow15" ∷ [])
      >> add_bridges datapath_type rest

  module _ (links : Links W) (loads : Text → Result Table) where
    -- The loop over the interfaces that a bridge loses.
    unfoldable pub remove_interfaces : Text → List Text → Exec (Session W) (Unit {0})
    unfolding del_interface_from_bridge
    remove_interfaces bridge [] = pure tt
    remove_interfaces bridge (iface ∷ rest) =
        del_interface_from_bridge run loads bridge iface >> remove_interfaces bridge rest

    unfoldable pub remove_changed : Dict Text InterfaceChanges → Exec (Session W) (Unit {0})
    unfolding remove_interfaces
    remove_changed [] = pure tt
    remove_changed ((bridge, change) ∷ rest) =
        remove_interfaces bridge change.removed >> remove_changed rest

    unfoldable pub wait_for_bridges : List BridgeMapping → Exec (Session W) (Unit {0})
    unfolding wait_for_interface
    wait_for_bridges [] = pure tt
    wait_for_bridges (m ∷ ms) = wait_for_interface links m.bridge >> wait_for_bridges ms

    abbrev pub attach_nic : Text → Option Text → Exec (Session W) Bool
    attach_nic bridge none = del_external_nics_from_bridge run loads bridge >> pure false
    attach_nic bridge (some interface) =
        if truthy interface
        then (do
          ensure_single_nic_on_bridge run loads bridge interface
          ensure_link_up links interface
          pure true)
        else (del_external_nics_from_bridge run loads bridge >> pure false)

    -- The last loop over the mappings, with `enable_as_gateway`.
    unfoldable pub attach_nics : Bool → List BridgeMapping → Exec (Session W) Bool
    unfolding delete_ips_from_interface ensure_single_nic_on_bridge ensure_link_up
        del_external_nics_from_bridge
    attach_nics enable_as_gateway [] = pure enable_as_gateway
    attach_nics enable_as_gateway (m ∷ ms) = do
      delete_ips_from_interface links m.bridge
      attached ← attach_nic m.bridge m.interface
      attach_nics (if attached then true else enable_as_gateway) ms

    abbrev pub set_gateway : Bool → Exec (Session W) (Unit {0})
    set_gateway enable_as_gateway =
        if enable_as_gateway then enable_chassis_as_gateway run else disable_chassis_as_gateway run

    module _ (network_of : Text → Result Text) (sha256 : Text → ℕ → ℕ) (machine_id : Text) where
      -- One mapping, whose bridge gets an address of its own.
      unfoldable pub configure_localnet : BridgeMapping → Text → Exec (Session W) (Unit {0})
      unfolding add_ip_to_interface add_iptable_postrouting_rule enable_chassis_as_gateway
      configure_localnet m address = do
        add_ip_to_interface links m.bridge address
        external_network ← lift (network_of address)
        add_iptable_postrouting_rule run external_network comment
        enable_chassis_as_gateway run

      unfoldable pub configure_external_nics : List BridgeMapping → Exec (Session W) (Unit {0})
      unfolding delete_iptable_postrouting_rule attach_nics mac_pairs set join
          enable_chassis_as_gateway disable_chassis_as_gateway
      configure_external_nics mappings = do
        delete_iptable_postrouting_rule run comment
        enable_as_gateway ← attach_nics false mappings
        pairs ← lift (mac_pairs sha256 machine_id mappings)
        set_external_ids run ((str "ovn-chassis-mac-mappings", join (str ",") pairs) ∷ [])
        set_gateway enable_as_gateway

      -- The three ways to end: `len(mappings) == 1` or not, and with an address or not.
      abbrev pub configure_bridges :
          NetworkOptions → List BridgeMapping → Exec (Session W) (Unit {0})
      configure_bridges o (m ∷ []) =
          if has_address o
          then configure_localnet m o.external_bridge_address
          else configure_external_nics (m ∷ [])
      configure_bridges o mappings = configure_external_nics mappings

      unfoldable pub apply_changes :
          NetworkOptions → BridgeResolutionStatus → List BridgeMapping → Exec (Session W) (Unit {0})
      unfolding remove_changed del_bridges add_bridges set wait_for_bridges configure_localnet
          configure_external_nics join
      apply_changes o changes mappings = do
        remove_changed changes.interface_changes
        del_bridges changes.removed_bridges
        add_bridges (get_datapath_type o.ovs_dpdk_enabled) changes.added_bridges
        set_external_ids run
            ((str "ovn-bridge-mappings", join (str ",") (map physnet_bridge_pair mappings)) ∷ [])
        wait_for_bridges mappings
        configure_bridges o mappings

      module _ (enum : List Text → List Text) where
        -- The mappings of the options are set, and not several if there is an address.
        abbrev pub configure_mappings :
            NetworkOptions → List BridgeMapping → Exec (Session W) (Unit {0})
        configure_mappings o mappings =
            if is_empty mappings
            then pure tt
            else if several mappings && has_address o
            then pure tt
            else (do current ← detect_current_mappings run; change_from mappings current)
          where
            change_from : List BridgeMapping → List BridgeMapping → Exec (Session W) (Unit {0})
            change_from mappings current =
                let changes = resolve_ovs_changes enum current mappings in
                apply_changes o changes
                  (update_mappings_from_rename mappings changes.renamed_bridges)

        unfoldable pub configure_ovn_external_networking :
            NetworkOptions → Exec (Session W) (Unit {0})
        unfolding resolve_bridge_mappings detect_current_mappings resolve_ovs_changes apply_changes
            update_mappings_from_rename
        configure_ovn_external_networking o =
            if truthy o.ovn_sb_connection
            then (do
              mappings ← lift (
                  resolve_bridge_mappings o.external_bridge o.physnet_name o.external_nic
                    o.bridge_mapping)
              configure_mappings o mappings)
            else pure tt
