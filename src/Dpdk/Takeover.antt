-- ===== src/Dpdk/Takeover.antt =====
-- openstack_hypervisor/hooks.py: `_process_dpdk_ports`, which takes interfaces over from Netplan: the
-- mappings are computed, Netplan and the switch are freed of the interfaces, the mappings are
-- stored, and the DPDK ports and bonds are created.
-- The parameters are `yaml.safe_load`, `json.loads`, `os.path.exists`, and the snap's configuration,
-- to which `store` writes.
use snap_openstack_hyperviso.Base.{
  Bool, true, false, Option, none, some, List, [], ◌∷◌, map, keep_if, is_empty, if◌then◌else◌,
}
use snap_openstack_hyperviso.Base.Dict.{Dict, or_default}
use snap_openstack_hyperviso.Base.Text.{Text, str, truthy, strip, split}
use snap_openstack_hyperviso.Base.Effects.{Exec, pure, ◌>>=◌, ◌>>◌}
use snap_openstack_hyperviso.Ovs.{Outcome, Session}
use snap_openstack_hyperviso.Ovs.Commands.{del_port}
use snap_openstack_hyperviso.Netplan.{
  Network, no_network, get_netplan_config, remove_interface_from_bridge, remove_bond,
  remove_ethernet, apply_netplan,
}
use snap_openstack_hyperviso.Pci.Sysfs.{Sysfs}
use snap_openstack_hyperviso.Dpdk.{
  PortInfo, BondInfo, Mappings, StoredMappings, get_dpdk_mappings, process_dpdk_netplan_config,
}
use snap_openstack_hyperviso.Dpdk.Creation.{create_dpdk_ports_and_bonds}

-- `ovs_dpdk_ports`, at the commas.
unfoldable pub dpdk_ifaces_of : Option Text → List Text
unfolding split strip keep_if
dpdk_ifaces_of ovs_dpdk_ports =
    map strip (keep_if truthy (split b',' (or_default [] ovs_dpdk_ports)))

abbrev pub or_vfio_pci : Option Text → Text
or_vfio_pci none = str "vfio-pci"
or_vfio_pci (some driver) = if truthy driver then driver else str "vfio-pci"

-- The settings of the section `network` that this reads.
pub record DpdkSettings : Type 0 where
  pub ovs_dpdk_enabled : Bool
  pub ovs_dpdk_ports : Option Text
  pub dpdk_driver : Option Text
  pub dpdk_port_mappings : Text

module _ {W : Type 0} (run : List Text → W → Outcome × W) (safe_load : Text → Option Network)
    (exists : Text → W → Bool) where
  abbrev pub del_if : Bool → Text → Text → Exec (Session W) (Unit {0})
  del_if changes_made bridge name = if changes_made then del_port run bridge name else pure tt

  -- The loop over the bonds, with `should_reapply_netplan`.
  unfoldable pub free_bonds : Bool → Dict Text BondInfo → Exec (Session W) Bool
  unfolding remove_interface_from_bridge remove_bond del_port
  free_bonds reapply [] = pure reapply
  free_bonds reapply ((bond_name, info) ∷ rest) = do
    changes_made ← remove_interface_from_bridge run safe_load info.bridge bond_name
    remove_bond run safe_load exists bond_name
    del_if changes_made info.bridge bond_name
    free_bonds (if changes_made then true else reapply) rest

  abbrev pub free_port : Bool → Text → Option Text → Exec (Session W) Bool
  free_port reapply interface_name none = pure reapply
  free_port reapply interface_name (some bridge) =
      if truthy bridge
      then (do
        changes_made ← remove_interface_from_bridge run safe_load bridge interface_name
        del_if changes_made bridge interface_name
        pure (if changes_made then true else reapply))
      else pure reapply

  -- The loop over the ports.
  unfoldable pub free_ports : Bool → Dict Text PortInfo → Exec (Session W) Bool
  unfolding remove_interface_from_bridge remove_ethernet del_port
  free_ports reapply [] = pure reapply
  free_ports reapply ((interface_name, info) ∷ rest) = do
    reapply' ← free_port reapply interface_name info.bridge
    remove_ethernet run safe_load interface_name
    free_ports reapply' rest

  unfoldable pub update_netplan_dpdk_ports : Mappings → Exec (Session W) (Unit {0})
  unfolding free_bonds free_ports apply_netplan
  update_netplan_dpdk_ports m = do
    bonds_changed ← free_bonds false m.bonds
    should_reapply_netplan ← free_ports bonds_changed m.ports
    (if should_reapply_netplan then apply_netplan run safe_load else pure tt)

  module _ (fs : Sysfs) (loads : Text → StoredMappings)
      (store : Mappings → Exec (Session W) (Unit {0})) where
    unfoldable pub take_over : DpdkSettings → List Text → Exec (Session W) (Unit {0})
    unfolding get_dpdk_mappings get_netplan_config process_dpdk_netplan_config
        update_netplan_dpdk_ports create_dpdk_ports_and_bonds
    take_over settings dpdk_ifaces = do
      config ← get_netplan_config run safe_load
      finish
          (process_dpdk_netplan_config fs (or_default no_network config)
            (get_dpdk_mappings loads settings.dpdk_port_mappings) dpdk_ifaces).0
      where
        finish : Mappings → Exec (Session W) (Unit {0})
        finish m = do
          update_netplan_dpdk_ports m
          store m
          create_dpdk_ports_and_bonds run m (or_vfio_pci settings.dpdk_driver)

    unfoldable pub process_dpdk_ports : DpdkSettings → Exec (Session W) (Unit {0})
    unfolding take_over dpdk_ifaces_of
    process_dpdk_ports settings =
        let dpdk_ifaces = dpdk_ifaces_of settings.ovs_dpdk_ports in
        if settings.ovs_dpdk_enabled
        then (if is_empty dpdk_ifaces then pure tt else take_over settings dpdk_ifaces)
        else pure tt
