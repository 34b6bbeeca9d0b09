-- ===== src/Dpdk/Taken.antt =====
-- What `_process_dpdk_ports` (openstack_hypervisor/hooks.py) can raise: nothing of its own, once the
-- stored mappings are consistent.
use mathlib.Core.Option.{none-ne-some}
use snap_openstack_hyperviso.Base.{
  text_eq, contains, ◌≡◌, refl, Bool, true, false, Option, none, some, List, [], ◌∷◌, ◌++◌,
  if◌then◌else◌, Exc, is_empty, Result, ok, err,
}
use snap_openstack_hyperviso.Base.Dict.{Dict, lookup, or_default}
use snap_openstack_hyperviso.Base.Text.{Text, str, truthy}
use snap_openstack_hyperviso.Base.Effects.{
  Exec, pure, ◌>>=◌, Meets, Contract, Contract-bind, Contract-weaken, continue,
}
use snap_openstack_hyperviso.Ovs.{Outcome, Session, vsctl_outcome}
use snap_openstack_hyperviso.Ovs.ReadOnly.{Anything}
use snap_openstack_hyperviso.Ovs.Commands.{del_port}
use snap_openstack_hyperviso.Host.{host_outcome, check_output, check_call}
use snap_openstack_hyperviso.Netplan.{
  Network, no_network, bridge_interfaces_of, get_netplan_config, remove_from,
  remove_interface_from_bridge, remove_bond, remove_ethernet, apply_netplan,
}
use snap_openstack_hyperviso.Pci.Sysfs.{Sysfs}
use snap_openstack_hyperviso.Dpdk.{PortInfo, BondInfo, Mappings, StoredMappings, get_dpdk_mappings}
use snap_openstack_hyperviso.Dpdk.Creation.{create_dpdk_ports_and_bonds}
use snap_openstack_hyperviso.Dpdk.Takeover.{
  DpdkSettings, dpdk_ifaces_of, or_vfio_pci, del_if, free_bonds, free_port, free_ports,
  update_netplan_dpdk_ports, take_over, process_dpdk_ports,
}
use snap_openstack_hyperviso.Dpdk.Consistent.{
  IsConsistent, process_dpdk_netplan_config-IsConsistent,
}
use snap_openstack_hyperviso.Dpdk.Completion.{
  Safe, Safe-pure, Safe-bind, Safe-if, command-Safe, check_call-Safe, create-Safe,
}

module _ {W : Type 0} (run : List Text → W → Outcome × W) (safe_load : Text → Option Network)
    (exists : Text → W → Bool) (E : Exc → Type 0)
    (on_switch : (args : List Text) (w : W) → Meets Anything E (vsctl_outcome (run args w).0))
    (on_host : (args : List Text) (w : W) → Meets Anything E (host_outcome (run args w).0))
    (configured : (w : W) (printed : Text)
      → host_outcome (run (str "netplan" ∷ str "get" ∷ []) w).0 ≡ ok printed
      → (net : Network) × (safe_load printed ≡ some net)) where
  abbrev Sound : {A : Type 0} → Exec (Session W) A → Type 0
  Sound m = Safe run E on_switch on_host m

  and_then :
      {A B : Type 0} (m : Exec (Session W) A) (f : A → Exec (Session W) B)
      → Sound m
      → ((a : A) → Sound (f a))
      → Sound (m >>= f)
  and_then m f h k = Safe-bind run E on_switch on_host m f h k

  returns : {A : Type 0} (a : A) → Sound (pure a)
  returns a = Safe-pure run E on_switch on_host a

  calls : (args : List Text) → Sound (check_call run args)
  calls args = check_call-Safe run E on_switch on_host args

  either :
      {A : Type 0} (b : Bool) {m n : Exec (Session W) A}
      → Sound m
      → Sound n
      → Sound (if b then m else n)
  either b h k = Safe-if run E on_switch on_host b h k

  remove_from-Sound :
      (bridge name : Text) (config : Option Network) (net : Network)
      → config ≡ some net
      → Sound (remove_from run safe_load bridge name config)
  remove_from-Sound bridge name none net e = absurd (none-ne-some net e)
  remove_from-Sound bridge name (some config) net e =
      either (contains (bridge_interfaces_of (lookup bridge config.bridges)) name)
        (and_then (check_call run _) _ (calls _) λ u. returns true) (returns false)

  abbrev IsSome : Option Network → Type 0
  IsSome config = (net : Network) × (config ≡ some net)

  -- What `netplan get` prints is a configuration.
  get_netplan_config-IsSome :
      Contract {S = Session W} Anything IsSome E (get_netplan_config run safe_load)
  unfolding get_netplan_config check_output
  get_netplan_config-IsSome = record {
    keeps = λ s h. tt;
    meets = λ s h.
        loaded (host_outcome (run (str "netplan" ∷ str "get" ∷ []) s.world).0)
          (record s { world = (run (str "netplan" ∷ str "get" ∷ []) s.world).1 })
          (on_host (str "netplan" ∷ str "get" ∷ []) s.world) (configured s.world);
  }
    where
      loaded :
          (r : Result Text) (s : Session W)
          → Meets Anything E r
          → ((printed : Text) → r ≡ ok printed → (net : Network) × (safe_load printed ≡ some net))
          → Meets IsSome E (continue r (λ raw. pure (safe_load raw)) s).0
      loaded (ok raw) s h k = k raw refl
      loaded (err c) s h k = h

  remove_interface_from_bridge-Sound :
      (bridge name : Text) → Sound (remove_interface_from_bridge run safe_load bridge name)
  unfolding remove_interface_from_bridge
  remove_interface_from_bridge-Sound bridge name =
      Contract-bind IsSome Anything E (get_netplan_config run safe_load) _ get_netplan_config-IsSome
        λ config (net, e). remove_from-Sound bridge name config net e

  del_if-Sound :
      (changed : Bool) (bridge name : Text)
      → Sound (del_if run safe_load exists changed bridge name)
  unfolding del_port
  del_if-Sound changed bridge name =
      either changed (command-Safe run E on_switch on_host _) (returns tt)

  remove_bond-Sound : (name : Text) → Sound (remove_bond run safe_load exists name)
  unfolding remove_bond
  remove_bond-Sound name = and_then (check_call run _) _ (calls _) λ u. record {
    keeps = λ s h. tt;
    meets = λ s h.
        (either (exists (str "/proc/net/bonding/" ++ name) s.world) (calls _) (returns tt)).meets s
          tt;
  }

  free_bonds-Sound :
      (reapply : Bool) (bonds : Dict Text BondInfo)
      → Sound (free_bonds run safe_load exists reapply bonds)
  unfolding free_bonds
  free_bonds-Sound reapply [] = returns reapply
  free_bonds-Sound reapply ((name, info) ∷ rest) =
      and_then (remove_interface_from_bridge run safe_load info.bridge name) _
        (remove_interface_from_bridge-Sound info.bridge name)
        λ changed. and_then (remove_bond run safe_load exists name) _ (remove_bond-Sound name) λ u.
          and_then (del_if run safe_load exists changed info.bridge name) _
            (del_if-Sound changed info.bridge name)
            λ v. free_bonds-Sound (if changed then true else reapply) rest

  free_port-Sound :
      (reapply : Bool) (name : Text) (bridge : Option Text)
      → Sound (free_port run safe_load exists reapply name bridge)
  free_port-Sound reapply name none = returns reapply
  free_port-Sound reapply name (some bridge) =
      either (truthy bridge)
        (and_then (remove_interface_from_bridge run safe_load bridge name) _
          (remove_interface_from_bridge-Sound bridge name)
          λ changed.
            and_then (del_if run safe_load exists changed bridge name) _
              (del_if-Sound changed bridge name) λ u. returns _)
        (returns reapply)

  free_ports-Sound :
      (reapply : Bool) (ports : Dict Text PortInfo)
      → Sound (free_ports run safe_load exists reapply ports)
  unfolding free_ports remove_ethernet
  free_ports-Sound reapply [] = returns reapply
  free_ports-Sound reapply ((name, info) ∷ rest) =
      and_then (free_port run safe_load exists reapply name info.bridge) _
        (free_port-Sound reapply name info.bridge)
        λ reapply'.
          and_then (remove_ethernet run safe_load name) _ (calls _)
            λ u. free_ports-Sound reapply' rest

  update-Sound : (m : Mappings) → Sound (update_netplan_dpdk_ports run safe_load exists m)
  unfolding update_netplan_dpdk_ports apply_netplan
  update-Sound m =
      and_then (free_bonds run safe_load exists false m.bonds) _ (free_bonds-Sound false m.bonds)
        λ changed.
          and_then (free_ports run safe_load exists changed m.ports) _
            (free_ports-Sound changed m.ports) λ reapply. either reapply (calls _) (returns tt)

  module _ (fs : Sysfs) (loads : Text → StoredMappings)
      (store : Mappings → Exec (Session W) (Unit {0}))
      (stores : (m : Mappings) (s : Session W) → Meets Anything E (store m s).0)
      (settings : DpdkSettings)
      (stored : IsConsistent (get_dpdk_mappings loads settings.dpdk_port_mappings)) where
    take_over-Sound :
        (dpdk_ifaces : List Text)
        → Sound (take_over run safe_load exists fs loads store settings dpdk_ifaces)
    unfolding take_over
    take_over-Sound dpdk_ifaces =
        and_then (get_netplan_config run safe_load) _
          (Contract-weaken IsSome E Anything _ (λ a h. tt) get_netplan_config-IsSome)
          λ config. finish-Sound _ (
            process_dpdk_netplan_config-IsConsistent fs (or_default no_network config)
              (get_dpdk_mappings loads settings.dpdk_port_mappings) dpdk_ifaces stored)
      where
        finish-Sound :
            (m : Mappings)
            → IsConsistent m
            → Sound (
                update_netplan_dpdk_ports run safe_load exists m >>= λ u. store m >>= λ v.
                create_dpdk_ports_and_bonds run m (or_vfio_pci settings.dpdk_driver))
        finish-Sound m h =
            and_then (update_netplan_dpdk_ports run safe_load exists m) _ (update-Sound m) λ u.
              and_then (store m) _ (record { keeps = λ s p. tt; meets = λ s p. stores m s })
                λ v. create-Safe run E on_switch on_host m (or_vfio_pci settings.dpdk_driver) h

    -- Taking DPDK interfaces over raises nothing of its own: if the stored mappings are consistent,
    -- and what `netplan get` prints is a configuration, then whatever holds of the exceptions of the commands that fail and of
    -- storing the mappings holds of its exceptions. So it succeeds if all of them succeed.
    pub process_dpdk_ports-Meets :
        (s : Session W)
        → Meets Anything E (process_dpdk_ports run safe_load exists fs loads store settings s).0
    unfolding process_dpdk_ports
    process_dpdk_ports-Meets s =
        (either settings.ovs_dpdk_enabled
            (either (is_empty (dpdk_ifaces_of settings.ovs_dpdk_ports)) (returns tt)
              (take_over-Sound (dpdk_ifaces_of settings.ovs_dpdk_ports)))
            (returns tt)).meets
          s tt
