-- ===== src/Dpdk/Completion.antt =====
-- What `_create_dpdk_ports_and_bonds` (openstack_hypervisor/hooks.py) can raise: nothing of its own,
-- if the mappings are consistent.
use mathlib.Core.Bool.{true≢false}
use snap_openstack_hyperviso.Base.{
  ℕ, text_eq, ◌≡◌, sym, Bool, true, false, Option, none, some, List, [], ◌∷◌, All, if◌then◌else◌,
  ◌||◌, not, ◌&&◌, Exc, ok, called_process_error,
}
use snap_openstack_hyperviso.Base.Dict.{Dict, lookup, is_some, AllValues}
use snap_openstack_hyperviso.Base.Text.{Text, given}
use snap_openstack_hyperviso.Base.Effects.{
  Exec, pure, ◌>>=◌, Meets, Contract, Contract-pure, Contract-raise, Contract-bind, Contract-catch,
}
use snap_openstack_hyperviso.Ovs.{Outcome, Session, vsctl, execute_vsctl, vsctl_outcome}
use snap_openstack_hyperviso.Ovs.ReadOnly.{Anything}
use snap_openstack_hyperviso.Ovs.Commands.{command, add_bridge, add_port, add_bond}
use snap_openstack_hyperviso.Host.{host_outcome, check_output, check_call}
use snap_openstack_hyperviso.Pci.Overrides.{
  get_driver_overrides, set_driver_override, ensure_driver_override, is_override, no_overrides,
}
use snap_openstack_hyperviso.Dpdk.{PortInfo, BondInfo, Mappings}
use snap_openstack_hyperviso.Dpdk.Creation.{
  DpdkPort, add_dpdk_port, set_interfaces, set_interface_args, add_dpdk_bond, attach_port,
  create_ports, find_port, bond_ports_of, create_bonds, create_dpdk_ports_and_bonds,
}
use snap_openstack_hyperviso.Dpdk.Consistent.{IsPlaced, IsConsistent}

-- `E` holds of every exception that a command of the host raises.
module _ {W : Type 0} (run : List Text → W → Outcome × W) (E : Exc → Type 0)
    (on_switch : (args : List Text) (w : W) → Meets Anything E (vsctl_outcome (run args w).0))
    (on_host : (args : List Text) (w : W) → Meets Anything E (host_outcome (run args w).0)) where
  abbrev pub Safe : {A : Type 0} → Exec (Session W) A → Type 0
  Safe m = Contract Anything Anything E m

  pub Safe-pure : {A : Type 0} (a : A) → Safe (pure a)
  Safe-pure a = Contract-pure Anything E a tt

  pub Safe-bind :
      {A B : Type 0} (m : Exec (Session W) A) (f : A → Exec (Session W) B)
      → Safe m
      → ((a : A) → Safe (f a))
      → Safe (m >>= f)
  Safe-bind m f h k = Contract-bind Anything Anything E m f h (λ a _. k a)

  pub Safe-if :
      {A : Type 0} (b : Bool) {m n : Exec (Session W) A}
      → Safe m
      → Safe n
      → Safe (if b then m else n)
  Safe-if true h k = h
  Safe-if false h k = k

  execute-Safe : (args : List Text) → Safe (execute_vsctl run args true none)
  unfolding execute_vsctl
  execute-Safe args = record { keeps = λ s h. tt; meets = λ s h. on_switch _ s.world }

  vsctl-Safe : (args : List Text) → Safe (vsctl run args true none false)
  unfolding vsctl
  vsctl-Safe args = record {
    keeps = λ s h. tt;
    meets = λ s h. collected (s.cli.in_transaction && not false) s _;
  }
    where
      collected :
          (b : Bool) (s s' : Session W)
          → Meets Anything E (if b then (ok [], s') else execute_vsctl run args true none s).0
      collected true s s' = tt
      collected false s s' = (execute-Safe args).meets s tt

  pub command-Safe : (args : List Text) → Safe (command run args)
  command-Safe args =
      Safe-bind (vsctl run args true none false) _ (vsctl-Safe args) λ o. Safe-pure tt

  pub check_output-Safe : (args : List Text) → Safe (check_output run args)
  unfolding check_output
  check_output-Safe args = record { keeps = λ s h. tt; meets = λ s h. on_host args s.world }

  pub check_call-Safe : (args : List Text) → Safe (check_call run args)
  unfolding check_call
  check_call-Safe args =
      Safe-bind (check_output run args) _ (check_output-Safe args) λ o. Safe-pure tt

  get_driver_overrides-Safe : Safe (get_driver_overrides run)
  unfolding get_driver_overrides
  get_driver_overrides-Safe =
      Contract-catch Anything E E _ _
        (Safe-bind (check_output run _) _ (check_output-Safe _) λ out. Safe-pure _) handled
    where
      handled : (c : Exc) → E c → Safe (no_overrides run c)
      handled (called_process_error m) e = Safe-pure []
      handled _ e = Contract-raise Anything E _ e

  ensure_driver_override-Safe :
      (pci_address driver : Text) → Safe (ensure_driver_override run pci_address driver)
  unfolding ensure_driver_override set_driver_override
  ensure_driver_override-Safe pci_address driver =
      Safe-bind (get_driver_overrides run) _ get_driver_overrides-Safe λ overrides.
        Safe-if (is_override driver (lookup pci_address overrides)) (Safe-pure tt)
          (check_call-Safe _)

  attach_port-Safe : (info : PortInfo) (bridge : Text) → Safe (attach_port run info (some bridge))
  unfolding add_bridge add_dpdk_port add_port
  attach_port-Safe info bridge =
      Safe-bind (add_bridge run bridge _ []) _ (command-Safe _) λ u. command-Safe _

  placed-Safe :
      (info : PortInfo) (bridge : Option Text) (b : Bool)
      → (b || is_some bridge) ≡ true
      → Safe (if b then pure tt else attach_port run info bridge)
  placed-Safe info bridge true h = Safe-pure tt
  placed-Safe info none false h = absurd (true≢false (sym h))
  placed-Safe info (some bridge) false h = attach_port-Safe info bridge

  create_ports-Safe :
      (driver : Text) (ports : Dict Text PortInfo)
      → AllValues IsPlaced ports
      → Safe (create_ports run driver ports)
  unfolding create_ports
  create_ports-Safe driver [] h = Safe-pure tt
  create_ports-Safe driver ((name, info) ∷ rest) (h, hs) =
      Safe-bind (ensure_driver_override run info.pci_address driver) _
        (ensure_driver_override-Safe info.pci_address driver)
        λ u.
          Safe-bind (if given info.bond then pure tt else attach_port run info info.bridge) _
            (placed-Safe info info.bridge (given info.bond) h) λ v. create_ports-Safe driver rest hs

  find_port-Safe :
      (name : Text) (found : Option PortInfo)
      → is_some found ≡ true
      → Safe (find_port run name found)
  find_port-Safe name none h = absurd (true≢false (sym h))
  find_port-Safe name (some info) h = Safe-pure _

  bond_ports_of-Safe :
      (ports : Dict Text PortInfo) (names : List Text)
      → All (λ p. is_some (lookup p ports) ≡ true) names
      → Safe (bond_ports_of run ports names)
  unfolding bond_ports_of
  bond_ports_of-Safe ports [] h = Safe-pure []
  bond_ports_of-Safe ports (name ∷ rest) (h, hs) =
      Safe-bind (find_port run name (lookup name ports)) _
        (find_port-Safe name (lookup name ports) h)
        λ port.
          Safe-bind (bond_ports_of run ports rest) _ (bond_ports_of-Safe ports rest hs)
            λ more. Safe-pure _

  set_interfaces-Safe :
      (mtu : Option ℕ) (ports : List DpdkPort) → Safe (set_interfaces run mtu ports)
  unfolding set_interfaces
  set_interfaces-Safe mtu [] = Safe-pure tt
  set_interfaces-Safe mtu (port ∷ rest) =
      Safe-bind (command run (set_interface_args mtu port)) _ (command-Safe _)
        λ u. set_interfaces-Safe mtu rest

  create_bonds-Safe :
      (ports : Dict Text PortInfo) (bonds : Dict Text BondInfo)
      → AllValues (λ b. All (λ p. is_some (lookup p ports) ≡ true) b.ports) bonds
      → Safe (create_bonds run ports bonds)
  unfolding create_bonds add_bridge add_dpdk_bond add_bond
  create_bonds-Safe ports [] h = Safe-pure tt
  create_bonds-Safe ports ((name, info) ∷ rest) (h, hs) =
      Safe-bind (bond_ports_of run ports info.ports) _ (bond_ports_of-Safe ports info.ports h)
        λ bond_ports. Safe-bind (add_bridge run info.bridge _ []) _ (command-Safe _) λ u.
          Safe-bind (add_dpdk_bond run info.bridge name bond_ports info) _
            (Safe-bind (command run _) _ (command-Safe _)
              λ v. set_interfaces-Safe info.mtu bond_ports)
            λ w. create_bonds-Safe ports rest hs

  pub create-Safe :
      (m : Mappings) (driver : Text)
      → IsConsistent m
      → Safe (create_dpdk_ports_and_bonds run m driver)
  unfolding create_dpdk_ports_and_bonds
  create-Safe m driver (placed, present) =
      Safe-bind (create_ports run driver m.ports) _ (create_ports-Safe driver m.ports placed)
        λ u. create_bonds-Safe m.ports m.bonds present
