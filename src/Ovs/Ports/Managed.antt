-- ===== src/Ovs/Ports/Managed.antt =====
-- Which commands `_ensure_single_nic_on_bridge` runs (openstack_hypervisor/hooks.py).
use snap_openstack_hyperviso.Base.{
  ◌≡◌, ◌≢◌, refl, sym, ap, ◌∙◌, subst, Bool, true, false, none, List, [], ◌∷◌, if◌then◌else◌, ◌==◌,
  contains, text_eq, keep_if, Bool-cases, inl, inr, Exc, Result, ok, err, length, not, ◌&&◌, arith,
  ==_of_eq,
}
use snap_openstack_hyperviso.Base.Text.{Text, str}
use snap_openstack_hyperviso.Base.Effects.{
  Exec, pure, lift, Meets, Contract, Contract-pure, Contract-bind,
}
use snap_openstack_hyperviso.Ovs.{OvsCli, Outcome, Session, vsctl_command, execute_vsctl, vsctl}
use snap_openstack_hyperviso.Ovs.Queries.{
  query, list_bridge_interfaces, actual_interfaces, stripped_lines,
}
use snap_openstack_hyperviso.Ovs.ReadOnly.{Anything, query-eq-execute_vsctl}
use snap_openstack_hyperviso.Ovs.Commands.{command, add_port, del_port, add_port_args}
use snap_openstack_hyperviso.Ovs.Tables.{Table}
use snap_openstack_hyperviso.Ovs.Ports.{
  find, column_at, index_of, ext_port, get_external_ports_on_bridge, has_cell,
  add_interface_to_bridge, del_interface_from_bridge, del_others, ensure_single_nic_on_bridge,
}

-- The command that detaches the port from the bridge.
abbrev pub detach : Text → Text → List Text
detach bridge nic = str "--if-exists" ∷ str "del-port" ∷ bridge ∷ nic ∷ []

-- The outcome of the command may be any result or exception.
abbrev Any : Exc → Type 0
Any c = Unit

if_closed : {A : Type 0} (b : Bool) → b ≡ false → (x y : A) → (if b && not false then x else y) ≡ y
if_closed true h x y = cc
if_closed false h x y = refl

Any-result : {A : Type 0} (r : Result A) → Meets Anything Any r
Any-result (ok a) = tt
Any-result (err c) = tt

module _ {W : Type 0} (run : List Text → W → Outcome × W) (loads : Text → Result Table) (c : OvsCli)
    (alone : c.in_transaction ≡ false) (bridge nic : Text) (I : W → Type 0)
    (keeps : (args : List Text) (w : W)
      → args ≢ detach bridge nic
      → I w
      → I (run (vsctl_command c args true none) w).1) where
  abbrev Held : Session W → Type 0
  Held s = (s.cli ≡ c) × I s.world

  abbrev Holds : {A : Type 0} → Exec (Session W) A → Type 0
  Holds m = Contract Held Anything Any m

  execute-Holds :
      (args : List Text) → args ≢ detach bridge nic → Holds (execute_vsctl run args true none)
  unfolding execute_vsctl
  execute-Holds args d = record {
    keeps = λ s (h, i). (
      h,
      subst (λ k. I (run (vsctl_command k args true none) s.world).1) (sym h)
          (keeps args s.world d i),
    );
    meets = λ s h. Any-result (execute_vsctl run args true none s).0;
  }

  query-Holds : (args : List Text) → args ≢ detach bridge nic → Holds (query run args)
  query-Holds args d = subst Holds (sym (query-eq-execute_vsctl run args)) (execute-Holds args d)

  vsctl-Holds :
      (args : List Text) → args ≢ detach bridge nic → Holds (vsctl run args true none false)
  unfolding vsctl
  vsctl-Holds args d = record {
    keeps = λ s (h, i).
        subst {A = Result Text × Session W} (λ r. Held r.1)
          (sym (if_closed s.cli.in_transaction (ap (λ k. k.in_transaction) h ∙ alone) _ _))
          ((execute-Holds args d).keeps s (h, i));
    meets = λ s h. Any-result (vsctl run args true none false s).0;
  }

  command-Holds : (args : List Text) → args ≢ detach bridge nic → Holds (command run args)
  command-Holds args d =
      Contract-bind Anything Anything Any (vsctl run args true none false) _ (vsctl-Holds args d)
        λ output _. Contract-pure Anything Any tt tt

  actual_interfaces-Holds : (ifaces : List Text) → Holds (actual_interfaces run ifaces)
  unfolding actual_interfaces
  actual_interfaces-Holds [] = Contract-pure Anything Any [] tt
  actual_interfaces-Holds (i ∷ is) =
      Contract-bind Anything Anything Any (query run _) _
        (query-Holds _ (λ e. ground (arith, ap length e)))
        λ actual _. Contract-pure Anything Any _ tt

  list_bridge_interfaces-Holds : Holds (list_bridge_interfaces run bridge)
  unfolding list_bridge_interfaces
  list_bridge_interfaces-Holds =
      Contract-bind Anything Anything Any (query run _) _
        (query-Holds _ (λ e. ground (arith, ap length e)))
        λ output _. actual_interfaces-Holds (stripped_lines output)

  add_interface_to_bridge-Holds : Holds (add_interface_to_bridge run loads bridge nic)
  unfolding add_interface_to_bridge add_port add_port_args
  add_interface_to_bridge-Holds =
      Contract-bind Anything Anything Any (list_bridge_interfaces run bridge) _
        list_bridge_interfaces-Holds
        λ listed _. elim (Bool-cases (contains listed nic)) [
          | inl t ↦ rw t (Contract-pure Anything Any tt tt)
          | inr f ↦
              rw f (
                command-Holds (add_port_args bridge nic ext_port)
                  (λ e. ground (arith, ap length e)))
        ]

  other_port : (p : Text) → (p == nic) ≡ false → p ≡ nic → ⊥
  other_port p other e = cc (==_of_eq p nic e, other)

  del_interface_from_bridge-Holds :
      (p : Text) → (p == nic) ≡ false → Holds (del_interface_from_bridge run loads bridge p)
  unfolding del_interface_from_bridge del_port
  del_interface_from_bridge-Holds p other =
      Contract-bind Anything Anything Any (list_bridge_interfaces run bridge) _
        list_bridge_interfaces-Holds
        λ listed _. elim (Bool-cases (contains listed p)) [
          | inl t ↦ rw t (command-Holds (detach bridge p) (λ e. other_port p other (cc e)))
          | inr f ↦ rw f (Contract-pure Anything Any tt tt)
        ]

  del_others-Holds : (ports : List Text) → Holds (del_others run loads bridge nic ports)
  unfolding del_others
  del_others-Holds [] = Contract-pure Anything Any tt tt
  del_others-Holds (p ∷ rest) = elim (Bool-cases (p == nic)) [
    | inl t ↦ rw t (del_others-Holds rest)
    | inr f ↦ rw f (
        Contract-bind Anything Anything Any (del_interface_from_bridge run loads bridge p) _
          (del_interface_from_bridge-Holds p f) λ done _. del_others-Holds rest)
  ]

  lift-Holds : {A : Type 0} (r : Result A) → Holds (lift r)
  lift-Holds r = record { keeps = λ s h. h; meets = λ s h. Any-result r }

  find-Holds :
      Holds (find run loads (str "Port") (str "external-ids:microstack-function=ext-port" ∷ []))
  unfolding find
  find-Holds =
      Contract-bind Anything Anything Any (query run _) _
        (query-Holds _ (λ e. ground (arith, ap length e))) λ output _. lift-Holds (loads output)

  get_external_ports_on_bridge-Holds : Holds (get_external_ports_on_bridge run loads bridge)
  unfolding get_external_ports_on_bridge
  get_external_ports_on_bridge-Holds =
      Contract-bind Anything Anything Any (find run loads _ _) _ find-Holds λ output _.
        Contract-bind Anything Anything Any
          (lift (column_at (index_of (str "name") output.headings) output.rows)) _ (lift-Holds _)
          λ external_nics _.
            Contract-bind Anything Anything Any (list_bridge_interfaces run bridge) _
              list_bridge_interfaces-Holds
              λ ifaces _. Contract-pure Anything Any (keep_if (has_cell external_nics) ifaces) tt

  attach-Holds :
      (b : Bool) → Holds (if b then pure tt else add_interface_to_bridge run loads bridge nic)
  attach-Holds true = Contract-pure Anything Any tt tt
  attach-Holds false = add_interface_to_bridge-Holds

  ensure_single_nic-Holds : Holds (ensure_single_nic_on_bridge run loads bridge nic)
  unfolding ensure_single_nic_on_bridge
  ensure_single_nic-Holds =
      Contract-bind Anything Anything Any (get_external_ports_on_bridge run loads bridge) _
        get_external_ports_on_bridge-Holds
        λ ports _.
          Contract-bind Anything Anything Any
            (if contains ports nic then pure tt else add_interface_to_bridge run loads bridge nic) _
            (attach-Holds (contains ports nic)) λ done _. del_others-Holds ports

-- Outside a transaction, let a property of the world be kept by every command but the one that
-- detaches the interface from the bridge. `_ensure_single_nic_on_bridge` keeps it, whatever the
-- commands answer and whether or not it raises: it never detaches the interface that it is asked to
-- attach. The client stays as it is.
pub ensure_single_nic_on_bridge-Held :
    {W : Type 0} (run : List Text → W → Outcome × W) (loads : Text → Result Table)
    (bridge nic : Text) (I : W → Type 0) (s : Session W)
    → s.cli.in_transaction ≡ false
    → ((args : List Text) (w : W)
        → args ≢ detach bridge nic
        → I w
        → I (run (vsctl_command s.cli args true none) w).1)
    → I s.world
    → ((ensure_single_nic_on_bridge run loads bridge nic s).1.cli ≡ s.cli)
      × I (ensure_single_nic_on_bridge run loads bridge nic s).1.world
ensure_single_nic_on_bridge-Held run loads bridge nic I s alone keeps i =
    (ensure_single_nic-Holds run loads s.cli alone bridge nic I keeps).keeps s (refl, i)
