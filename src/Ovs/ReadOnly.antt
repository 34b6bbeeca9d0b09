-- ===== src/Ovs/ReadOnly.antt =====
-- What the queries of `OVSCli` change and raise (openstack_hypervisor/bridge_datapath.py).
use snap_openstack_hyperviso.Base.{
  ◌≡◌, refl, sym, subst, fun_ext, ◌&&◌, none, Bool, true, false, List, [], ◌∷◌, if◌then◌else◌,
  text_eq, Distinct, dedup, dedup-Distinct, keep_if-Distinct, inter, Bool-cases, inl, inr, Exc,
  ovs_command_error, ovs_timeout_error,
}
use snap_openstack_hyperviso.Base.Text.{Text, has_part, str}
use snap_openstack_hyperviso.Base.Order.{sorted, sorted-Distinct}
use snap_openstack_hyperviso.Base.Effects.{
  Contract, Contract-pure, Contract-raise, Contract-bind, Contract-catch, Meets,
}
use snap_openstack_hyperviso.Ovs.{
  OvsCli, Outcome, completed, binary_not_found, exited, Session, vsctl_outcome, error_details,
  vsctl_command, execute_vsctl, vsctl,
}
use snap_openstack_hyperviso.Ovs.Queries.{
  query, list_bridges, actual_interfaces, list_bridge_interfaces, get_bridge_physnet_map,
  or_on_command_error, stripped_lines, filled_lines,
}

abbrev pub IsOvsFailure : Exc → Type 0
IsOvsFailure (ovs_command_error m) = Unit
IsOvsFailure (ovs_timeout_error m) = Unit
IsOvsFailure c = ⊥

abbrev pub IsTimeout : Exc → Type 0
IsTimeout (ovs_timeout_error m) = Unit
IsTimeout c = ⊥

abbrev pub Anything : {A : Type 0} → A → Type 0
Anything a = Unit

pub vsctl_outcome-Meets : (o : Outcome) → Meets Anything IsOvsFailure (vsctl_outcome o)
unfolding vsctl_outcome
vsctl_outcome-Meets (completed stdout) = tt
vsctl_outcome-Meets binary_not_found = tt
vsctl_outcome-Meets (exited code stdout stderr) =
    elim (Bool-cases (has_part (str "Alarm clock") (error_details code stdout stderr))) [
      | inl t ↦ rw t tt
      | inr f ↦ rw f tt
    ]

-- The client is `c`.
abbrev pub Client : {W : Type 0} → OvsCli → Session W → Type 0
Client c s = s.cli ≡ c

if-and-false : {A : Type 0} (b : Bool) (x y : A) → (if b && false then x else y) ≡ y
if-and-false true x y = refl
if-and-false false x y = refl

-- A query runs its command at once, inside a transaction too.
pub query-eq-execute_vsctl :
    {W : Type 0} (run : List Text → W → Outcome × W) (args : List Text)
    → query run args ≡ execute_vsctl run args true none
unfolding query vsctl
query-eq-execute_vsctl run args = fun_ext λ s. if-and-false s.cli.in_transaction _ _

module _ {W : Type 0} (run : List Text → W → Outcome × W) (c : OvsCli) where
  execute_vsctl-Contract :
      (args : List Text)
      → Contract (Client c) Anything IsOvsFailure (execute_vsctl run args true none)
  unfolding execute_vsctl
  execute_vsctl-Contract args = record {
    keeps = λ s h. h;
    meets = λ s h. vsctl_outcome-Meets (run (vsctl_command s.cli args true none) s.world).0;
  }

  query-Contract : (args : List Text) → Contract (Client c) Anything IsOvsFailure (query run args)
  query-Contract args =
      subst (Contract (Client c) Anything IsOvsFailure) (sym (query-eq-execute_vsctl run args))
        (execute_vsctl-Contract args)

  pub list_bridges-Contract : Contract (Client c) Distinct IsOvsFailure (list_bridges run)
  unfolding list_bridges
  list_bridges-Contract =
      Contract-bind Anything Distinct IsOvsFailure (query run (str "list-br" ∷ [])) _
        (query-Contract _)
        λ output _.
          Contract-pure Distinct IsOvsFailure (sorted (dedup (filled_lines output)))
            (sorted-Distinct (dedup (filled_lines output)) (dedup-Distinct (filled_lines output)))

  actual_interfaces-Contract :
      (ifaces : List Text)
      → Contract (Client c) Distinct IsOvsFailure (actual_interfaces run ifaces)
  unfolding actual_interfaces
  actual_interfaces-Contract [] = Contract-pure Distinct IsOvsFailure [] tt
  actual_interfaces-Contract (i ∷ rest) =
      Contract-bind Anything Distinct IsOvsFailure (query run _) _ (query-Contract _) λ actual _.
        Contract-pure Distinct IsOvsFailure (sorted (common actual)) (
          sorted-Distinct (common actual)
            (keep_if-Distinct _ (dedup (i ∷ rest)) (dedup-Distinct (i ∷ rest))))
    where
      common : Text → List Text
      common actual = inter (dedup (i ∷ rest)) (dedup (stripped_lines actual))

  pub list_bridge_interfaces-Contract :
      (bridge : Text)
      → Contract (Client c) Distinct IsOvsFailure (list_bridge_interfaces run bridge)
  unfolding list_bridge_interfaces
  list_bridge_interfaces-Contract bridge =
      Contract-bind Anything Distinct IsOvsFailure (query run _) _ (query-Contract _)
        λ output _. actual_interfaces-Contract (stripped_lines output)

  -- A failure that is not a time-out is caught.
  pub or_on_command_error-Contract :
      {A : Type 0} (default : A) (e : Exc)
      → IsOvsFailure e
      → Contract (Client c) Anything IsTimeout (or_on_command_error {W = W} default e)
  or_on_command_error-Contract default (ovs_command_error m) h =
      Contract-pure Anything IsTimeout default tt
  or_on_command_error-Contract default (ovs_timeout_error m) h =
      Contract-raise Anything IsTimeout (ovs_timeout_error m) tt
  or_on_command_error-Contract default _ h = absurd h

  pub get_bridge_physnet_map-Contract :
      Contract (Client c) Anything IsTimeout (get_bridge_physnet_map run)
  unfolding get_bridge_physnet_map
  get_bridge_physnet_map-Contract =
      Contract-catch Anything IsTimeout IsOvsFailure _ _
        (Contract-bind Anything Anything IsOvsFailure (query run _) _ (query-Contract _)
          λ raw _. Contract-pure Anything IsOvsFailure _ tt)
        (or_on_command_error-Contract [])
