-- ===== src/Bridge/Detect/Contract.antt =====
-- What `detect_current_mappings` of openstack_hypervisor/bridge_datapath.py may return, raise and
-- change.
use snap_openstack_hyperviso.Base.{
  ◌≡◌, ◌≢◌, refl, true, not, Option, none, some, List, [], ◌∷◌, is_empty, keep_if, ◌==◌, ==_of_eq,
  ==_of_ne, contains, text_eq, All, All-append, Distinct, Distinct-snoc, Bool-cases, inl, inr, Exc,
  ovs_command_error, ovs_timeout_error,
}
use snap_openstack_hyperviso.Base.Dict.{Dict, lookup}
use snap_openstack_hyperviso.Base.Text.{Text, truthy}
use snap_openstack_hyperviso.Base.Effects.{
  Exec, Meets, Contract, Contract-pure, Contract-raise, Contract-bind, Contract-catch,
  Contract-weaken,
}
use snap_openstack_hyperviso.Ovs.{OvsCli, Outcome, Session}
use snap_openstack_hyperviso.Ovs.Queries.{
  list_bridges, list_bridge_interfaces, get_bridge_physnet_map,
}
use snap_openstack_hyperviso.Ovs.ReadOnly.{
  IsOvsFailure, IsTimeout, Anything, Client, list_bridges-Contract, list_bridge_interfaces-Contract,
  get_bridge_physnet_map-Contract,
}
use snap_openstack_hyperviso.Bridge.Mapping.{BridgeMapping}
use snap_openstack_hyperviso.Bridge.Detect.{
  mapping_eq, integration_bridge, add_once, mapping_of, add_interfaces, add_bridge_mappings,
  attempt, none_on_command_error, detect_mapped, detect_bridge, detect_bridges, detect_listed,
  detect_current_mappings,
}

abbrev IsOther : Text → Option Text → Type 0
IsOther bridge none = Unit
IsOther bridge (some i) = (truthy i ≡ true) × (i ≢ bridge)

-- The mapping is of a bridge other than br-int, whose physnet the dict gives and is not empty; its
-- interface, if it has one, is not empty and is not the bridge's own.
pub record IsDetected (physnet_map : Dict Text Text) (m : BridgeMapping) : Type 0 where
  pub external : m.bridge ≢ integration_bridge
  pub physnet : lookup m.bridge physnet_map ≡ some m.physnet
  pub physnet_named : truthy m.physnet ≡ true
  pub interface : IsOther m.bridge m.interface

pub record AreDetected (physnet_map : Dict Text Text) (ms : List BridgeMapping) : Type 0 where
  pub each : All (IsDetected physnet_map) ms
  pub distinct : Distinct ms

module _ (pm : Dict Text Text) where
  add_once-AreDetected :
      (ms : List BridgeMapping) (m : BridgeMapping)
      → AreDetected pm ms
      → IsDetected pm m
      → AreDetected pm (add_once ms m)
  unfolding add_once
  add_once-AreDetected ms m v h = elim (Bool-cases (contains ms m)) [
    | inl old ↦ rw old v
    | inr new ↦ rw new (record {
      each = All-append (IsDetected pm) ms (m ∷ []) v.each (h, tt);
      distinct = Distinct-snoc ms m v.distinct new;
    })
  ]

  module _ (bridge physnet : Text) (external : bridge ≢ integration_bridge)
      (mapped : lookup bridge pm ≡ some physnet) (named : truthy physnet ≡ true) where
    none-IsDetected : IsDetected pm (mapping_of bridge physnet none)
    none-IsDetected = record {
      external = external;
      physnet = mapped;
      physnet_named = named;
      interface = tt;
    }

    some-IsDetected :
        (i : Text)
        → truthy i ≡ true
        → i ≢ bridge
        → IsDetected pm (mapping_of bridge physnet (some i))
    some-IsDetected i t d = record {
      external = external;
      physnet = mapped;
      physnet_named = named;
      interface = (t, d);
    }

    add_interfaces-AreDetected :
        (ms : List BridgeMapping) (is : List Text)
        → AreDetected pm ms
        → All (λ i. i ≢ bridge) is
        → AreDetected pm (add_interfaces bridge physnet ms is)
    unfolding add_interfaces
    add_interfaces-AreDetected ms [] v h = v
    add_interfaces-AreDetected ms (i ∷ rest) v (h, hs) = elim (Bool-cases (truthy i)) [
      | inl t ↦ rw t (
          add_interfaces-AreDetected (add_once ms (mapping_of bridge physnet (some i))) rest
            (add_once-AreDetected ms _ v (some-IsDetected i t h)) hs)
      | inr f ↦ rw f (add_interfaces-AreDetected ms rest v hs)
    ]

    keep_others : (is : List Text) → All (λ i. i ≢ bridge) (keep_if (λ i. not (i == bridge)) is)
    unfolding keep_if
    keep_others [] = tt
    keep_others (i ∷ rest) = elim (text_eq.dec i bridge) [
      | yes e ↦ rw (==_of_eq i bridge e) (keep_others rest)
      | no d ↦ rw (==_of_ne i bridge d) (d, keep_others rest)
    ]

    add_bridge_mappings-AreDetected :
        (ms : List BridgeMapping) (listed : Option (List Text))
        → AreDetected pm ms
        → AreDetected pm (add_bridge_mappings bridge physnet ms listed)
    unfolding add_bridge_mappings
    add_bridge_mappings-AreDetected ms none v = add_once-AreDetected ms _ v none-IsDetected
    add_bridge_mappings-AreDetected ms (some listed) v =
        elim (Bool-cases (is_empty (keep_if (λ i. not (i == bridge)) listed))) [
          | inl t ↦ rw t (add_once-AreDetected ms _ v none-IsDetected)
          | inr f ↦ rw f (add_interfaces-AreDetected ms _ v (keep_others listed))
        ]

none-Contract :
    {W A : Type 0} (c : OvsCli) (e : Exc)
    → IsOvsFailure e
    → Contract (Client {W = W} c) (Anything {A = Option A}) IsTimeout (none_on_command_error e)
none-Contract c (ovs_command_error m) h = Contract-pure Anything IsTimeout none tt
none-Contract c (ovs_timeout_error m) h = Contract-raise Anything IsTimeout (ovs_timeout_error m) tt
none-Contract c _ h = absurd h

attempt-Contract :
    {W A : Type 0} {Q : A → Type 0} (c : OvsCli) (m : Exec (Session W) A)
    → Contract (Client c) Q IsOvsFailure m
    → Contract (Client c) (Anything {A = Option A}) IsTimeout (attempt m)
attempt-Contract {Q} c m h =
    Contract-catch Anything IsTimeout IsOvsFailure _ none_on_command_error
      (Contract-bind Q Anything IsOvsFailure m _ h
        λ a _. Contract-pure Anything IsOvsFailure (some a) tt)
      (none-Contract c)

abbrev pub Found : List BridgeMapping → Type 0
Found ms = (pm : Dict Text Text) × AreDetected pm ms

module _ {W : Type 0} (run : List Text → W → Outcome × W) (c : OvsCli) where
  detect_mapped-Contract :
      (pm : Dict Text Text) (ms : List BridgeMapping) (bridge : Text) (o : Option Text)
      → AreDetected pm ms
      → bridge ≢ integration_bridge
      → lookup bridge pm ≡ o
      → Contract (Client c) (AreDetected pm) IsTimeout (detect_mapped run ms bridge o)
  detect_mapped-Contract pm ms bridge none v d e = Contract-pure (AreDetected pm) IsTimeout ms v
  detect_mapped-Contract pm ms bridge (some physnet) v d e = elim (Bool-cases (truthy physnet)) [
    | inr f ↦ rw f (Contract-pure (AreDetected pm) IsTimeout ms v)
    | inl t ↦ rw t (
        Contract-bind Anything (AreDetected pm) IsTimeout
          (attempt (list_bridge_interfaces run bridge)) _
          (attempt-Contract c (list_bridge_interfaces run bridge)
            (list_bridge_interfaces-Contract run c bridge))
          λ listed _.
            Contract-pure (AreDetected pm) IsTimeout (add_bridge_mappings bridge physnet ms listed)
              (add_bridge_mappings-AreDetected pm bridge physnet d e t ms listed v))
  ]

  detect_bridge-Contract :
      (pm : Dict Text Text) (ms : List BridgeMapping) (bridge : Text)
      → AreDetected pm ms
      → Contract (Client c) (AreDetected pm) IsTimeout (detect_bridge run pm ms bridge)
  unfolding detect_bridge
  detect_bridge-Contract pm ms bridge v = elim (text_eq.dec bridge integration_bridge) [
    | yes e ↦
        rw (==_of_eq bridge integration_bridge e) (Contract-pure (AreDetected pm) IsTimeout ms v)
    | no d ↦
        rw (==_of_ne bridge integration_bridge d)
          (detect_mapped-Contract pm ms bridge (lookup bridge pm) v d refl)
  ]

  detect_bridges-Contract :
      (pm : Dict Text Text) (ms : List BridgeMapping) (bridges : List Text)
      → AreDetected pm ms
      → Contract (Client c) (AreDetected pm) IsTimeout (detect_bridges run pm ms bridges)
  unfolding detect_bridges
  detect_bridges-Contract pm ms [] v = Contract-pure (AreDetected pm) IsTimeout ms v
  detect_bridges-Contract pm ms (b ∷ rest) v =
      Contract-bind (AreDetected pm) (AreDetected pm) IsTimeout (detect_bridge run pm ms b) _
        (detect_bridge-Contract pm ms b v) λ ms' v'. detect_bridges-Contract pm ms' rest v'

  detect_listed-Contract :
      (o : Option (List Text)) → Contract (Client c) Found IsTimeout (detect_listed run o)
  detect_listed-Contract none =
      Contract-pure Found IsTimeout [] ([], record { each = tt; distinct = tt })
  detect_listed-Contract (some []) =
      Contract-pure Found IsTimeout [] ([], record { each = tt; distinct = tt })
  detect_listed-Contract (some (b ∷ bs)) =
      Contract-bind Anything Found IsTimeout (get_bridge_physnet_map run) _
        (get_bridge_physnet_map-Contract run c)
        λ pm _.
          Contract-weaken (AreDetected pm) IsTimeout Found (detect_bridges run pm [] (b ∷ bs))
            (λ ms v. (pm, v))
            (detect_bridges-Contract pm [] (b ∷ bs) (record { each = tt; distinct = tt }))

  detect-Contract : Contract (Client c) Found IsTimeout (detect_current_mappings run)
  unfolding detect_current_mappings
  detect-Contract =
      Contract-bind Anything Found IsTimeout (attempt (list_bridges run)) _
        (attempt-Contract c (list_bridges run) (list_bridges-Contract run c))
        λ listed _. detect_listed-Contract listed

-- Whatever ovs-vsctl does, the mappings that are detected are pairwise different, each is of a
-- bridge other than br-int, one dict gives the physnets of all their bridges, none of which is
-- empty, and no interface is empty or named like its bridge. The only failure that escapes is a
-- time-out, and the client is left as it was.
pub detect_current_mappings-AreDetected :
    {W : Type 0} (run : List Text → W → Outcome × W) (s : Session W)
    → Meets Found IsTimeout (detect_current_mappings run s).0
      × ((detect_current_mappings run s).1.cli ≡ s.cli)
detect_current_mappings-AreDetected run s =
    let contract = detect-Contract run s.cli in (contract.meets s refl, contract.keeps s refl)
