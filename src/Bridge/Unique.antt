-- ===== src/Bridge/Unique.antt =====
-- The names in what `resolve_bridge_mappings` returns (openstack_hypervisor/bridge_datapath.py).
use snap_openstack_hyperviso.Base.{
  inl, inr, subst, ok-injective, Option, ◌≡◌, refl, false, ◌&&◌, none, some, List, [], ◌∷◌, ◌++◌,
  arith, contains, text_eq, Distinct, Distinct-snoc, ok, ◌>>=◌, >>=-eq-ok, Bool-cases,
}
use snap_openstack_hyperviso.Base.Text.{Text, split, strip, truthy}
use snap_openstack_hyperviso.Bridge.Mapping.{
  BridgeMapping, Seen, nothing_seen, parse_entry, seen_interface, append_interface, add_mapping,
  add_entry, add_entries, appended, resolve_bridge_mappings,
}

unfoldable pub physnets : List BridgeMapping → List Text
physnets [] = []
physnets (m ∷ ms) = m.physnet ∷ physnets ms

unfoldable pub bridges : List BridgeMapping → List Text
bridges [] = []
bridges (m ∷ ms) = m.bridge ∷ bridges ms

-- The interfaces that are given.
unfoldable pub interfaces : List BridgeMapping → List Text
interfaces [] = []
interfaces (m ∷ ms) =
    let rest = interfaces ms in elim m.interface [ none ↦ rest | some i ↦ i ∷ rest ]

pub record IsUnique (ms : List BridgeMapping) : Type 0 where
  pub physnets : Distinct (physnets ms)
  pub bridges : Distinct (bridges ms)
  pub interfaces : Distinct (interfaces ms)

pub physnets-snoc :
    (ms : List BridgeMapping) (m : BridgeMapping)
    → physnets (ms ++ m ∷ []) ≡ physnets ms ++ m.physnet ∷ []
unfolding physnets
physnets-snoc [] m = refl
physnets-snoc (x ∷ ms) m = rw (physnets-snoc ms m)

pub bridges-snoc :
    (ms : List BridgeMapping) (m : BridgeMapping)
    → bridges (ms ++ m ∷ []) ≡ bridges ms ++ m.bridge ∷ []
unfolding bridges
bridges-snoc [] m = refl
bridges-snoc (x ∷ ms) m = rw (bridges-snoc ms m)

pub interfaces-snoc :
    (ms : List BridgeMapping) (m : BridgeMapping)
    → interfaces (ms ++ m ∷ []) ≡ append_interface (interfaces ms) m.interface
unfolding interfaces
interfaces-snoc [] m = ground arith
interfaces-snoc (x ∷ ms) m = ground (arith, interfaces-snoc ms m)

-- The lists of the loop are those of its mappings, and hold no value twice.
record IsTracked (s : Seen) : Type 0 where
  at_physnets : s.physnets ≡ physnets s.mappings
  at_bridges : s.bridges ≡ bridges s.mappings
  at_interfaces : s.interfaces ≡ interfaces s.mappings
  physnets_distinct : Distinct s.physnets
  bridges_distinct : Distinct s.bridges
  interfaces_distinct : Distinct s.interfaces

append_interface-Distinct :
    (xs : List Text) (o : Option Text)
    → Distinct xs
    → seen_interface xs o ≡ false
    → Distinct (append_interface xs o)
append_interface-Distinct xs none d h = d
append_interface-Distinct xs (some i) d h = Distinct-snoc xs i d h

-- A round that raises nothing passed its three guards.
pub add_mapping-eq-ok :
    (s : Seen) (m : BridgeMapping) {t : Seen}
    → add_mapping s m ≡ ok t
    → (contains s.physnets m.physnet ≡ false)
      × (contains s.bridges m.bridge ≡ false)
      × (seen_interface s.interfaces m.interface ≡ false)
      × (t ≡ appended s m)
unfolding add_mapping
add_mapping-eq-ok s m h = ground arith

appended-IsTracked :
    (s : Seen) (m : BridgeMapping)
    → IsTracked s
    → contains s.physnets m.physnet ≡ false
    → contains s.bridges m.bridge ≡ false
    → seen_interface s.interfaces m.interface ≡ false
    → IsTracked (appended s m)
appended-IsTracked s m v hp hb hi = record {
  at_physnets = rw physnets-snoc (rw v.at_physnets);
  at_bridges = rw bridges-snoc (rw v.at_bridges);
  at_interfaces = rw interfaces-snoc (rw v.at_interfaces);
  physnets_distinct = Distinct-snoc s.physnets m.physnet v.physnets_distinct hp;
  bridges_distinct = Distinct-snoc s.bridges m.bridge v.bridges_distinct hb;
  interfaces_distinct = append_interface-Distinct s.interfaces m.interface v.interfaces_distinct hi;
}

add_mapping-IsTracked :
    (s : Seen) (m : BridgeMapping) {t : Seen} → IsTracked s → add_mapping s m ≡ ok t → IsTracked t
add_mapping-IsTracked s m v h =
    let (hp, hb, hi, e) = add_mapping-eq-ok s m h in rw e (appended-IsTracked s m v hp hb hi)

add_entry-IsTracked :
    (s : Seen) (e : Text) {t : Seen} → IsTracked s → add_entry s e ≡ ok t → IsTracked t
unfolding add_entry
add_entry-IsTracked s [] v h = subst IsTracked (ok-injective h) v
add_entry-IsTracked s (c ∷ e) v h =
    let (m, _, g) = >>=-eq-ok (parse_entry (split b':' (c ∷ e))) (add_mapping s) h in
    add_mapping-IsTracked s m v g

add_entries-IsTracked :
    (s : Seen) (es : List Text) {t : Seen} → IsTracked s → add_entries s es ≡ ok t → IsTracked t
unfolding add_entries
add_entries-IsTracked s [] v h = subst IsTracked (ok-injective h) v
add_entries-IsTracked s (e ∷ es) v h =
    let (s', p, g) = >>=-eq-ok (add_entry s e) (λ s'. add_entries s' es) h in
    add_entries-IsTracked s' es (add_entry-IsTracked s e v p) g

IsTracked-IsUnique : {s : Seen} → IsTracked s → IsUnique s.mappings
IsTracked-IsUnique v = record {
  physnets = subst Distinct v.at_physnets v.physnets_distinct;
  bridges = subst Distinct v.at_bridges v.bridges_distinct;
  interfaces = subst Distinct v.at_interfaces v.interfaces_distinct;
}

nothing_seen-IsTracked : IsTracked nothing_seen
unfolding physnets bridges interfaces
nothing_seen-IsTracked = record {
  at_physnets = refl;
  at_bridges = refl;
  at_interfaces = refl;
  physnets_distinct = tt;
  bridges_distinct = tt;
  interfaces_distinct = tt;
}

entries-IsUnique :
    (es : List Text) {ms : List BridgeMapping}
    → (do s ← add_entries nothing_seen es; ok s.mappings) ≡ ok ms
    → IsUnique ms
entries-IsUnique es h =
    let (s, p, q) = >>=-eq-ok (add_entries nothing_seen es) (λ s. ok s.mappings) h in
    subst IsUnique (ok-injective q)
      (IsTracked-IsUnique (add_entries-IsTracked nothing_seen es nothing_seen-IsTracked p))

short-IsUnique : (m : BridgeMapping) → IsUnique (m ∷ [])
unfolding physnets bridges interfaces
short-IsUnique m = record { physnets = (refl, tt); bridges = (refl, tt); interfaces = ground arith }

nil-IsUnique : IsUnique []
unfolding physnets bridges interfaces
nil-IsUnique = record { physnets = tt; bridges = tt; interfaces = tt }

-- Whatever the four options are, the mappings that `resolve_bridge_mappings` returns name no
-- physnet, no bridge and no interface twice.
pub resolve_bridge_mappings-IsUnique :
    (external_bridge physnet_name external_nic bridge_mapping : Text) {ms : List BridgeMapping}
    → resolve_bridge_mappings external_bridge physnet_name external_nic bridge_mapping ≡ ok ms
    → IsUnique ms
unfolding resolve_bridge_mappings
resolve_bridge_mappings-IsUnique eb pn en [] h = elim (Bool-cases (truthy eb && truthy pn)) [
  | inl t ↦ subst IsUnique (ok-injective (rw t at h)) (short-IsUnique _)
  | inr f ↦ subst IsUnique (ok-injective (rw f at h)) nil-IsUnique
]
resolve_bridge_mappings-IsUnique eb pn en (c ∷ s) h =
    entries-IsUnique (split b' ' (strip (c ∷ s))) h
