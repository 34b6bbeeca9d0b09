-- ===== src/Bridge/Changes/Removed.antt =====
-- The removed and the added bridges of `resolve_ovs_changes`
-- (openstack_hypervisor/bridge_datapath.py), told by the mappings.
use snap_openstack_hyperviso.Base.{
  ◌≡◌, ◌↔◌, refl, sym, ap, ◌∙◌, Bool, true, false, List, [], ◌∷◌, contains, text_eq, Distinct, All,
  Bool-cases, inl, inr, Option, none, some, ◌==◌, arith, ◌||◌,
}
use snap_openstack_hyperviso.Base.Dict.{
  Dict, lookup, keys, values, insert, insert-Distinct, contains-keys,
}
use snap_openstack_hyperviso.Base.Text.{Text, truthy, given}
use snap_openstack_hyperviso.Bridge.Mapping.{BridgeMapping}
use snap_openstack_hyperviso.Bridge.Unique.{physnets}
use snap_openstack_hyperviso.Bridge.Changes.{physnet_map_onto, physnet_map, resolve_ovs_changes}
use snap_openstack_hyperviso.Bridge.Changes.Maps.{Names, physnet_map-Names, physnet_map-All}
use snap_openstack_hyperviso.Bridge.Changes.Renames.{IsEnumeration}
use snap_openstack_hyperviso.Bridge.Changes.ByMap.{
  LeavesMap, lookup-values, removed_bridges_by_map, added_bridges_by_map,
}

-- The bridge is in the first mappings and not in the second, and no physnet that is on it in the
-- first is on a bridge with a name in the second.
pub record IsDropped (b : Text) (from to : List BridgeMapping) : Type 0 where
  pub listed : (p : Text) × Names p b from
  pub not_listed : (p : Text) → ¬ Names p b to
  pub abandoned : (p c : Text) → Names p b from → Names p c to → truthy c ≡ false

Names-lookup-All :
    (d : Dict Text Text) (ms : List BridgeMapping) (p b : Text)
    → All (λ m. lookup m.physnet d ≡ some m.bridge) ms
    → Names p b ms
    → lookup p d ≡ some b
Names-lookup-All d [] p b h n = absurd n
Names-lookup-All d (m ∷ ms) p b (h, hs) (inl (e, f)) = sym (ap (λ x. lookup x d) e) ∙ h ∙ ap some f
Names-lookup-All d (m ∷ ms) p b (h, hs) (inr n) = Names-lookup-All d ms p b hs n

-- With one bridge for each physnet the dict has every mapping.
Names-physnet_map :
    (ms : List BridgeMapping) (p b : Text)
    → Distinct (physnets ms)
    → Names p b ms
    → lookup p (physnet_map ms) ≡ some b
Names-physnet_map ms p b u n = Names-lookup-All (physnet_map ms) ms p b (physnet_map-All ms u) n

or_right : (a b : Bool) → a ≡ false → (a || b) ≡ true → b ≡ true
or_right a b f h = ground (arith, f, h)

values-lookup :
    (d : Dict Text Text) (b : Text)
    → Distinct (keys d)
    → contains (values d) b ≡ true
    → (p : Text) × (lookup p d ≡ some b)
unfolding lookup values keys
values-lookup [] b u h = cc
values-lookup ((q, c) ∷ d) b (fresh, u) h = elim (Bool-cases (b == c)) [
  | inl t ↦ (q, ground (arith, t))
  | inr f ↦
      let (p, e) = values-lookup d b u (or_right (b == c) _ f h) in
      (p, ground (arith, e, fresh, contains-keys d p))
]

physnet_map_onto-Distinct :
    (d : Dict Text Text) (ms : List BridgeMapping)
    → Distinct (keys d)
    → Distinct (keys (physnet_map_onto d ms))
unfolding physnet_map_onto
physnet_map_onto-Distinct d [] u = u
physnet_map_onto-Distinct d (m ∷ ms) u =
    physnet_map_onto-Distinct (insert m.physnet m.bridge d) ms
      (insert-Distinct m.physnet m.bridge d u)

physnet_map-values :
    (ms : List BridgeMapping) (b : Text)
    → contains (values (physnet_map ms)) b ≡ true
    → (p : Text) × Names p b ms
unfolding physnet_map keys
physnet_map-values ms b h =
    let (p, e) = values-lookup (physnet_map ms) b (physnet_map_onto-Distinct [] ms tt) h in
    (p, physnet_map-Names ms p b e)

module _ (from to : List BridgeMapping) (from_distinct : Distinct (physnets from))
    (to_distinct : Distinct (physnets to)) (b : Text) where
  LeavesMap-IsDropped : LeavesMap b (physnet_map from) (physnet_map to) → IsDropped b from to
  LeavesMap-IsDropped (i, away, gone) = record {
    listed = physnet_map-values from b i;
    not_listed = λ p n.
        cc (lookup-values (physnet_map to) p b (Names-physnet_map to p b to_distinct n), away);
    abandoned = λ p c n k.
        ap given (sym (Names-physnet_map to p c to_distinct k))
        ∙ gone p (Names-physnet_map from p b from_distinct n);
  }

  IsDropped-LeavesMap : IsDropped b from to → LeavesMap b (physnet_map from) (physnet_map to)
  IsDropped-LeavesMap dropped = (
    lookup-values (physnet_map from) dropped.listed.0 b
        (Names-physnet_map from dropped.listed.0 b from_distinct dropped.listed.1),
    absent,
    λ p h. unnamed p (physnet_map-Names from p b h) (lookup p (physnet_map to)) refl,
  )
    where
      absent : contains (values (physnet_map to)) b ≡ false
      absent = elim (Bool-cases (contains (values (physnet_map to)) b)) [
        | inl t ↦ let (p, n) = physnet_map-values to b t in absurd (dropped.not_listed p n)
        | inr f ↦ f
      ]

      unnamed :
          (p : Text)
          → Names p b from
          → (o : Option Text) → lookup p (physnet_map to) ≡ o
          → given o ≡ false
      unnamed p n none e = refl
      unnamed p n (some c) e = dropped.abandoned p c n (physnet_map-Names to p c e)

module _ (enum : List Text → List Text) (visits : IsEnumeration enum)
    (previous new : List BridgeMapping) (before : Distinct (physnets previous))
    (after : Distinct (physnets new)) (b : Text) (named : truthy b ≡ true) where
  -- Let `enum` visit exactly the members of a set, and let both lists of mappings give each physnet
  -- one bridge. A bridge with a name is listed as removed exactly when it is in the previous
  -- mappings and not in the new ones, and no physnet that was on it is on a bridge with a name in
  -- the new ones.
  pub removed_bridges_iff :
      (contains (resolve_ovs_changes enum previous new).removed_bridges b ≡ true)
      ↔ IsDropped b previous new
  removed_bridges_iff =
      let (there, back) = removed_bridges_by_map enum visits previous new b named in
      (
        λ h. LeavesMap-IsDropped previous new before after b (there h),
        λ d. back (IsDropped-LeavesMap previous new before after b d),
      )

  -- Let `enum` visit exactly the members of a set, and let both lists of mappings give each physnet
  -- one bridge. A bridge with a name is listed as added exactly when it is in the new mappings and
  -- not in the previous ones, and no physnet that is on it in the new ones was on a bridge with a
  -- name.
  pub added_bridges_iff :
      (contains (resolve_ovs_changes enum previous new).added_bridges b ≡ true)
      ↔ IsDropped b new previous
  added_bridges_iff =
      let (there, back) = added_bridges_by_map enum visits previous new b named in
      (
        λ h. LeavesMap-IsDropped new previous after before b (there h),
        λ d. back (IsDropped-LeavesMap new previous after before b d),
      )
