-- ===== src/Bridge/Changes/ByMap.antt =====
-- The removed and the added bridges of `resolve_ovs_changes`
-- (openstack_hypervisor/bridge_datapath.py), told by the dicts from physnets to bridges.
use snap_openstack_hyperviso.Base.{
  ◌≡◌, ◌≢◌, refl, sym, ◌∙◌, ◌↔◌, Bool, true, false, not, ◌&&◌, inl, inr, Option, none, some, List,
  [], ◌∷◌, ◌++◌, arith, contains, contains-append, contains-dedup, contains-keep_if, text_eq,
  Bool-cases,
}
use snap_openstack_hyperviso.Base.Dict.{Dict, lookup, values, contains-keys}
use snap_openstack_hyperviso.Base.Text.{Text, truthy, given}
use snap_openstack_hyperviso.Base.Order.{contains-sorted}
use snap_openstack_hyperviso.Bridge.Mapping.{BridgeMapping}
use snap_openstack_hyperviso.Bridge.Changes.{
  physnet_map, rename_of, renames, old_names, new_names, resolve_ovs_changes, all_physnets,
  sorted_diff,
}
use snap_openstack_hyperviso.Bridge.Changes.Renames.{
  IsEnumeration, renames-present, renames-not_new,
}

pub contains-sorted_diff :
    (xs ys zs : List Text) (b : Text)
    → contains (sorted_diff xs ys zs) b
      ≡ (contains xs b && not (contains ys b) && not (contains zs b))
contains-sorted_diff xs ys zs b =
    rw (contains-sorted, contains-keep_if, contains-keep_if, contains-dedup) refl

pub lookup-values :
    (d : Dict Text Text) (p b : Text) → lookup p d ≡ some b → contains (values d) b ≡ true
unfolding lookup values
lookup-values [] p b h = cc
lookup-values ((q, c) ∷ d) p b h = ground (arith, lookup-values d p b)

old_names-append : (r s : List (Text × Text)) → old_names (r ++ s) ≡ old_names r ++ old_names s
unfolding old_names
old_names-append [] s = refl
old_names-append (x ∷ r) s = rw (old_names-append r s)

rename_of-old :
    (b n : Text)
    → truthy b ≡ true
    → truthy n ≡ true
    → b ≢ n
    → contains (old_names (rename_of (some b) (some n))) b ≡ true
unfolding rename_of old_names
rename_of-old b n tb tn d = ground arith

rename_of-not_old :
    (p n : Option Text) (b : Text)
    → (p ≡ some b → given n ≡ false)
    → contains (old_names (rename_of p n)) b ≡ false
unfolding rename_of old_names
rename_of-not_old none n b h = refl
rename_of-not_old (some p) none b h = refl
rename_of-not_old (some p) (some n) b h = ground arith

module _ (prev new : Dict Text Text) where
  renames-old :
      (xs : List Text) (p b n : Text)
      → contains xs p ≡ true
      → lookup p prev ≡ some b
      → lookup p new ≡ some n
      → truthy b ≡ true
      → truthy n ≡ true
      → b ≢ n
      → contains (old_names (renames prev new xs)) b ≡ true
  unfolding renames
  renames-old [] p b n m hp hn tb tn d = cc
  renames-old (x ∷ xs) p b n m hp hn tb tn d =
      rw (old_names-append, contains-append)
        (ground (
          arith,
          rename_of-old b n tb tn d,
          (λ (h : contains xs p ≡ true). renames-old xs p b n h hp hn tb tn d),
        ))

  renames-not_old :
      (xs : List Text) (b : Text)
      → ((q : Text) → lookup q prev ≡ some b → given (lookup q new) ≡ false)
      → contains (old_names (renames prev new xs)) b ≡ false
  unfolding renames old_names
  renames-not_old [] b h = refl
  renames-not_old (x ∷ xs) b h =
      rw
        (
          old_names-append,
          contains-append,
          rename_of-not_old (lookup x prev) (lookup x new) b (h x),
        )
        (renames-not_old xs b h)

-- No physnet of the bridge `b` in the first dict is on a bridge in the second.
abbrev pub Abandoned : Text → Dict Text Text → Dict Text Text → Type 0
Abandoned b from to = (p : Text) → lookup p from ≡ some b → given (lookup p to) ≡ false

abbrev pub LeavesMap : Text → Dict Text Text → Dict Text Text → Type 0
LeavesMap b from to =
    (contains (values from) b ≡ true) × (contains (values to) b ≡ false) × Abandoned b from to

given-some : (o : Option Text) → given o ≡ true → (n : Text) × (o ≡ some n) × (truthy n ≡ true)
given-some none h = cc
given-some (some n) h = (n, refl, h)

all_physnets-keys :
    (prev new : List BridgeMapping) (p b : Text)
    → lookup p (physnet_map prev) ≡ some b
    → contains (all_physnets prev new) p ≡ true
all_physnets-keys prev new p b h =
    rw (contains-dedup, contains-append, contains-keys (physnet_map prev) p, h) refl

and_parts : (a b c : Bool) → (a && not b && not c) ≡ true → (a ≡ true) × (b ≡ false) × (c ≡ false)
and_parts a b c h = ground arith

module _ (enum : List Text → List Text) (visits : IsEnumeration enum)
    (previous new : List BridgeMapping) (b : Text) (named : truthy b ≡ true) where
  abbrev prev_map : Dict Text Text
  prev_map = physnet_map previous

  abbrev new_map : Dict Text Text
  new_map = physnet_map new

  abbrev visited : List Text
  visited = enum (all_physnets previous new)

  not_renamed_old :
      contains (values new_map) b ≡ false
      → contains (old_names (renames prev_map new_map visited)) b ≡ false
      → Abandoned b prev_map new_map
  not_renamed_old away stays p hp = elim (Bool-cases (given (lookup p new_map))) [
    | inr f ↦ f
    | inl g ↦
        let (n, hn, tn) = given-some (lookup p new_map) g in
        let present : contains visited p ≡ true =
          visits (all_physnets previous new) p ∙ all_physnets-keys previous new p b hp in
        let differ : b ≢ n = λ e. cc (lookup-values new_map p n hn, e, away) in
        cc (renames-old prev_map new_map visited p b n present hp hn named tn differ, stays)
  ]

  not_renamed_new :
      contains (values prev_map) b ≡ false
      → contains (new_names (renames prev_map new_map visited)) b ≡ false
      → Abandoned b new_map prev_map
  not_renamed_new away stays p hn = elim (Bool-cases (given (lookup p prev_map))) [
    | inr f ↦ f
    | inl g ↦
        let (n, hp, tn) = given-some (lookup p prev_map) g in
        let present : contains visited p ≡ true =
          visits (all_physnets previous new) p ∙ all_physnets-keys previous new p n hp in
        let differ : n ≢ b = λ e. cc (lookup-values prev_map p n hp, e, away) in
        cc (renames-present prev_map new_map visited p n b present hp hn tn named differ, stays)
  ]

  pub removed_bridges_by_map :
      (contains (resolve_ovs_changes enum previous new).removed_bridges b ≡ true)
      ↔ LeavesMap b (physnet_map previous) (physnet_map new)
  unfolding resolve_ovs_changes
  removed_bridges_by_map = (
    λ h.
        let olds = old_names (renames prev_map new_map visited) in
        let (i, away, stays) =
          and_parts (contains (values prev_map) b) (contains (values new_map) b) (contains olds b)
            (sym (contains-sorted_diff (values prev_map) (values new_map) olds b) ∙ h) in
        (i, away, not_renamed_old away stays),
    λ (i, away, gone).
        contains-sorted_diff (values prev_map) (values new_map)
          (old_names (renames prev_map new_map visited)) b
        ∙ rw (i, away, renames-not_old prev_map new_map visited b gone) refl,
  )

  pub added_bridges_by_map :
      (contains (resolve_ovs_changes enum previous new).added_bridges b ≡ true)
      ↔ LeavesMap b (physnet_map new) (physnet_map previous)
  unfolding resolve_ovs_changes
  added_bridges_by_map = (
    λ h.
        let news = new_names (renames prev_map new_map visited) in
        let (i, away, stays) =
          and_parts (contains (values new_map) b) (contains (values prev_map) b) (contains news b)
            (sym (contains-sorted_diff (values new_map) (values prev_map) news b) ∙ h) in
        (i, away, not_renamed_new away stays),
    λ (i, away, gone).
        contains-sorted_diff (values new_map) (values prev_map)
          (new_names (renames prev_map new_map visited)) b
        ∙ rw (i, away, renames-not_new prev_map new_map visited b gone) refl,
  )
