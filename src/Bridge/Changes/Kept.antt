-- ===== src/Bridge/Changes/Kept.antt =====
-- The bridges of the mappings that are put in place (openstack_hypervisor/bridge_datapath.py) are not
-- among those that are removed.
use mathlib.Core.Bool.{false≢true}
use snap_openstack_hyperviso.Base.{
  ◌≡◌, refl, sym, ◌∙◌, subst, Bool, true, false, ◌||◌, Option, none, some, List, [], ◌∷◌, map, All,
  contains, text_eq, arith, ◌==◌,
}
use snap_openstack_hyperviso.Base.Dict.{Dict, lookup, insert, values, or_default}
use snap_openstack_hyperviso.Base.Text.{Text}
use snap_openstack_hyperviso.Bridge.Mapping.{BridgeMapping}
use snap_openstack_hyperviso.Bridge.Unique.{IsUnique}
use snap_openstack_hyperviso.Bridge.Changes.{
  physnet_map, renames, old_names, sorted_diff, rename_dict_onto, rename_mapping,
  resolve_ovs_changes, update_mappings_from_rename, all_physnets,
}
use snap_openstack_hyperviso.Bridge.Changes.Maps.{physnet_map-All}
use snap_openstack_hyperviso.Bridge.Changes.ByMap.{contains-sorted_diff, lookup-values}
use snap_openstack_hyperviso.Bridge.Changes.Renames.{update_mappings-eq-map}

contains-values-insert :
    (d : Dict Text Text) (k v b : Text)
    → contains (values (insert k v d)) b ≡ true
    → (b == v || contains (values d) b) ≡ true
unfolding insert values
contains-values-insert [] k v b h = ground arith
contains-values-insert ((j, w) ∷ d) k v b h = ground (arith, contains-values-insert d k v b)

-- A name that is put in place of another is an old name.
lookup-rename_dict :
    (r : List (Text × Text)) (d : Dict Text Text) (k old : Text)
    → lookup k (rename_dict_onto d r) ≡ some old
    → (contains (old_names r) old || contains (values d) old) ≡ true
unfolding rename_dict_onto old_names
lookup-rename_dict [] d k old h = lookup-values d k old h
lookup-rename_dict ((o, n) ∷ r) d k old h =
    ground (arith, lookup-rename_dict r (insert n o d) k old h, contains-values-insert d n o old)

||-left : (a b : Bool) → a ≡ true → (a || b) ≡ true
||-left true b h = refl
||-left false b h = absurd (false≢true h)

||-right : (a b : Bool) → b ≡ true → (a || b) ≡ true
||-right true b h = refl
||-right false b h = h

||-end : (a : Bool) → (a || false) ≡ true → a ≡ true
||-end true h = refl
||-end false h = h

module _ (xs ys zs : List Text) where
  not_in_diff :
      (b : Text)
      → (contains ys b || contains zs b) ≡ true
      → contains (sorted_diff xs ys zs) b ≡ false
  not_in_diff b h = contains-sorted_diff xs ys zs b ∙ ground (arith, h)

module _ (previous new : List BridgeMapping) (enum : List Text → List Text) where
  abbrev renamed : List (Text × Text)
  renamed = renames (physnet_map previous) (physnet_map new) (enum (all_physnets previous new))

  renamed-kept :
      (m : BridgeMapping)
      → lookup m.physnet (physnet_map new) ≡ some m.bridge
      → contains
          (resolve_ovs_changes enum previous new).removed_bridges
          (rename_mapping (rename_dict_onto [] renamed) m).bridge
        ≡ false
  unfolding resolve_ovs_changes rename_mapping values
  renamed-kept m h =
      not_in_diff (values (physnet_map previous)) (values (physnet_map new)) (old_names renamed) _
        (kept_name (lookup m.bridge (rename_dict_onto [] renamed)) refl)
    where
      kept_name :
          (found : Option Text)
          → lookup m.bridge (rename_dict_onto [] renamed) ≡ found
          → (contains (values (physnet_map new)) (or_default m.bridge found)
              || contains (old_names renamed) (or_default m.bridge found))
            ≡ true
      kept_name none e = ||-left _ _ (lookup-values (physnet_map new) m.physnet m.bridge h)
      kept_name (some old) e =
          ||-right _ _ (||-end _ (lookup-rename_dict renamed [] m.bridge old e))

  All-kept :
      (ms : List BridgeMapping)
      → All (λ m. lookup m.physnet (physnet_map new) ≡ some m.bridge) ms
      → All
          (λ m. contains (resolve_ovs_changes enum previous new).removed_bridges m.bridge ≡ false)
          (map (rename_mapping (rename_dict_onto [] renamed)) ms)
  All-kept [] h = tt
  All-kept (m ∷ ms) (h, hs) = (renamed-kept m h, All-kept ms hs)

  -- No bridge of the mappings that are put in place is removed: the mappings name each physnet and each
  -- bridge once, and the bridges are those that they have once the renames are undone.
  pub removed_bridges-kept :
      IsUnique new
      → All
          (λ m. contains (resolve_ovs_changes enum previous new).removed_bridges m.bridge ≡ false)
          (update_mappings_from_rename new (resolve_ovs_changes enum previous new).renamed_bridges)
  unfolding resolve_ovs_changes
  removed_bridges-kept h =
      subst
        (All
          (λ m. contains (resolve_ovs_changes enum previous new).removed_bridges m.bridge ≡ false))
        (sym (update_mappings-eq-map new renamed)) (All-kept new (physnet_map-All new h.physnets))
