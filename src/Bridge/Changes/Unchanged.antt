-- ===== src/Bridge/Changes/Unchanged.antt =====
-- `resolve_ovs_changes` of openstack_hypervisor/bridge_datapath.py on a configuration that is in
-- place already.
use snap_openstack_hyperviso.Base.{
  ◌≡◌, refl, true, Option, none, some, List, [], ◌∷◌, arith, contains, contains-dedup, text_eq,
  keep_if, dedup, diff,
}
use snap_openstack_hyperviso.Base.Dict.{Dict, lookup}
use snap_openstack_hyperviso.Base.Text.{Text}
use snap_openstack_hyperviso.Base.Order.{sorted}
use snap_openstack_hyperviso.Bridge.Mapping.{BridgeMapping}
use snap_openstack_hyperviso.Bridge.Changes.{
  InterfaceChanges, no_changes, rename_of, renames, new_names, old_names, interface_change,
  interface_changes_onto, interfaces_of, resolve_ovs_changes, physnet_map, all_physnets,
  sorted_diff,
}

diff-eq-nil :
    (xs ys : List Text)
    → ((a : Text) → contains xs a ≡ true → contains ys a ≡ true)
    → diff xs ys ≡ []
unfolding keep_if
diff-eq-nil [] ys h = refl
diff-eq-nil (x ∷ xs) ys h = ground (arith, h x, diff-eq-nil xs ys (λ a m. h a (ground arith)))

diff_self : (xs : List Text) → diff xs xs ≡ []
diff_self xs = diff-eq-nil xs xs (λ a h. h)

sorted_diff_self : (xs : List Text) → sorted_diff xs xs [] ≡ []
unfolding sorted keep_if
sorted_diff_self xs = rw (diff-eq-nil (dedup xs) xs (λ a h. rw contains-dedup at h))

rename_of_self : (o : Option Text) → rename_of o o ≡ []
unfolding rename_of
rename_of_self none = refl
rename_of_self (some p) = ground arith

renames_self : (d : Dict Text Text) (physnets : List Text) → renames d d physnets ≡ []
unfolding renames
renames_self d [] = refl
renames_self d (p ∷ ps) = rw (rename_of_self (lookup p d)) (renames_self d ps)

module _ (ifaces : Dict Text (List Text)) where
  interface_change_self :
      (o : Option Text) (c : Dict Text InterfaceChanges) → interface_change ifaces ifaces o o c ≡ c
  unfolding interface_change
  interface_change_self o c = rw (diff_self (interfaces_of ifaces o)) (ground arith)

  interface_changes_self :
      (d : Dict Text Text) (physnets : List Text) (c : Dict Text InterfaceChanges)
      → interface_changes_onto ifaces ifaces d d physnets c ≡ c
  unfolding interface_changes_onto
  interface_changes_self d [] c = refl
  interface_changes_self d (p ∷ ps) c =
      rw (interface_change_self (lookup p d) c) (interface_changes_self d ps c)

-- A configuration compared with itself, in whatever order the physnets are visited, shows no
-- bridge to rename, to add or to remove and no interface to move.
pub resolve_ovs_changes_self :
    (enum : List Text → List Text) (ms : List BridgeMapping)
    → resolve_ovs_changes enum ms ms ≡ no_changes
unfolding resolve_ovs_changes new_names old_names
resolve_ovs_changes_self enum ms =
    rw (renames_self (physnet_map ms) (enum (all_physnets ms ms)), interface_changes_self)
      (rw (new_names, old_names, sorted_diff_self))
