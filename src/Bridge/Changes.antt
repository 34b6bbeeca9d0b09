-- ===== src/Bridge/Changes.antt =====
-- `resolve_ovs_changes` and `update_mappings_from_rename` of
-- openstack_hypervisor/bridge_datapath.py.
-- Python visits the members of a set in an order of its own: `enum` is that order, for the one
-- set that the function iterates over. All other sets are sorted before they are used.
pub mod Unchanged
pub mod ByMap
pub mod Removed
pub mod Maps
pub mod Renames
pub mod Kept
use snap_openstack_hyperviso.Base.{
  not, ◌&&◌, Option, none, some, List, [], ◌∷◌, ◌++◌, if◌then◌else◌, ◌==◌, contains, text_eq,
  option_eq, dedup, diff, is_empty, map,
}
use snap_openstack_hyperviso.Base.Dict.{Dict, lookup, insert, keys, values, is_some, or_default}
use snap_openstack_hyperviso.Base.Text.{Text, truthy, given}
use snap_openstack_hyperviso.Base.Order.{sorted}
use snap_openstack_hyperviso.Bridge.Mapping.{BridgeMapping}

pub record InterfaceChanges : Type 0 where
  pub removed : List Text
  pub added : List Text

pub record BridgeResolutionStatus : Type 0 where
  pub renamed_bridges : List (Text × Text)
  pub added_bridges : List Text
  pub removed_bridges : List Text
  pub interface_changes : Dict Text InterfaceChanges

abbrev pub no_changes : BridgeResolutionStatus
no_changes = record {
  renamed_bridges = [];
  added_bridges = [];
  removed_bridges = [];
  interface_changes = [];
}

-- `{m.physnet: m.bridge for m in ms}`, onto a dict.
unfoldable pub physnet_map_onto : Dict Text Text → List BridgeMapping → Dict Text Text
physnet_map_onto d [] = d
physnet_map_onto d (m ∷ ms) = physnet_map_onto (insert m.physnet m.bridge d) ms

unfoldable pub physnet_map : List BridgeMapping → Dict Text Text
unfolding physnet_map_onto
physnet_map ms = physnet_map_onto [] ms

abbrev pub add_to_set : Text → List Text → List Text
add_to_set i xs = if contains xs i then xs else xs ++ (i ∷ [])

-- One round of the loop that builds the sets of interfaces.
unfoldable pub add_bridge_interface : Dict Text (List Text) → BridgeMapping → Dict Text (List Text)
add_bridge_interface d m = elim m.interface [
  | none ↦ d'
  | some i ↦
      if truthy i
      then insert m.bridge (add_to_set i (or_default [] (lookup m.bridge d'))) d'
      else d'
]
  where
    d' : Dict Text (List Text)
    d' = if is_some (lookup m.bridge d) then d else insert m.bridge [] d

unfoldable pub bridge_interfaces_onto :
    Dict Text (List Text) → List BridgeMapping → Dict Text (List Text)
unfolding add_bridge_interface
bridge_interfaces_onto d [] = d
bridge_interfaces_onto d (m ∷ ms) = bridge_interfaces_onto (add_bridge_interface d m) ms

unfoldable pub bridge_interfaces : List BridgeMapping → Dict Text (List Text)
unfolding bridge_interfaces_onto
bridge_interfaces ms = bridge_interfaces_onto [] ms

-- The rename that one physnet shows, if it shows one.
unfoldable pub rename_of : Option Text → Option Text → List (Text × Text)
rename_of (some p) (some n) = if truthy p && truthy n && not (p == n) then (p, n) ∷ [] else []
rename_of _ _ = []

unfoldable pub renames : Dict Text Text → Dict Text Text → List Text → List (Text × Text)
unfolding rename_of
renames prev new [] = []
renames prev new (physnet ∷ rest) =
    rename_of (lookup physnet prev) (lookup physnet new) ++ renames prev new rest

unfoldable pub old_names : List (Text × Text) → List Text
old_names [] = []
old_names ((old, new) ∷ r) = old ∷ old_names r

unfoldable pub new_names : List (Text × Text) → List Text
new_names [] = []
new_names ((old, new) ∷ r) = new ∷ new_names r

-- `d.get(b, set()) if b else set()`
abbrev pub interfaces_of : Dict Text (List Text) → Option Text → List Text
interfaces_of d none = []
interfaces_of d (some b) = if truthy b then or_default [] (lookup b d) else []

abbrev pub tracking_bridge : Option Text → Option Text → Text
tracking_bridge prev new = if given prev then or_default [] prev else or_default [] new

-- The rounds of the last loop.
module _ (prev_ifaces new_ifaces : Dict Text (List Text)) where
  unfoldable pub interface_change :
      Option Text → Option Text → Dict Text InterfaceChanges → Dict Text InterfaceChanges
  interface_change prev_bridge new_bridge changes =
      let prev = interfaces_of prev_ifaces prev_bridge in
      let new = interfaces_of new_ifaces new_bridge in
      let removed = diff prev new in
      let added = diff new prev in
      if not (given prev_bridge) && not (given new_bridge)
      then changes
      else if is_empty removed && is_empty added
      then changes
      else insert (tracking_bridge prev_bridge new_bridge)
          (record { removed = sorted removed; added = sorted added }) changes

  unfoldable pub interface_changes_onto :
      Dict Text Text
      → Dict Text Text
      → List Text
      → Dict Text InterfaceChanges
      → Dict Text InterfaceChanges
  unfolding interface_change
  interface_changes_onto prev new [] changes = changes
  interface_changes_onto prev new (physnet ∷ rest) changes =
      interface_changes_onto prev new rest
        (interface_change (lookup physnet prev) (lookup physnet new) changes)

abbrev pub all_physnets : List BridgeMapping → List BridgeMapping → List Text
all_physnets prev new = dedup (keys (physnet_map prev) ++ keys (physnet_map new))

-- `xs - ys - zs`, sorted
abbrev pub sorted_diff : List Text → List Text → List Text → List Text
sorted_diff xs ys zs = sorted (diff (diff (dedup xs) ys) zs)

unfoldable pub resolve_ovs_changes :
    (List Text → List Text) → List BridgeMapping → List BridgeMapping → BridgeResolutionStatus
resolve_ovs_changes enum previous_mapping new_mapping =
    let prev = physnet_map previous_mapping in
    let new = physnet_map new_mapping in
    let physnets = enum (all_physnets previous_mapping new_mapping) in
    let renamed = renames prev new physnets in
    record {
      renamed_bridges = renamed;
      added_bridges = sorted_diff (values new) (values prev) (new_names renamed);
      removed_bridges = sorted_diff (values prev) (values new) (old_names renamed);
      interface_changes =
          interface_changes_onto (bridge_interfaces previous_mapping)
            (bridge_interfaces new_mapping) prev new physnets [];
    }

-- `dict((new_name, old_name) for old_name, new_name in renames)`, onto a dict.
unfoldable pub rename_dict_onto : Dict Text Text → List (Text × Text) → Dict Text Text
rename_dict_onto d [] = d
rename_dict_onto d ((old, new) ∷ r) = rename_dict_onto (insert new old d) r

unfoldable pub rename_mapping : Dict Text Text → BridgeMapping → BridgeMapping
rename_mapping d m = record m { bridge = or_default m.bridge (lookup m.bridge d) }

unfoldable pub update_mappings_from_rename :
    List BridgeMapping → List (Text × Text) → List BridgeMapping
unfolding rename_dict_onto rename_mapping
update_mappings_from_rename mappings [] = mappings
update_mappings_from_rename mappings (r ∷ rs) =
    map (rename_mapping (rename_dict_onto [] (r ∷ rs))) mappings
