-- ===== src/Bridge/Mapping.antt =====
-- `BridgeMapping` and `resolve_bridge_mappings` of openstack_hypervisor/bridge_datapath.py.
-- A missing option (`None`) is the empty text: the code tests both by truth value only.
use snap_openstack_hyperviso.Base.{
  Bool, false, ◌&&◌, Option, none, some, List, [], ◌∷◌, ◌++◌, if◌then◌else◌, contains, text_eq,
  Result, ok, err, value_error, ◌>>=◌,
}
use snap_openstack_hyperviso.Base.Text.{Text, str, split, strip, truthy, or_none}

pub record BridgeMapping : Type 0 where
  pub bridge : Text
  pub physnet : Text
  pub interface : Option Text

pub physnet_bridge_pair : BridgeMapping → Text
physnet_bridge_pair m = m.physnet ++ (str ":" ++ m.bridge)

-- The loop's four lists.
pub record Seen : Type 0 where
  pub physnets : List Text
  pub bridges : List Text
  pub interfaces : List Text
  pub mappings : List BridgeMapping

abbrev pub nothing_seen : Seen
nothing_seen = record { physnets = []; bridges = []; interfaces = []; mappings = [] }

-- The unpacking of `mapping.split(":")`. An empty interface is `None` from here on.
unfoldable pub parse_entry : List Text → Result BridgeMapping
parse_entry (b ∷ p ∷ []) = ok (record { bridge = b; physnet = p; interface = none })
parse_entry (b ∷ p ∷ i ∷ []) = ok (record { bridge = b; physnet = p; interface = or_none i })
parse_entry _ = err (value_error (str "Invalid mapping format"))

abbrev pub seen_interface : List Text → Option Text → Bool
seen_interface seen none = false
seen_interface seen (some i) = contains seen i

abbrev pub append_interface : List Text → Option Text → List Text
append_interface seen none = seen
append_interface seen (some i) = seen ++ (i ∷ [])

abbrev duplicate_interface : Option Text → Text
duplicate_interface none = str "Duplicate interface in mapping: "
duplicate_interface (some i) = str "Duplicate interface in mapping: " ++ i

-- The appends of one round.
abbrev pub appended : Seen → BridgeMapping → Seen
appended s m = record {
  physnets = s.physnets ++ m.physnet ∷ [];
  bridges = s.bridges ++ m.bridge ∷ [];
  interfaces = append_interface s.interfaces m.interface;
  mappings = s.mappings ++ m ∷ [];
}

-- The guards of one round.
unfoldable pub add_mapping : Seen → BridgeMapping → Result Seen
add_mapping s m =
    if contains s.physnets m.physnet
    then err (value_error (str "Duplicate physnet in mapping: " ++ m.physnet))
    else if contains s.bridges m.bridge
    then err (value_error (str "Duplicate bridge in mapping: " ++ m.bridge))
    else if seen_interface s.interfaces m.interface
    then err (value_error (duplicate_interface m.interface))
    else ok (appended s m)

-- One round of the loop; a piece that is empty is skipped.
unfoldable pub add_entry : Seen → Text → Result Seen
unfolding add_mapping parse_entry
add_entry s [] = ok s
add_entry s (c ∷ entry) = do m ← parse_entry (split b':' (c ∷ entry)); add_mapping s m

unfoldable pub add_entries : Seen → List Text → Result Seen
unfolding add_entry
add_entries s [] = ok s
add_entries s (entry ∷ rest) = do s' ← add_entry s entry; add_entries s' rest

unfoldable pub resolve_bridge_mappings : Text → Text → Text → Text → Result (List BridgeMapping)
unfolding add_entries split strip
resolve_bridge_mappings external_bridge physnet_name external_nic bridge_mapping =
    if truthy bridge_mapping
    then (do s ← add_entries nothing_seen (split b' ' (strip bridge_mapping)); ok s.mappings)
    else if truthy external_bridge && truthy physnet_name
    then ok (
        record {
          bridge = external_bridge;
          physnet = physnet_name;
          interface = or_none external_nic;
        }
        ∷ [])
    else ok []
