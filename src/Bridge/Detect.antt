-- ===== src/Bridge/Detect.antt =====
-- `detect_current_mappings` of openstack_hypervisor/bridge_datapath.py: the mappings that the
-- running switch has. The set `seen` holds the entries of `mappings`, so the list alone is kept.
pub mod Contract
use snap_openstack_hyperviso.Base.{
  not, Option, none, some, List, [], ◌∷◌, ◌++◌, if◌then◌else◌, is_empty, keep_if, ◌==◌, contains,
  text_eq, Eq, Exc, ovs_command_error,
}
use snap_openstack_hyperviso.Base.Dict.{Dict, lookup, or_default}
use snap_openstack_hyperviso.Base.Text.{Text, str, truthy, given}
use snap_openstack_hyperviso.Base.Effects.{Exec, pure, raise, catch, ◌>>=◌}
use snap_openstack_hyperviso.Ovs.{Outcome, Session}
use snap_openstack_hyperviso.Ovs.Queries.{
  list_bridges, list_bridge_interfaces, get_bridge_physnet_map,
}
use snap_openstack_hyperviso.Bridge.Mapping.{BridgeMapping}

mapping_dec : Discrete BridgeMapping
mapping_dec = hlevel (text_eq.dec)

instance unfoldable pub mapping_eq : Eq BridgeMapping
unfolding mapping_dec text_eq
mapping_eq = record { dec = mapping_dec }

abbrev pub integration_bridge : Text
integration_bridge = str "br-int"

-- The local function `add_mapping`.
unfoldable pub add_once : List BridgeMapping → BridgeMapping → List BridgeMapping
add_once mappings entry = if contains mappings entry then mappings else mappings ++ (entry ∷ [])

abbrev pub mapping_of : Text → Text → Option Text → BridgeMapping
mapping_of bridge physnet interface = record {
  bridge = bridge;
  physnet = physnet;
  interface = interface;
}

-- The loop over a bridge's interfaces.
unfoldable pub add_interfaces : Text → Text → List BridgeMapping → List Text → List BridgeMapping
unfolding add_once
add_interfaces bridge physnet mappings [] = mappings
add_interfaces bridge physnet mappings (i ∷ rest) =
    add_interfaces bridge physnet
      (if truthy i then add_once mappings (mapping_of bridge physnet (some i)) else mappings) rest

-- What a bridge adds, from its interfaces. `none` means that they could not be listed.
unfoldable pub add_bridge_mappings :
    Text → Text → List BridgeMapping → Option (List Text) → List BridgeMapping
unfolding add_interfaces
add_bridge_mappings bridge physnet mappings none =
    add_once mappings (mapping_of bridge physnet none)
add_bridge_mappings bridge physnet mappings (some listed) =
    let external = keep_if (λ i. not (i == bridge)) listed in
    if is_empty external
    then add_once mappings (mapping_of bridge physnet none)
    else add_interfaces bridge physnet mappings external

-- `except OVSCommandError: …`, with the value that stands for the failure.
abbrev pub none_on_command_error : {W A : Type 0} → Exc → Exec (Session W) (Option A)
none_on_command_error (ovs_command_error m) = pure none
none_on_command_error c = raise c

abbrev pub attempt : {W A : Type 0} → Exec (Session W) A → Exec (Session W) (Option A)
attempt m = catch (do a ← m; pure (some a)) none_on_command_error

module _ {W : Type 0} (run : List Text → W → Outcome × W) where
  -- A bridge that is not br-int, whose physnet is looked up.
  abbrev pub detect_mapped :
      List BridgeMapping → Text → Option Text → Exec (Session W) (List BridgeMapping)
  detect_mapped mappings bridge none = pure mappings
  detect_mapped mappings bridge (some physnet) =
      if truthy physnet
      then (do
        listed ← attempt (list_bridge_interfaces run bridge)
        pure (add_bridge_mappings bridge physnet mappings listed))
      else pure mappings

  unfoldable pub detect_bridge :
      Dict Text Text → List BridgeMapping → Text → Exec (Session W) (List BridgeMapping)
  unfolding add_bridge_mappings list_bridge_interfaces
  detect_bridge physnet_map mappings bridge =
      if bridge == integration_bridge
      then pure mappings
      else detect_mapped mappings bridge (lookup bridge physnet_map)

  unfoldable pub detect_bridges :
      Dict Text Text → List BridgeMapping → List Text → Exec (Session W) (List BridgeMapping)
  unfolding detect_bridge
  detect_bridges physnet_map mappings [] = pure mappings
  detect_bridges physnet_map mappings (bridge ∷ rest) = do
    mappings' ← detect_bridge physnet_map mappings bridge
    detect_bridges physnet_map mappings' rest

  abbrev pub detect_listed : Option (List Text) → Exec (Session W) (List BridgeMapping)
  detect_listed none = pure []
  detect_listed (some bridges) =
      if is_empty bridges
      then pure []
      else (do physnet_map ← get_bridge_physnet_map run; detect_bridges physnet_map [] bridges)

  unfoldable pub detect_current_mappings : Exec (Session W) (List BridgeMapping)
  unfolding detect_bridges list_bridges get_bridge_physnet_map
  detect_current_mappings = do listed ← attempt (list_bridges run); detect_listed listed
