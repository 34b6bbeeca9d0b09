-- ===== src/Ovs/Queries.antt =====
-- The read-only methods of `OVSCli` (openstack_hypervisor/bridge_datapath.py).
use mathlib.Core.Bool.{Bool, true, false, ◌&&◌, ◌||◌}
use snap_openstack_hyperviso.Base.{
  Option, none, some, List, [], ◌∷◌, if◌then◌else◌, keep_if, dedup, inter, map, ◌==◌, text_eq, Exc,
  ovs_command_error,
}
use snap_openstack_hyperviso.Base.Dict.{Dict, insert}
use snap_openstack_hyperviso.Base.Text.{
  Text, str, truthy, strip, strip_if, char_eq, split, split_once, splitlines, lower,
}
use snap_openstack_hyperviso.Base.Order.{sorted}
use snap_openstack_hyperviso.Base.Effects.{Exec, pure, raise, catch, ◌>>=◌}
use snap_openstack_hyperviso.Ovs.{Outcome, Session, vsctl}

-- `cleaned.startswith('"') and cleaned.endswith('"')`, and `cleaned[1:-1]`: a single quotation
-- mark starts and ends with itself, and its slice is empty.
abbrev without_last : Text → Text
without_last [] = []
without_last (c ∷ []) = []
without_last (c ∷ d ∷ s) = c ∷ without_last (d ∷ s)

abbrev ends_with_quote : Text → Bool
ends_with_quote [] = false
ends_with_quote (c ∷ []) = char_eq c b'"'
ends_with_quote (c ∷ d ∷ s) = ends_with_quote (d ∷ s)

abbrev unquote : Text → Text
unquote [] = []
unquote (c ∷ s) = if char_eq c b'"' && ends_with_quote (c ∷ s) then without_last s else c ∷ s

-- `_normalize_ovs_vsctl_value`; the empty text stands for `None`, which its caller treats alike.
unfoldable pub normalize_ovs_vsctl_value : Text → Text
unfolding strip
normalize_ovs_vsctl_value raw_value =
    let cleaned = strip raw_value in
    if cleaned == str "[]" || cleaned == str "{}" then [] else unquote cleaned

-- What one pair of the option adds; a pair with no colon, or with no bridge, adds nothing.
abbrev add_pair : Dict Text Text → Option (Text × Text) → Dict Text Text
add_pair mapping none = mapping
add_pair mapping (some (physnet, bridge)) =
    if truthy (strip bridge) then insert (strip bridge) (strip physnet) mapping else mapping

-- The loop over the pairs of `external_ids:ovn-bridge-mappings`.
unfoldable pub physnet_pairs : Dict Text Text → List Text → Dict Text Text
unfolding strip split_once
physnet_pairs mapping [] = mapping
physnet_pairs mapping (pair ∷ rest) = physnet_pairs (add_pair mapping (split_once b':' pair)) rest

abbrev parse_physnet_map : Text → Dict Text Text
parse_physnet_map normalized =
    if truthy normalized then physnet_pairs [] (split b',' normalized) else []

-- The lines of a text that are not blank, with and without the white space around them.
abbrev pub filled_lines : Text → List Text
filled_lines output = keep_if (λ line. truthy (strip line)) (splitlines output)

abbrev pub stripped_lines : Text → List Text
stripped_lines output = map strip (filled_lines output)

-- `except OVSCommandError: return default`
abbrev pub or_on_command_error : {W A : Type 0} → A → Exc → Exec (Session W) A
or_on_command_error default (ovs_command_error m) = pure default
or_on_command_error default c = raise c

module _ {W : Type 0} (run : List Text → W → Outcome × W) where
  -- `self.vsctl(*args, skip_transaction=True)`
  unfoldable pub query : List Text → Exec (Session W) Text
  unfolding vsctl
  query args = vsctl run args true none true

  unfoldable pub list_bridges : Exec (Session W) (List Text)
  unfolding query sorted dedup
  list_bridges = do output ← query (str "list-br" ∷ []); pure (sorted (dedup (filled_lines output)))

  -- The second half of `list_bridge_interfaces`, which leaves out patch and internal ports.
  unfoldable pub actual_interfaces : List Text → Exec (Session W) (List Text)
  unfolding query sorted dedup
  actual_interfaces [] = pure []
  actual_interfaces (iface ∷ rest) = do
    actual ← query (
        str "--bare"
        ∷ str "--columns=name"
        ∷ str "find"
        ∷ str "Interface"
        ∷ str "type!=patch"
        ∷ str "type!=internal"
        ∷ [])
    pure (sorted (inter (dedup (iface ∷ rest)) (dedup (stripped_lines actual))))

  unfoldable pub list_bridge_interfaces : Text → Exec (Session W) (List Text)
  unfolding actual_interfaces
  list_bridge_interfaces bridge = do
    output ← query (str "list-ifaces" ∷ bridge ∷ [])
    actual_interfaces (stripped_lines output)

  unfoldable pub get_bridge_physnet_map : Exec (Session W) (Dict Text Text)
  unfolding query physnet_pairs normalize_ovs_vsctl_value split
  get_bridge_physnet_map =
      catch
        (do
          raw ←
              query (str "get" ∷ str "open" ∷ str "." ∷ str "external_ids:ovn-bridge-mappings" ∷ [])
          pure (parse_physnet_map (normalize_ovs_vsctl_value raw)))
        (or_on_command_error [])

  unfoldable pub get_dpdk_initialized : Exec (Session W) Bool
  unfolding query strip lower
  get_dpdk_initialized =
      catch
        (do
          result ← query (str "get" ∷ str "Open_vSwitch" ∷ str "." ∷ str "dpdk_initialized" ∷ [])
          pure (lower (strip_if (λ c. char_eq c b'"') (strip result)) == str "true"))
        (or_on_command_error false)
