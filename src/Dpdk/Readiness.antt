-- ===== src/Dpdk/Readiness.antt =====
-- openstack_hypervisor/hooks.py: whether the configuration of DPDK and of hardware offloading has
-- taken effect in the switch. `machine` is `platform.machine()`.
use snap_openstack_hyperviso.Base.{
  Bool, true, false, not, ◌&&◌, ◌||◌, Option, none, some, List, [], ◌∷◌, ◌++◌, map, any, contains,
  if◌then◌else◌, ◌==◌, text_eq, Result, attribute_error,
}
use snap_openstack_hyperviso.Base.Dict.{Dict, lookup, or_default}
use snap_openstack_hyperviso.Base.Text.{Text, str, truthy}
use snap_openstack_hyperviso.Base.Effects.{Exec, pure, raise, catch, ◌>>=◌}
use snap_openstack_hyperviso.Ovs.{Outcome, Session, appctl}
use snap_openstack_hyperviso.Ovs.Queries.{
  list_bridges, list_bridge_interfaces, get_dpdk_initialized, or_on_command_error,
}
use snap_openstack_hyperviso.Ovs.Json.{
  Data, raw, uuid, set_of, map_of, string, other, array, nil, no_items, Entries, end, entry,
}
use snap_openstack_hyperviso.Ovs.Tables.{Table, entry_of, column_of}
use snap_openstack_hyperviso.Ovs.SetCheck.{list_table}
use snap_openstack_hyperviso.Dpdk.{PortInfo, BondInfo, Mappings}

unfoldable pub dpdk_supported : Text → Bool
dpdk_supported machine = contains (str "aarch64" ∷ str "x86_64" ∷ []) machine

-- A number, a Boolean or `None`, as Python prints it, that counts as false.
abbrev falsy_printed : List Text
falsy_printed = str "0" ∷ str "0.0" ∷ str "-0.0" ∷ str "False" ∷ str "None" ∷ []

abbrev has_entries : Entries → Bool
has_entries end = false
has_entries (entry k v es) = true

-- `bool(data)`
abbrev pub data_truthy : Data → Bool
data_truthy (raw (string t)) = truthy t
data_truthy (raw (other t)) = not (contains falsy_printed t)
data_truthy (raw (array nil)) = false
data_truthy (raw (array es)) = true
data_truthy (uuid t) = true
data_truthy (set_of no_items) = false
data_truthy (set_of is) = true
data_truthy (map_of es) = has_entries es

-- `data == text`
abbrev pub is_text : Data → Text → Bool
is_text (raw (string t)) s = t == s
is_text d s = false

-- Whether every port of the mappings is among the interfaces.
unfoldable pub check_dpdk_ports_exist : Dict Text PortInfo → List Text → Bool
check_dpdk_ports_exist [] all_interfaces = true
check_dpdk_ports_exist ((port_name, info) ∷ rest) all_interfaces =
    if contains all_interfaces info.dpdk_port_name
    then check_dpdk_ports_exist rest all_interfaces
    else false

abbrev pub bond_found : Text → List Text → List Text → Bool
bond_found bond_name ports bridge_ports =
    contains bridge_ports bond_name
    || any (λ p. contains bridge_ports p) (map (λ p. str "dpdk-" ++ p) ports)

module _ {W : Type 0} (run : List Text → W → Outcome × W) where
  -- `current_config.get(key, "")`: only a dict has `get`.
  abbrev pub setting_of : Text → Data → Exec (Session W) Data
  setting_of key (map_of es) = pure (or_default (raw (string [])) (entry_of key es))
  setting_of key d = raise (attribute_error (str "get"))

  unfoldable pub hwoffloading_ready : Data → Exec (Session W) Bool
  unfolding appctl entry_of
  hwoffloading_ready current_config = do
    actual_hw_offload ← setting_of (str "hw-offload") current_config
    (if is_text actual_hw_offload (str "true")
        then catch (do offload_stats ← appctl run (str "dpctl/offload-stats-show" ∷ []); pure true)
            (or_on_command_error false)
        else pure false)

  unfoldable pub check_dpdk_init_config : Text → Data → Exec (Session W) Bool
  unfolding dpdk_supported entry_of
  check_dpdk_init_config machine current_config =
      if dpdk_supported machine
      then (do
        actual_dpdk_init ← setting_of (str "dpdk-init") current_config
        pure (is_text actual_dpdk_init (str "try")))
      else pure true

  -- The loop over the bridges; a bridge whose interfaces cannot be listed is passed over.
  unfoldable pub interfaces_of_bridges : List Text → List Text → Exec (Session W) (List Text)
  unfolding list_bridge_interfaces
  interfaces_of_bridges all_interfaces [] = pure all_interfaces
  interfaces_of_bridges all_interfaces (bridge ∷ rest) = do
    found ← catch (list_bridge_interfaces run bridge) (or_on_command_error [])
    interfaces_of_bridges (all_interfaces ++ found) rest

  abbrev pub interfaces_if : Option (List Text) → Exec (Session W) (Option (List Text))
  interfaces_if none = pure none
  interfaces_if (some bridges) = do
    all_interfaces ← interfaces_of_bridges [] bridges
    pure (some all_interfaces)

  unfoldable pub collect_all_ovs_interfaces : Exec (Session W) (Option (List Text))
  unfolding list_bridges interfaces_of_bridges
  collect_all_ovs_interfaces = do
    bridges ← catch (do b ← list_bridges run; pure (some b)) (or_on_command_error none)
    interfaces_if bridges

  unfoldable pub check_dpdk_bond_exists : Text → BondInfo → Exec (Session W) Bool
  unfolding list_bridge_interfaces
  check_dpdk_bond_exists bond_name info =
      if truthy info.bridge
      then catch
          (do
            bridge_ports ← list_bridge_interfaces run info.bridge
            pure (bond_found bond_name info.ports bridge_ports))
          (or_on_command_error false)
      else pure true

  -- The loop over the bonds.
  unfoldable pub check_bonds : Dict Text BondInfo → Exec (Session W) Bool
  unfolding check_dpdk_bond_exists
  check_bonds [] = pure true
  check_bonds ((bond_name, info) ∷ rest) = do
    found ← check_dpdk_bond_exists bond_name info
    (if found then check_bonds rest else pure false)

  abbrev pub ready_among : Mappings → Option (List Text) → Exec (Session W) Bool
  ready_among m none = pure false
  ready_among m (some all_interfaces) =
      if check_dpdk_ports_exist m.ports all_interfaces then check_bonds m.bonds else pure false

  unfoldable pub expected_dpdk_ports_ready : Mappings → Exec (Session W) Bool
  unfolding collect_all_ovs_interfaces check_dpdk_ports_exist check_bonds
  expected_dpdk_ports_ready m = do
    all_interfaces ← collect_all_ovs_interfaces
    ready_among m all_interfaces

  module _ (loads : Text → Result Table) (uuid_of : Text → Result Text) where
    unfoldable pub get_ovs_other_config : Exec (Session W) Data
    unfolding list_table lookup
    get_ovs_other_config =
        catch
          (do
            parsed ←
                list_table run loads uuid_of (str "Open_vSwitch") (str ".")
                  (str "other_config" ∷ [])
            pure (column_of (str "other_config") parsed))
          (or_on_command_error (map_of end))

    -- One test after the other, each only if it is asked for.
    abbrev pub if_asked :
        Bool → Exec (Session W) Bool → Exec (Session W) Bool → Exec (Session W) Bool
    if_asked asked check next =
        if asked then (do ready ← check; (if ready then next else pure false)) else next

    abbrev pub config_checks : Text → Mappings → Bool → Bool → Data → Exec (Session W) Bool
    config_checks machine m ovs_dpdk_enabled hw_offloading current_config =
        if data_truthy current_config
        then if_asked ovs_dpdk_enabled (check_dpdk_init_config machine current_config) (
            if_asked hw_offloading (hwoffloading_ready current_config)
              (if_asked ovs_dpdk_enabled (expected_dpdk_ports_ready m) (pure true)))
        else pure false

    unfoldable pub dpdk_config_is_ready : Text → Mappings → Bool → Bool → Exec (Session W) Bool
    unfolding get_dpdk_initialized get_ovs_other_config check_dpdk_init_config hwoffloading_ready
        expected_dpdk_ports_ready
    dpdk_config_is_ready machine m ovs_dpdk_enabled hw_offloading =
        if not ovs_dpdk_enabled && not hw_offloading
        then pure true
        else if_asked ovs_dpdk_enabled (get_dpdk_initialized run) (do
          current_config ← get_ovs_other_config
          config_checks machine m ovs_dpdk_enabled hw_offloading current_config)
