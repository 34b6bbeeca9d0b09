-- ===== src/Netplan.antt =====
-- openstack_hypervisor/netplan.py: reading and changing the configuration of Netplan by its command.
-- The parameter `safe_load` is `yaml.safe_load` on what `netplan get` prints; an empty document is
-- `none`. A list, dict or number that is missing or null is read like an empty one. The code reads a
-- missing one in this way; at a null `parameters` of a bond it would raise instead.
use snap_openstack_hyperviso.Base.{
  ℕ, Bool, true, false, Option, none, some, List, [], ◌∷◌, ◌++◌, if◌then◌else◌, ◌==◌, text_eq,
  contains, attribute_error,
}
use snap_openstack_hyperviso.Base.Dict.{Dict, lookup}
use snap_openstack_hyperviso.Base.Text.{Text, str, join}
use snap_openstack_hyperviso.Base.Effects.{Exec, pure, raise, ◌>>=◌, ◌>>◌}
use snap_openstack_hyperviso.Ovs.{Outcome, Session}
use snap_openstack_hyperviso.Host.{check_output, check_call}

pub record Ethernet : Type 0 where
  pub mtu : Option ℕ

-- `parameters` of a bond: `mode`, `lacp` and `lacp-rate`.
pub record BondConfig : Type 0 where
  pub interfaces : List Text
  pub mode : Option Text
  pub lacp : Option Text
  pub lacp_rate : Option Text
  pub mtu : Option ℕ

-- `openvswitch` says whether the bridge has that key.
pub record BridgeConfig : Type 0 where
  pub interfaces : List Text
  pub openvswitch : Bool

-- The value of `network`.
pub record Network : Type 0 where
  pub ethernets : Dict Text Ethernet
  pub bonds : Dict Text BondConfig
  pub bridges : Dict Text BridgeConfig

abbrev pub no_network : Network
no_network = record { ethernets = []; bonds = []; bridges = [] }

-- `interfaces.remove(name)`: the first one.
unfoldable pub remove_first : Text → List Text → List Text
remove_first name [] = []
remove_first name (i ∷ is) = if i == name then is else i ∷ remove_first name is

-- `NULL` for the empty list.
unfoldable pub interfaces_arg : List Text → Text
unfolding join
interfaces_arg [] = str "NULL"
interfaces_arg (i ∷ is) = str "[" ++ (join (str ",") (i ∷ is) ++ str "]")

abbrev pub bridge_interfaces_of : Option BridgeConfig → List Text
bridge_interfaces_of none = []
bridge_interfaces_of (some b) = b.interfaces

module _ {W : Type 0} (run : List Text → W → Outcome × W) (safe_load : Text → Option Network) where
  unfoldable pub get_netplan_config : Exec (Session W) (Option Network)
  unfolding check_output
  get_netplan_config = do
    raw_yaml ← check_output run (str "netplan" ∷ str "get" ∷ [])
    pure (safe_load raw_yaml)

  abbrev pub netplan_set : Text → Exec (Session W) (Unit {0})
  netplan_set setting = check_call run (str "netplan" ∷ str "set" ∷ setting ∷ [])

  abbrev pub bridge_setting : Text → List Text → Text
  bridge_setting bridge_name interfaces =
      str "bridges." ++ (bridge_name ++ (str ".interfaces=" ++ interfaces_arg interfaces))

  -- A configuration that is `None` has no `get`.
  abbrev pub remove_from : Text → Text → Option Network → Exec (Session W) Bool
  remove_from bridge_name interface_name none =
      raise (attribute_error (str "'NoneType' object has no attribute 'get'"))
  remove_from bridge_name interface_name (some config) =
      let interfaces = bridge_interfaces_of (lookup bridge_name config.bridges) in
      if contains interfaces interface_name
      then (netplan_set (bridge_setting bridge_name (remove_first interface_name interfaces))
          >> pure true)
      else pure false

  unfoldable pub remove_interface_from_bridge : Text → Text → Exec (Session W) Bool
  unfolding get_netplan_config lookup remove_first interfaces_arg check_call
  remove_interface_from_bridge bridge_name interface_name = do
    config ← get_netplan_config
    remove_from bridge_name interface_name config

  -- `os.path.exists` is the parameter `exists`.
  unfoldable pub remove_bond : (Text → W → Bool) → Text → Exec (Session W) (Unit {0})
  unfolding check_call
  remove_bond exists bond_name = do
    netplan_set (str "bonds." ++ (bond_name ++ str "=NULL"))
    delete_device
    where
      delete_device : Exec (Session W) (Unit {0})
      delete_device s =
          (if exists (str "/proc/net/bonding/" ++ bond_name) s.world
              then check_call run
                  (str "ip" ∷ str "link" ∷ str "delete" ∷ str "dev" ∷ bond_name ∷ [])
              else pure tt)
            s

  unfoldable pub remove_ethernet : Text → Exec (Session W) (Unit {0})
  unfolding check_call
  remove_ethernet interface_name = netplan_set (str "ethernets." ++ (interface_name ++ str "=NULL"))

  unfoldable pub apply_netplan : Exec (Session W) (Unit {0})
  unfolding check_call
  apply_netplan = check_call run (str "netplan" ∷ str "apply" ∷ [])
