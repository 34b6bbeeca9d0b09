-- ===== src/Ovs/Commands.antt =====
-- The methods of `OVSCli` that change the switch (openstack_hypervisor/bridge_datapath.py).
pub mod Requests
pub mod Batches
use snap_openstack_hyperviso.Base.{
  Bool, true, false, not, ◌||◌, Option, none, some, List, [], ◌∷◌, ◌++◌, map, if◌then◌else◌, ℕ,
  zero, suc, is_empty, Exc, ovs_command_error, file_not_found_error,
}
use snap_openstack_hyperviso.Base.Dict.{Dict}
use snap_openstack_hyperviso.Base.Text.{Text, str, truthy, given, lower, has_part}
use snap_openstack_hyperviso.Base.Decimal.{decimal}
use snap_openstack_hyperviso.Base.Effects.{Exec, pure, raise, catch, ◌>>=◌, ◌>>◌}
use snap_openstack_hyperviso.Ovs.{Outcome, Session, vsctl}

-- `f"{column}:{key}={value}"` for each entry of a dict.
abbrev pub setting_args : Text → Dict Text Text → List Text
setting_args column [] = []
setting_args column ((key, value) ∷ rest) =
    (column ++ (str ":" ++ (key ++ (str "=" ++ value)))) ∷ setting_args column rest

-- A flag and its value, if there is one that is not empty.
abbrev pub flag : Text → Option Text → List Text
flag prefix none = []
flag prefix (some value) = if truthy value then (prefix ++ value) ∷ [] else []

unfoldable pub set_args : Text → Text → Text → Dict Text Text → List Text
set_args table row column settings = str "set" ∷ table ∷ row ∷ setting_args column settings

unfoldable pub add_bridge_args : Text → Text → List Text → List Text
add_bridge_args bridge_name datapath_type cmd_args =
    str "--may-exist"
    ∷ str "add-br"
    ∷ bridge_name
    ∷ str "--"
    ∷ str "set"
    ∷ str "bridge"
    ∷ bridge_name
    ∷ (str "datapath_type=" ++ datapath_type)
    ∷ cmd_args

-- The optional arguments of `add_port`.
pub record PortOptions : Type 0 where
  pub port_type : Option Text
  pub options : Dict Text Text
  pub external_ids : Dict Text Text
  pub mtu : Option ℕ

abbrev pub set_interface : Text → List Text
set_interface port_name = str "--" ∷ str "set" ∷ str "Interface" ∷ port_name ∷ []

abbrev pub mtu_args : Text → Option ℕ → List Text
mtu_args port_name none = []
mtu_args port_name (some zero) = []
mtu_args port_name (some (suc n)) =
    set_interface port_name ++ ((str "mtu-request=" ++ decimal (suc n)) ∷ [])

unfoldable pub add_port_args : Text → Text → PortOptions → List Text
unfolding decimal
add_port_args bridge_name port_name port =
    (str "--may-exist" ∷ str "add-port" ∷ bridge_name ∷ port_name ∷ [])
    ++ ((if given port.port_type
          then set_interface port_name ++ flag (str "type=") port.port_type
          else [])
        ++ (mtu_args port_name port.mtu
            ++ ((if is_empty port.options
                  then []
                  else set_interface port_name ++ setting_args (str "options") port.options)
                ++ (if is_empty port.external_ids
                    then []
                    else (str "--" ∷ str "set" ∷ str "Port" ∷ port_name ∷ [])
                      ++ setting_args (str "external_ids") port.external_ids))))

-- The optional arguments of `add_bond`.
pub record BondOptions : Type 0 where
  pub bond_mode : Option Text
  pub lacp_mode : Option Text
  pub lacp_time : Option Text

unfoldable pub add_bond_args : Text → Text → List Text → BondOptions → List Text
add_bond_args bridge_name bond_name ports bond =
    (str "--may-exist" ∷ str "add-bond" ∷ bridge_name ∷ bond_name ∷ ports)
    ++ (if given bond.bond_mode || given bond.lacp_mode || given bond.lacp_time
        then (str "--" ∷ str "set" ∷ str "port" ∷ bond_name ∷ [])
          ++ (flag (str "bond_mode=") bond.bond_mode
              ++ (flag (str "lacp=") bond.lacp_mode
                  ++ flag (str "other-config:lacp-time=") bond.lacp_time))
        else [])

-- What `os.path.exists`, `os.path.isfile` and `os.access(…, os.R_OK)` say of a path.
pub record Files : Type 0 where
  pub exists : Text → Bool
  pub is_file : Text → Bool
  pub readable : Text → Bool

module _ {W : Type 0} (run : List Text → W → Outcome × W) where
  -- `self.vsctl(*args)`
  abbrev pub command : List Text → Exec (Session W) (Unit {0})
  command args = do output ← vsctl run args true none false; pure tt

  unfoldable pub set : Text → Text → Text → Dict Text Text → Exec (Session W) (Unit {0})
  unfolding vsctl set_args
  set table row column settings =
      if is_empty settings then pure tt else command (set_args table row column settings)

  unfoldable pub add_bridge : Text → Text → List Text → Exec (Session W) (Unit {0})
  unfolding vsctl add_bridge_args
  add_bridge bridge_name datapath_type cmd_args =
      command (add_bridge_args bridge_name datapath_type cmd_args)

  unfoldable pub del_bridge : Text → Exec (Session W) (Unit {0})
  unfolding vsctl
  del_bridge bridge_name = command (str "del-br" ∷ bridge_name ∷ [])

  unfoldable pub add_port : Text → Text → PortOptions → Exec (Session W) (Unit {0})
  unfolding vsctl add_port_args
  add_port bridge_name port_name port = command (add_port_args bridge_name port_name port)

  unfoldable pub del_port : Text → Text → Exec (Session W) (Unit {0})
  unfolding vsctl
  del_port bridge_name port_name =
      command (str "--if-exists" ∷ str "del-port" ∷ bridge_name ∷ port_name ∷ [])

  unfoldable pub add_bond : Text → Text → List Text → BondOptions → Exec (Session W) (Unit {0})
  unfolding vsctl add_bond_args
  add_bond bridge_name bond_name ports bond =
      command (add_bond_args bridge_name bond_name ports bond)

  abbrev pub no_such_key : Text → Bool
  no_such_key error_msg =
      has_part (str "not found") error_msg || has_part (str "no such key") error_msg

  -- The handler of `remove`.
  abbrev pub false_on_no_such_key : Exc → Exec (Session W) Bool
  false_on_no_such_key (ovs_command_error m) =
      if no_such_key (lower m) then pure false else raise (ovs_command_error m)
  false_on_no_such_key c = raise c

  unfoldable pub remove : Text → Text → Text → Text → Exec (Session W) Bool
  unfolding vsctl lower has_part
  remove table row column key =
      catch
        (do
          output ← vsctl run (str "remove" ∷ table ∷ row ∷ column ∷ key ∷ []) true none false
          pure true)
        false_on_no_such_key

  abbrev not_usable : Text → Text → Text → Exec (Session W) (Unit {0})
  not_usable file_type problem file_path =
      raise (file_not_found_error (str "SSL " ++ (file_type ++ (problem ++ file_path))))

  -- One round of the loop that tests the files.
  abbrev pub check_file : Files → Text → Text → Exec (Session W) (Unit {0})
  check_file files file_type file_path =
      if not (files.exists file_path)
      then not_usable file_type (str " file not found: ") file_path
      else if not (files.is_file file_path)
      then not_usable file_type (str " path is not a file: ") file_path
      else if not (files.readable file_path)
      then not_usable file_type (str " file is not readable: ") file_path
      else pure tt

  unfoldable pub set_ssl : Files → Text → Text → Text → Exec (Session W) (Unit {0})
  unfolding vsctl
  set_ssl files private_key certificate ca_cert = do
    check_file files (str "private key") private_key
    check_file files (str "certificate") certificate
    check_file files (str "CA certificate") ca_cert
    command (str "set-ssl" ∷ private_key ∷ certificate ∷ ca_cert ∷ [])
