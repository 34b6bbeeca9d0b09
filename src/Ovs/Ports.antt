-- ===== src/Ovs/Ports.antt =====
-- openstack_hypervisor/hooks.py: the ports of a bridge that the snap manages, and the chassis as a
-- gateway; and `find` of `OVSCli` (openstack_hypervisor/bridge_datapath.py), which they use.
-- The parameter `loads` is `json.loads`, on the table that ovs-vsctl prints.
pub mod Managed
use snap_openstack_hyperviso.Base.{
  ℕ, zero, suc, Bool, true, false, not, Option, none, some, List, [], ◌∷◌, if◌then◌else◌, ◌==◌,
  contains, text_eq, keep_if, Result, ok, err, value_error, index_error,
}
use snap_openstack_hyperviso.Base.Text.{Text, str}
use snap_openstack_hyperviso.Base.Effects.{Exec, pure, lift, ◌>>=◌, ◌>>◌}
use snap_openstack_hyperviso.Ovs.{Outcome, Session}
use snap_openstack_hyperviso.Ovs.Json.{Json, string}
use snap_openstack_hyperviso.Ovs.Tables.{Table}
use snap_openstack_hyperviso.Ovs.Queries.{query, list_bridge_interfaces}
use snap_openstack_hyperviso.Ovs.Commands.{PortOptions, set, add_port, del_port, remove}

-- `headings.index(name)`
abbrev pub index_of : Text → List Text → Option ℕ
index_of name [] = none
index_of name (h ∷ hs) = if h == name then some 0 else later (index_of name hs)
  where
    later : Option ℕ → Option ℕ
    later none = none
    later (some i) = some (suc i)

abbrev pub cell_at : ℕ → List Json → Option Json
cell_at i [] = none
cell_at zero (c ∷ cs) = some c
cell_at (suc i) (c ∷ cs) = cell_at i cs

abbrev add_cell : Option Json → Result (List Json) → Result (List Json)
add_cell none cells = err (index_error (str "list index out of range"))
add_cell (some c) (ok cs) = ok (c ∷ cs)
add_cell (some c) (err e) = err e

-- `[r[name_idx] for r in data]`
unfoldable pub cells_at : ℕ → List (List Json) → Result (List Json)
cells_at i [] = ok []
cells_at i (row ∷ rows) = let rest = cells_at i rows in add_cell (cell_at i row) rest

abbrev pub column_at : Option ℕ → List (List Json) → Result (List Json)
column_at none rows = err (value_error (str "'name' is not in list"))
column_at (some i) rows = cells_at i rows

-- `i in external_nics`
abbrev pub has_cell : List Json → Text → Bool
has_cell [] name = false
has_cell (string t ∷ cs) name = if t == name then true else has_cell cs name
has_cell (j ∷ cs) name = has_cell cs name

abbrev pub ext_port : PortOptions
ext_port = record {
  port_type = none;
  options = [];
  external_ids = (str "microstack-function", str "ext-port") ∷ [];
  mtu = none;
}

module _ {W : Type 0} (run : List Text → W → Outcome × W) (loads : Text → Result Table) where
  unfoldable pub find : Text → List Text → Exec (Session W) Table
  unfolding query
  find table conditions = do
    output ← query run (str "-f" ∷ str "json" ∷ str "find" ∷ table ∷ conditions)
    lift (loads output)

  -- `_add_interface_to_bridge`
  unfoldable pub add_interface_to_bridge : Text → Text → Exec (Session W) (Unit {0})
  unfolding list_bridge_interfaces add_port
  add_interface_to_bridge bridge nic = do
    listed ← list_bridge_interfaces run bridge
    (if contains listed nic then pure tt else add_port run bridge nic ext_port)

  -- `_del_interface_from_bridge`
  unfoldable pub del_interface_from_bridge : Text → Text → Exec (Session W) (Unit {0})
  unfolding list_bridge_interfaces del_port
  del_interface_from_bridge bridge nic = do
    listed ← list_bridge_interfaces run bridge
    (if contains listed nic then del_port run bridge nic else pure tt)

  -- `_get_external_ports_on_bridge`
  unfoldable pub get_external_ports_on_bridge : Text → Exec (Session W) (List Text)
  unfolding find list_bridge_interfaces
  get_external_ports_on_bridge bridge = do
    output ← find (str "Port") (str "external-ids:microstack-function=ext-port" ∷ [])
    external_nics ← lift (column_at (index_of (str "name") output.headings) output.rows)
    bridge_ifaces ← list_bridge_interfaces run bridge
    pure (keep_if (has_cell external_nics) bridge_ifaces)

  -- The loop that removes the other ports.
  unfoldable pub del_others : Text → Text → List Text → Exec (Session W) (Unit {0})
  unfolding del_interface_from_bridge
  del_others bridge nic [] = pure tt
  del_others bridge nic (p ∷ rest) =
      let more = del_others bridge nic rest in
      if p == nic then more else (del_interface_from_bridge bridge p >> more)

  -- `_ensure_single_nic_on_bridge`
  unfoldable pub ensure_single_nic_on_bridge : Text → Text → Exec (Session W) (Unit {0})
  unfolding get_external_ports_on_bridge add_interface_to_bridge del_others
  ensure_single_nic_on_bridge bridge nic = do
    ports ← get_external_ports_on_bridge bridge
    (if contains ports nic then pure tt else add_interface_to_bridge bridge nic)
    del_others bridge nic ports

  unfoldable pub del_all : Text → List Text → Exec (Session W) (Unit {0})
  unfolding del_interface_from_bridge
  del_all bridge [] = pure tt
  del_all bridge (p ∷ rest) = del_interface_from_bridge bridge p >> del_all bridge rest

  -- `_del_external_nics_from_bridge`
  unfoldable pub del_external_nics_from_bridge : Text → Exec (Session W) (Unit {0})
  unfolding get_external_ports_on_bridge del_all
  del_external_nics_from_bridge bridge = do
    ports ← get_external_ports_on_bridge bridge
    del_all bridge ports

module _ {W : Type 0} (run : List Text → W → Outcome × W) where
  -- `_enable_chassis_as_gateway`
  unfoldable pub enable_chassis_as_gateway : Exec (Session W) (Unit {0})
  unfolding set
  enable_chassis_as_gateway =
      set run (str "open") (str ".") (str "external_ids")
        ((str "ovn-cms-options", str "enable-chassis-as-gw") ∷ [])

  -- `_disable_chassis_as_gateway`
  unfoldable pub disable_chassis_as_gateway : Exec (Session W) (Unit {0})
  unfolding remove
  disable_chassis_as_gateway = do
    removed ← remove run (str "open") (str ".") (str "external_ids") (str "ovn-cms-options")
    pure tt
