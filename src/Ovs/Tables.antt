-- ===== src/Ovs/Tables.antt =====
-- What `list_table` and `set_check` of `OVSCli` (openstack_hypervisor/bridge_datapath.py) compute
-- from the output of ovs-vsctl.
-- The parameter `loads` is `json.loads` on the table that ovs-vsctl prints, `uuid_of` is
-- `uuid.UUID`, and `printed` is `str` on lists and dicts.
use snap_openstack_hyperviso.Base.{
  Bool, true, false, not, Option, none, some, List, [], ◌∷◌, ◌++◌, if◌then◌else◌, ◌==◌, text_eq,
  Result, ok, err, ◌>>=◌, index_error, type_error,
}
use snap_openstack_hyperviso.Base.Dict.{Dict, lookup, insert, or_default}
use snap_openstack_hyperviso.Base.Text.{Text, str, join, has_part}
use snap_openstack_hyperviso.Ovs.Json.{
  Json, string, other, array, Elems, nil, cons, text_key, Data, raw, uuid, set_of, map_of, Items,
  no_items, item, Entries, end, entry, same_key, parse_ovsdb_data,
}

-- The object with the keys `headings` and `data`.
pub record Table : Type 0 where
  pub headings : List Text
  pub rows : List (List Json)

unfoldable pub list_args : Text → Text → List Text → List Text
list_args table row columns =
    (str "--format" ∷ str "json" ∷ str "--if-exists" ∷ columns_arg columns)
    ++ (str "list" ∷ table ∷ row ∷ [])
  where
    columns_arg : List Text → List Text
    columns_arg [] = []
    columns_arg (c ∷ cs) = (str "--columns=" ++ join (str ",") (c ∷ cs)) ∷ []

-- `current_values[key]` of a dict, if the key is there.
unfoldable pub entry_of : Text → Entries → Option Data
entry_of key end = none
entry_of key (entry k v es) = if same_key k (text_key key) then some v else entry_of key es

-- `key in current_values` of a list.
abbrev has_item : Text → Items → Bool
has_item key no_items = false
has_item key (item (raw (string t)) is) = if t == key then true else has_item key is
has_item key (item d is) = has_item key is

abbrev has_elem : Text → Elems → Bool
has_elem key nil = false
has_elem key (cons (string t) es) = if t == key then true else has_elem key es
has_elem key (cons j es) = has_elem key es

-- Only a dict can be read at a text.
abbrev pub absent_or_fails : Bool → Result Bool
absent_or_fails present =
    if present then err (type_error (str "indices must be integers")) else ok true

module _ (printed : Data → Text) where
  -- `str(current_values[key])`
  unfoldable pub str_of : Data → Text
  str_of (raw (string t)) = t
  str_of (raw (other t)) = t
  str_of (uuid t) = t
  str_of d = printed d

  abbrev pub differs_from : Text → Option Data → Bool
  differs_from new_val none = true
  differs_from new_val (some d) = not (str_of d == new_val)

  -- `key not in current_values or str(new_val) != str(current_values[key])`
  unfoldable pub differs : Data → Text → Text → Result Bool
  unfolding str_of entry_of has_part
  differs (map_of es) key new_val = ok (differs_from new_val (entry_of key es))
  differs (set_of is) key new_val = absent_or_fails (has_item key is)
  differs (raw (array es)) key new_val = absent_or_fails (has_elem key es)
  differs (raw (string t)) key new_val = absent_or_fails (has_part key t)
  differs d key new_val = err (type_error (str "argument is not iterable"))

  -- The loop over the settings, with `config_changed`.
  unfoldable pub any_differs : Data → Dict Text Text → Bool → Result Bool
  unfolding differs
  any_differs current [] config_changed = ok config_changed
  any_differs current ((key, new_val) ∷ settings) config_changed = do
    d ← differs current key new_val
    any_differs current settings (if d then true else config_changed)

-- `.get(column, {})`
abbrev pub column_of : Text → Dict Text Data → Data
column_of column parsed = or_default (map_of end) (lookup column parsed)

module _ (uuid_of : Text → Result Text) where
  -- The loop over the headings, for one row.
  unfoldable pub read_row : List Text → List Json → Dict Text Data → Result (Dict Text Data)
  unfolding parse_ovsdb_data insert
  read_row [] cells parsed = ok parsed
  read_row (h ∷ hs) [] parsed = err (index_error (str "list index out of range"))
  read_row (h ∷ hs) (c ∷ cs) parsed = do
    d ← parse_ovsdb_data uuid_of c
    read_row hs cs (insert h d parsed)

  unfoldable pub read_rows : List Text → List (List Json) → Dict Text Data → Result (Dict Text Data)
  unfolding read_row
  read_rows headings [] parsed = ok parsed
  read_rows headings (row ∷ rows) parsed = do
    p ← read_row headings row parsed
    read_rows headings rows p

  abbrev pub read_output : (Text → Result Table) → Option Text → Result (Dict Text Data)
  read_output loads none = ok []
  read_output loads (some output) = do t ← loads output; read_rows t.headings t.rows []
