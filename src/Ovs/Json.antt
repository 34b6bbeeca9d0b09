-- ===== src/Ovs/Json.antt =====
-- `_parse_ovsdb_data` of openstack_hypervisor/bridge_datapath.py: how the database of Open vSwitch
-- writes sets, maps and UUIDs in JSON. No value in a row of a table is a JSON object, so there are
-- none here. Keys of a map that are no texts are told apart by how they print.
-- The parameter `uuid_of` is `uuid.UUID`.
pub mod Encoding
use snap_openstack_hyperviso.Base.{
  List, [], ◌∷◌, if◌then◌else◌, ◌==◌, text_eq, Result, ok, err, Exc, value_error, type_error,
  attribute_error, ◌>>=◌, Bool, true, false,
}
use snap_openstack_hyperviso.Base.Text.{Text, str}

mutual
  -- `other` is a number, a Boolean or null, as Python prints it.
  pub data Json : Type 0 where
    string : Text → Json
    other : Text → Json
    array : Elems → Json

  pub data Elems : Type 0 where
    nil : Elems
    cons : Json → Elems → Elems

pub data Key : Type 0 where
  text_key : Text → Key
  other_key : Text → Key
  uuid_key : Text → Key

mutual
  -- What the function returns: the value as it is, or what it stands for.
  pub data Data : Type 0 where
    raw : Json → Data
    uuid : Text → Data
    set_of : Items → Data
    map_of : Entries → Data

  pub data Items : Type 0 where
    no_items : Items
    item : Data → Items → Items

  pub data Entries : Type 0 where
    end : Entries
    entry : Key → Data → Entries → Entries

-- The test of `data[0]`.
pub data Tag : Type 0 where
  set_tag map_tag uuid_tag no_tag : Tag

abbrev pub tag_of : Json → Tag
tag_of (string t) =
    if t == str "set"
    then set_tag
    else if t == str "map"
    then map_tag
    else if t == str "uuid"
    then uuid_tag
    else no_tag
tag_of _ = no_tag

-- What can be a key of a dict.
abbrev pub key_of : Data → Result Key
key_of (raw (string t)) = ok (text_key t)
key_of (raw (other t)) = ok (other_key t)
key_of (raw (array es)) = err (type_error (str "unhashable type: 'list'"))
key_of (uuid t) = ok (uuid_key t)
key_of (set_of is) = err (type_error (str "unhashable type: 'list'"))
key_of (map_of es) = err (type_error (str "unhashable type: 'dict'"))

abbrev pub same_key : Key → Key → Bool
same_key (text_key s) (text_key t) = s == t
same_key (other_key s) (other_key t) = s == t
same_key (uuid_key s) (uuid_key t) = s == t
same_key _ _ = false

-- `d[key] = value`
unfoldable pub put : Key → Data → Entries → Entries
put k v end = entry k v end
put k v (entry j w es) = if same_key j k then entry j v es else entry j w (put k v es)

-- Iterating over a text gives its characters.
unfoldable pub characters : Text → Items
characters [] = no_items
characters (c ∷ s) = item (raw (string (c ∷ []))) (characters s)

module _ (uuid_of : Text → Result Text) where
  abbrev uuid_data : Json → Result Data
  uuid_data (string t) = do u ← uuid_of t; ok (uuid u)
  uuid_data _ = err (attribute_error (str "replace"))

  unfoldable mutual
    pub parse_ovsdb_data : Json → Result Data
    parse_ovsdb_data (string t) = ok (raw (string t))
    parse_ovsdb_data (other t) = ok (raw (other t))
    parse_ovsdb_data (array (cons tag (cons payload nil))) = parse_tagged payload (tag_of tag) tag
    parse_ovsdb_data (array es) = ok (raw (array es))

    -- A list of two, by its first element.
    pub parse_tagged : Json → Tag → Json → Result Data
    parse_tagged (array es) set_tag tag = do is ← parse_items es; ok (set_of is)
    parse_tagged (string t) set_tag tag = ok (set_of (characters t))
    parse_tagged (other t) set_tag tag = err (type_error (str "object is not iterable"))
    parse_tagged (array es) map_tag tag = do m ← parse_entries es end; ok (map_of m)
    parse_tagged (string []) map_tag tag = ok (map_of end)
    parse_tagged (string (c ∷ s)) map_tag tag =
        err (value_error (str "not enough values to unpack"))
    parse_tagged (other t) map_tag tag = err (type_error (str "object is not iterable"))
    parse_tagged payload uuid_tag tag = uuid_data payload
    parse_tagged payload no_tag tag = ok (raw (array (cons tag (cons payload nil))))

    pub parse_items : Elems → Result Items
    parse_items nil = ok no_items
    parse_items (cons e es) = do d ← parse_ovsdb_data e; is ← parse_items es; ok (item d is)

    pub parse_entries : Elems → Entries → Result Entries
    parse_entries nil m = ok m
    parse_entries (cons (array (cons key (cons value nil))) es) m = do
      k ← parse_ovsdb_data key
      v ← parse_ovsdb_data value
      k' ← key_of k
      parse_entries es (put k' v m)
    parse_entries (cons (string (a ∷ b ∷ [])) es) m =
        parse_entries es (put (text_key (a ∷ [])) (raw (string (b ∷ []))) m)
    parse_entries (cons (other t) es) m = err (type_error (str "cannot unpack"))
    parse_entries (cons _ es) m = err (value_error (str "wrong number of values to unpack"))
