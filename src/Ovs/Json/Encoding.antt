-- ===== src/Ovs/Json/Encoding.antt =====
-- Values written in the encoding of the database, and `_parse_ovsdb_data` of
-- openstack_hypervisor/bridge_datapath.py on them.
use snap_openstack_hyperviso.Base.{
  ◌≡◌, refl, sym, ap, ◌∙◌, Bool, true, false, ◌||◌, text_eq, arith, Result, ok, ◌>>=◌,
}
use snap_openstack_hyperviso.Base.Text.{Text, str}
use snap_openstack_hyperviso.Ovs.Json.{
  Json, string, other, array, Elems, nil, cons, Key, text_key, other_key, uuid_key, Data, raw, uuid,
  set_of, map_of, Items, no_items, item, Entries, end, entry, key_of, same_key, put,
  parse_ovsdb_data, parse_items, parse_entries,
}

abbrev tagged : Text → Json → Json
tagged tag payload = array (cons (string tag) (cons payload nil))

abbrev encode_key : Key → Json
encode_key (text_key t) = string t
encode_key (other_key t) = other t
encode_key (uuid_key t) = tagged (str "uuid") (string t)

-- `["set", [...]]`, `["map", [[k, v], ...]]`, `["uuid", "..."]`, and other values as they are.
unfoldable mutual
  pub encode : Data → Json
  encode (raw j) = j
  encode (uuid t) = tagged (str "uuid") (string t)
  encode (set_of is) = tagged (str "set") (array (encode_items is))
  encode (map_of es) = tagged (str "map") (array (encode_entries es))

  pub encode_items : Items → Elems
  encode_items no_items = nil
  encode_items (item d is) = cons (encode d) (encode_items is)

  pub encode_entries : Entries → Elems
  encode_entries end = nil
  encode_entries (entry k v es) =
      cons (array (cons (encode_key k) (cons (encode v) nil))) (encode_entries es)

-- The key is among the keys.
abbrev pub has_key : Key → Entries → Bool
has_key k end = false
has_key k (entry j v es) = same_key j k || has_key k es

||-false-left : (a b : Bool) → (a || b) ≡ false → a ≡ false
||-false-left true b h = h
||-false-left false b h = refl

||-false-right : (a b : Bool) → (a || b) ≡ false → b ≡ false
||-false-right true b h = ground arith
||-false-right false b h = h

same_key-sym : (j k : Key) → same_key j k ≡ false → same_key k j ≡ false
same_key-sym (text_key s) (text_key t) h = ground arith
same_key-sym (text_key s) (other_key t) h = refl
same_key-sym (text_key s) (uuid_key t) h = refl
same_key-sym (other_key s) (text_key t) h = refl
same_key-sym (other_key s) (other_key t) h = ground arith
same_key-sym (other_key s) (uuid_key t) h = refl
same_key-sym (uuid_key s) (text_key t) h = refl
same_key-sym (uuid_key s) (other_key t) h = refl
same_key-sym (uuid_key s) (uuid_key t) h = ground arith

module _ (uuid_of : Text → Result Text) where
  abbrev pub IsKey : Key → Type 0
  IsKey (uuid_key t) = uuid_of t ≡ ok t
  IsKey _ = Unit

  -- A value of a column: no list but a set, UUIDs in the form that `uuid.UUID` prints, and no key
  -- twice.
  unfoldable mutual
    pub IsColumn : Data → Type 0
    IsColumn (raw (array es)) = ⊥
    IsColumn (raw _) = Unit
    IsColumn (uuid t) = uuid_of t ≡ ok t
    IsColumn (set_of is) = AreColumns is
    IsColumn (map_of es) = AreEntries es

    pub AreColumns : Items → Type 0
    AreColumns no_items = Unit
    AreColumns (item d is) = IsColumn d × AreColumns is

    pub AreEntries : Entries → Type 0
    AreEntries end = Unit
    AreEntries (entry k v es) = IsKey k × IsColumn v × (has_key k es ≡ false) × AreEntries es

  abbrev put_all : Entries → Entries → Entries
  put_all m end = m
  put_all m (entry k v es) = put_all (put k v m) es

  key_data : Key → Data
  key_data (text_key t) = raw (string t)
  key_data (other_key t) = raw (other t)
  key_data (uuid_key t) = uuid t

  key_of-key_data : (k : Key) → key_of (key_data k) ≡ ok k
  unfolding key_data
  key_of-key_data (text_key t) = refl
  key_of-key_data (other_key t) = refl
  key_of-key_data (uuid_key t) = refl

  parse-uuid :
      (t : Text)
      → uuid_of t ≡ ok t
      → parse_ovsdb_data uuid_of (tagged (str "uuid") (string t)) ≡ ok (uuid t)
  unfolding parse_ovsdb_data text_eq
  parse-uuid t h = ap (λ r. r >>= λ u. ok (uuid u)) h

  parse-key : (k : Key) → IsKey k → parse_ovsdb_data uuid_of (encode_key k) ≡ ok (key_data k)
  unfolding key_data parse_ovsdb_data
  parse-key (text_key t) h = refl
  parse-key (other_key t) h = refl
  parse-key (uuid_key t) h = parse-uuid t h

  parse-pair :
      (key value : Json) (es : Elems) (m : Entries) (k : Key) {v : Data} {kd : Data}
      → parse_ovsdb_data uuid_of key ≡ ok kd
      → parse_ovsdb_data uuid_of value ≡ ok v
      → key_of kd ≡ ok k
      → parse_entries uuid_of (cons (array (cons key (cons value nil))) es) m
        ≡ parse_entries uuid_of es (put k v m)
  unfolding parse_ovsdb_data
  parse-pair key value es m k {v} h i j =
      ap
        (λ r. r >>= λ k'. parse_ovsdb_data uuid_of value >>= λ v'.
          key_of k' >>= λ k''. parse_entries uuid_of es (put k'' v' m))
        h
      ∙ rw (i, j) refl

  -- The entries of two maps, in order.
  joined : Entries → Entries → Entries
  joined end es = es
  joined (entry k v m) es = entry k v (joined m es)

  put-fresh :
      (k : Key) (v : Data) (m : Entries)
      → has_key k m ≡ false
      → put k v m ≡ joined m (entry k v end)
  unfolding put joined
  put-fresh k v end h = refl
  put-fresh k v (entry j w m) h = ground (
    arith,
    put-fresh k v m,
    ||-false-left (same_key j k) (has_key k m),
    ||-false-right (same_key j k) (has_key k m),
  )

  joined-end : (m : Entries) → joined m end ≡ m
  unfolding joined
  joined-end end = refl
  joined-end (entry k v m) = ap (entry k v) (joined-end m)

  has_key-joined :
      (k j : Key) (v : Data) (m : Entries)
      → has_key k m ≡ false
      → same_key j k ≡ false
      → has_key k (joined m (entry j v end)) ≡ false
  unfolding joined
  has_key-joined k j v end h n = rw n refl
  has_key-joined k j v (entry i w m) h n = ground (arith, has_key-joined k j v m)

  joined-entry :
      (m : Entries) (k : Key) (v : Data) (es : Entries)
      → joined (joined m (entry k v end)) es ≡ joined m (entry k v es)
  unfolding joined
  joined-entry end k v es = refl
  joined-entry (entry i w m) k v es = ap (entry i w) (joined-entry m k v es)

  -- No key of `es` is a key of `m`.
  abbrev AreNew : Entries → Entries → Type 0
  AreNew m end = Unit
  AreNew m (entry k v es) = (has_key k m ≡ false) × AreNew m es

  AreNew-joined :
      (m es : Entries) (k : Key) (v : Data)
      → AreNew m es
      → has_key k es ≡ false
      → AreNew (joined m (entry k v end)) es
  AreNew-joined m end k v h n = tt
  AreNew-joined m (entry j w es) k v (hj, hs) n = (
    has_key-joined j k v m hj (same_key-sym j k (||-false-left _ _ n)),
    AreNew-joined m es k v hs (||-false-right (same_key j k) _ n),
  )

  put_all-joined : (m es : Entries) → AreEntries es → AreNew m es → put_all m es ≡ joined m es
  unfolding AreEntries
  put_all-joined m end h n = sym (joined-end m)
  put_all-joined m (entry k v es) (hk, hv, fresh, hs) (new, ns) =
      ap (λ m'. put_all m' es) (put-fresh k v m new)
      ∙ put_all-joined (joined m (entry k v end)) es hs (AreNew-joined m es k v ns fresh)
      ∙ joined-entry m k v es

  AreNew-end : (es : Entries) → AreNew end es
  AreNew-end end = tt
  AreNew-end (entry k v es) = (refl, AreNew-end es)

  put_all-end : (es : Entries) → AreEntries es → put_all end es ≡ es
  unfolding joined
  put_all-end es h = put_all-joined end es h (AreNew-end es)

  mutual
    unfolding encode IsColumn parse_ovsdb_data text_eq

    parse-encode : (d : Data) → IsColumn d → parse_ovsdb_data uuid_of (encode d) ≡ ok d
    parse-encode (raw (string t)) h = refl
    parse-encode (raw (other t)) h = refl
    parse-encode (raw (array es)) h = absurd h
    parse-encode (uuid t) h = parse-uuid t h
    parse-encode (set_of is) h = ap (λ r. r >>= λ is'. ok (set_of is')) (parse-encode_items is h)
    parse-encode (map_of es) h =
        ap (λ r. r >>= λ m. ok (map_of m)) (parse-encode_entries es end h)
        ∙ ap (λ m. ok (map_of m)) (put_all-end es h)

    parse-encode_items :
        (is : Items) → AreColumns is → parse_items uuid_of (encode_items is) ≡ ok is
    parse-encode_items no_items h = refl
    parse-encode_items (item d is) (h, hs) =
        rw (parse-encode d h) (rw (parse-encode_items is hs) refl)

    parse-encode_entries :
        (es : Entries) (m : Entries)
        → AreEntries es
        → parse_entries uuid_of (encode_entries es) m ≡ ok (put_all m es)
    parse-encode_entries end m h = refl
    parse-encode_entries (entry k v es) m (hk, hv, fresh, hs) =
        parse-pair (encode_key k) (encode v) (encode_entries es) m k (parse-key k hk)
          (parse-encode v hv) (key_of-key_data k)
        ∙ parse-encode_entries es (put k v m) hs

  -- A value of a column comes back from its encoding: sets, maps and UUIDs are told apart, nested ones
  -- too, and a map keeps its entries and their order. A column holds no list but a set, no key twice
  -- in a map, and UUIDs in the form that `uuid_of` gives.
  pub parse_ovsdb_data-encode : (d : Data) → IsColumn d → parse_ovsdb_data uuid_of (encode d) ≡ ok d
  parse_ovsdb_data-encode d h = parse-encode d h
