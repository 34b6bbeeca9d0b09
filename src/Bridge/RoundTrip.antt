-- ===== src/Bridge/RoundTrip.antt =====
-- Mappings as an option text, and `resolve_bridge_mappings` of
-- openstack_hypervisor/bridge_datapath.py on such a text.
use mathlib.Core.List.{append_assoc, append-nil}
use snap_openstack_hyperviso.Base.{
  Bool-cases, inl, inr, ℕ, ◌≡◌, refl, sym, ap, ◌∙◌, subst, true, false, Option, none, some, List,
  [], ◌∷◌, ◌++◌, arith, contains, contains-append, text_eq, Distinct, All, All-append, ok, ◌>>=◌,
}
use snap_openstack_hyperviso.Base.Text.{
  Text, split, join, strip, strip_if_keep, char_eq, char_eq→eq, is_space, has_char, last_char,
  last_char-append, split-join, truthy, or_none,
}
use snap_openstack_hyperviso.Bridge.Mapping.{
  BridgeMapping, Seen, nothing_seen, parse_entry, seen_interface, appended, add_mapping, add_entry,
  add_entries, resolve_bridge_mappings,
}
use snap_openstack_hyperviso.Bridge.Unique.{
  physnets, bridges, interfaces, IsUnique, physnets-snoc, bridges-snoc, interfaces-snoc,
}

abbrev interface_pieces : Option Text → List Text
interface_pieces none = []
interface_pieces (some i) = i ∷ []

-- `bridge:physnet` or `bridge:physnet:interface`
abbrev pub print_mapping : BridgeMapping → Text
print_mapping m = join (b':' ∷ []) (m.bridge ∷ m.physnet ∷ interface_pieces m.interface)

abbrev print_entries : List BridgeMapping → List Text
print_entries [] = []
print_entries (m ∷ ms) = print_mapping m ∷ print_entries ms

unfoldable pub print_mappings : List BridgeMapping → Text
unfolding join
print_mappings ms = join (b' ' ∷ []) (print_entries ms)

-- A name holds no colon and no white space.
abbrev pub IsName : Text → Type 0
IsName [] = Unit
IsName (c ∷ s) = (is_space c ≡ false) × (has_char b':' (c ∷ []) ≡ false) × IsName s

abbrev pub IsInterface : Option Text → Type 0
IsInterface none = Unit
IsInterface (some i) = (truthy i ≡ true) × IsName i

pub record IsPrintable (m : BridgeMapping) : Type 0 where
  pub bridge : IsName m.bridge
  pub physnet : IsName m.physnet
  pub interface : IsInterface m.interface

no_colon : (s : Text) → IsName s → has_char b':' s ≡ false
no_colon [] h = refl
no_colon (c ∷ s) (_, h, hs) = ground (arith, no_colon s hs)

blank-is_space : is_space b' ' ≡ true
unfolding is_space
blank-is_space = refl

-- White space includes the blank that separates the entries.
not_blank : (c : ℕ) → is_space c ≡ false → char_eq c b' ' ≡ false
not_blank c h = elim (Bool-cases (char_eq c b' ')) [
  | inl e ↦ cc (char_eq→eq c b' ' e, blank-is_space)
  | inr e ↦ e
]

no_blank : (s : Text) → IsName s → has_char b' ' s ≡ false
no_blank [] h = refl
no_blank (c ∷ s) (h, _, hs) = ground (arith, no_blank s hs, not_blank c h)

or_none_keep : (i : Text) → truthy i ≡ true → or_none i ≡ some i
or_none_keep [] h = cc
or_none_keep (c ∷ s) h = refl

parse-print_parts :
    (b p : Text) (o : Option Text)
    → IsName b
    → IsName p
    → IsInterface o
    → parse_entry (split b':' (join (b':' ∷ []) (b ∷ p ∷ interface_pieces o)))
      ≡ ok (record { bridge = b; physnet = p; interface = o })
unfolding parse_entry
parse-print_parts b p none hb hp ho =
    rw (split-join b':' b (p ∷ []) (no_colon b hb, (no_colon p hp, tt))) refl
parse-print_parts b p (some i) hb hp (hi, ho) =
    rw (split-join b':' b (p ∷ i ∷ []) (no_colon b hb, (no_colon p hp, (no_colon i ho, tt))))
      (rw (or_none_keep i hi))

parse-print :
    (m : BridgeMapping) → IsPrintable m → parse_entry (split b':' (print_mapping m)) ≡ ok m
parse-print m v = parse-print_parts m.bridge m.physnet m.interface v.bridge v.physnet v.interface

-- The loop's state after the mappings.
abbrev seen : List BridgeMapping → Seen
seen ms = record {
  physnets = physnets ms;
  bridges = bridges ms;
  interfaces = interfaces ms;
  mappings = ms;
}

appended-seen :
    (ms : List BridgeMapping) (m : BridgeMapping) → appended (seen ms) m ≡ seen (ms ++ m ∷ [])
appended-seen ms m = λ i. record {
  physnets = sym (physnets-snoc ms m) i;
  bridges = sym (bridges-snoc ms m) i;
  interfaces = sym (interfaces-snoc ms m) i;
  mappings = ms ++ m ∷ [];
}

-- A member of a list without repetitions is not among those before it.
fresh_before :
    (xs : List Text) (x : Text) (ys : List Text) → Distinct (xs ++ x ∷ ys) → contains xs x ≡ false
fresh_before [] x ys d = refl
fresh_before (y ∷ xs) x ys (h, d) =
    ground (arith, fresh_before xs x ys d, contains-append xs (x ∷ ys) y)

physnets-append : (xs ys : List BridgeMapping) → physnets (xs ++ ys) ≡ physnets xs ++ physnets ys
unfolding physnets
physnets-append [] ys = refl
physnets-append (x ∷ xs) ys = rw (physnets-append xs ys)

bridges-append : (xs ys : List BridgeMapping) → bridges (xs ++ ys) ≡ bridges xs ++ bridges ys
unfolding bridges
bridges-append [] ys = refl
bridges-append (x ∷ xs) ys = rw (bridges-append xs ys)

interfaces-append :
    (xs ys : List BridgeMapping) → interfaces (xs ++ ys) ≡ interfaces xs ++ interfaces ys
unfolding interfaces
interfaces-append [] ys = refl
interfaces-append (x ∷ xs) ys = ground (arith, interfaces-append xs ys)

module _ (ms : List BridgeMapping) (m : BridgeMapping) (rest : List BridgeMapping) where
  fresh_physnet : IsUnique (ms ++ m ∷ rest) → contains (physnets ms) m.physnet ≡ false
  unfolding physnets
  fresh_physnet u =
      fresh_before (physnets ms) m.physnet (physnets rest)
        (subst Distinct (physnets-append ms (m ∷ rest)) u.physnets)

  fresh_bridge : IsUnique (ms ++ m ∷ rest) → contains (bridges ms) m.bridge ≡ false
  unfolding bridges
  fresh_bridge u =
      fresh_before (bridges ms) m.bridge (bridges rest)
        (subst Distinct (bridges-append ms (m ∷ rest)) u.bridges)

fresh_interface_parts :
    (xs : List Text) (o : Option Text) (ys : List Text)
    → Distinct (xs ++ elim o [ none ↦ ys | some i ↦ i ∷ ys ])
    → seen_interface xs o ≡ false
fresh_interface_parts xs none ys d = refl
fresh_interface_parts xs (some i) ys d = fresh_before xs i ys d

fresh_interface :
    (ms : List BridgeMapping) (m : BridgeMapping) (rest : List BridgeMapping)
    → IsUnique (ms ++ m ∷ rest)
    → seen_interface (interfaces ms) m.interface ≡ false
unfolding interfaces
fresh_interface ms m rest u =
    fresh_interface_parts (interfaces ms) m.interface (interfaces rest)
      (subst Distinct (interfaces-append ms (m ∷ rest)) u.interfaces)

add_mapping-seen :
    (ms : List BridgeMapping) (m : BridgeMapping) (rest : List BridgeMapping)
    → IsUnique (ms ++ m ∷ rest)
    → add_mapping (seen ms) m ≡ ok (seen (ms ++ m ∷ []))
unfolding add_mapping
add_mapping-seen ms m rest u =
    rw (fresh_physnet ms m rest u, fresh_bridge ms m rest u, fresh_interface ms m rest u)
      (ap ok (appended-seen ms m))

add_entry-nonempty :
    (s : Seen) (e : Text)
    → truthy e ≡ true
    → add_entry s e ≡ (parse_entry (split b':' e) >>= add_mapping s)
unfolding add_entry
add_entry-nonempty s [] h = cc
add_entry-nonempty s (c ∷ e) h = refl

-- Texts that `strip` leaves as they are.
abbrev IsTrimmed : Text → Type 0
IsTrimmed [] = ⊥
IsTrimmed (c ∷ s) = (is_space c ≡ false) × (is_space (last_char c s) ≡ false)

strip-IsTrimmed : (s : Text) → IsTrimmed s → strip s ≡ s
unfolding strip
strip-IsTrimmed [] h = absurd h
strip-IsTrimmed (c ∷ s) (h, k) = strip_if_keep is_space c s h k

abbrev IsSolid : Text → Type 0
IsSolid s = All (λ c. is_space c ≡ false) s

IsSolid-last_char : (c : ℕ) (s : Text) → IsSolid (c ∷ s) → is_space (last_char c s) ≡ false
IsSolid-last_char c [] (h, _) = h
IsSolid-last_char c (d ∷ s) (_, hs) = IsSolid-last_char d s hs

IsSolid-IsTrimmed : (s : Text) → truthy s ≡ true → IsSolid s → IsTrimmed s
IsSolid-IsTrimmed [] t h = cc
IsSolid-IsTrimmed (c ∷ s) t h = (h.0, IsSolid-last_char c s h)

append-IsTrimmed : (s t : Text) → IsTrimmed s → IsTrimmed t → IsTrimmed (s ++ (b' ' ∷ t))
append-IsTrimmed [] t h k = absurd h
append-IsTrimmed (c ∷ s) [] h k = absurd k
append-IsTrimmed (c ∷ s) (d ∷ t) h k = (h.0, rw (last_char-append c b' ' s (d ∷ t)) k.1)

join-IsTrimmed :
    (w : Text) (ws : List Text) → All IsTrimmed (w ∷ ws) → IsTrimmed (join (b' ' ∷ []) (w ∷ ws))
unfolding join
join-IsTrimmed w [] (h, hs) = h
join-IsTrimmed w (v ∷ ws) (h, hs) =
    append-IsTrimmed w (join (b' ' ∷ []) (v ∷ ws)) h (join-IsTrimmed v ws hs)

-- An entry has no white space, and holds at least a colon.
truthy-append : (s : Text) (c : ℕ) (t : Text) → truthy (s ++ (c ∷ t)) ≡ true
truthy-append [] c t = refl
truthy-append (d ∷ s) c t = refl

truthy-print : (m : BridgeMapping) → truthy (print_mapping m) ≡ true
unfolding join
truthy-print m = truthy-append m.bridge b':' _

IsName-IsSolid : (s : Text) → IsName s → IsSolid s
IsName-IsSolid [] h = tt
IsName-IsSolid (c ∷ s) (h, _, hs) = (h, IsName-IsSolid s hs)

colon-IsSolid : is_space b':' ≡ false
unfolding is_space
colon-IsSolid = refl

print-IsSolid_parts :
    (b p : Text) (o : Option Text)
    → IsName b
    → IsName p
    → IsInterface o
    → IsSolid (join (b':' ∷ []) (b ∷ p ∷ interface_pieces o))
unfolding join
print-IsSolid_parts b p none hb hp ho =
    All-append _ b _ (IsName-IsSolid b hb) (colon-IsSolid, IsName-IsSolid p hp)
print-IsSolid_parts b p (some i) hb hp (_, ho) =
    All-append _ b _ (IsName-IsSolid b hb)
      (colon-IsSolid, All-append _ p _ (IsName-IsSolid p hp) (colon-IsSolid, IsName-IsSolid i ho))

print-IsSolid : (m : BridgeMapping) → IsPrintable m → IsSolid (print_mapping m)
print-IsSolid m v =
    print-IsSolid_parts m.bridge m.physnet m.interface v.bridge v.physnet v.interface

IsSolid-no_blank : (s : Text) → IsSolid s → has_char b' ' s ≡ false
IsSolid-no_blank [] h = refl
IsSolid-no_blank (c ∷ s) (h, hs) = ground (arith, IsSolid-no_blank s hs, not_blank c h)

entries-no_blank :
    (ms : List BridgeMapping)
    → All IsPrintable ms
    → All (λ e. has_char b' ' e ≡ false) (print_entries ms)
entries-no_blank [] h = tt
entries-no_blank (m ∷ ms) (h, hs) =
    (IsSolid-no_blank (print_mapping m) (print-IsSolid m h), entries-no_blank ms hs)

entries-IsTrimmed :
    (ms : List BridgeMapping) → All IsPrintable ms → All IsTrimmed (print_entries ms)
entries-IsTrimmed [] h = tt
entries-IsTrimmed (m ∷ ms) (h, hs) = (
  IsSolid-IsTrimmed (print_mapping m) (truthy-print m) (print-IsSolid m h),
  entries-IsTrimmed ms hs,
)

add_entries-seen :
    (ms rest : List BridgeMapping)
    → IsUnique (ms ++ rest)
    → All IsPrintable rest
    → add_entries (seen ms) (print_entries rest) ≡ ok (seen (ms ++ rest))
unfolding add_entries
add_entries-seen ms [] u h = rw append-nil
add_entries-seen ms (m ∷ rest) u (h, hs) =
    rw (add_entry-nonempty (seen ms) (print_mapping m) (truthy-print m), parse-print m h)
      (rw (add_mapping-seen ms m rest u) (
        add_entries-seen (ms ++ m ∷ []) rest
          (subst IsUnique (sym (append_assoc ms (m ∷ []) rest)) u) hs
        ∙ ap (λ r. ok (seen r)) (append_assoc ms (m ∷ []) rest)))

seen-nil : seen [] ≡ nothing_seen
unfolding physnets bridges interfaces
seen-nil = refl

IsTrimmed-truthy : (s : Text) → IsTrimmed s → truthy s ≡ true
IsTrimmed-truthy [] h = absurd h
IsTrimmed-truthy (c ∷ s) h = refl

-- Mappings that name nothing twice, whose names hold no colon and no white space and whose
-- interfaces are not empty, are read back from the option text that lists them, in order. The
-- three deprecated options do not matter then.
pub resolve_bridge_mappings-print_mappings :
    (external_bridge physnet_name external_nic : Text) (m : BridgeMapping) (ms : List BridgeMapping)
    → IsUnique (m ∷ ms)
    → All IsPrintable (m ∷ ms)
    → resolve_bridge_mappings external_bridge physnet_name external_nic (print_mappings (m ∷ ms))
      ≡ ok (m ∷ ms)
unfolding resolve_bridge_mappings print_mappings
resolve_bridge_mappings-print_mappings eb pn en m ms u h =
    rw (IsTrimmed-truthy (print_mappings (m ∷ ms)) trimmed) (
      rw (strip-IsTrimmed (print_mappings (m ∷ ms)) trimmed) (
        rw (split-join b' ' (print_mapping m) (print_entries ms) (entries-no_blank (m ∷ ms) h))
          (rw (← seen-nil) (rw (add_entries-seen [] (m ∷ ms) u h)))))
  where
    trimmed : IsTrimmed (print_mappings (m ∷ ms))
    trimmed = join-IsTrimmed (print_mapping m) (print_entries ms) (entries-IsTrimmed (m ∷ ms) h)
