-- ===== src/Pci/Exclusion/Address.antt =====
-- Full PCI addresses as patterns (openstack_hypervisor/devspec.py): the address of a device, taken as
-- the address of a specification, matches that device only.
use snap_openstack_hyperviso.Base.{
  ℕ, ◌≡◌, refl, sym, ap, ◌∙◌, Bool, true, false, ◌&&◌, ◌||◌, some, List, [], ◌∷◌, ◌++◌, ◌==◌,
  eq_of_==, text_eq, arith, Bool-cases, inl, inr, if_true, if_false, is_empty, ok, ◌>>=◌,
}
use snap_openstack_hyperviso.Base.Text.{
  Text, str, split, split_once, split-nonempty, onto_head, char_eq,
}
use snap_openstack_hyperviso.Pci.DevSpec.{
  PciAddress, any_value, or_any, parse_hex, parse_fields, address_parts, address_halves,
  pci_address, glob_parts, glob_fields, glob_halves, glob_spec, admits, glob_match,
}

-- The form in which the kernel writes an address.
abbrev pub printed_address : PciAddress → Text
printed_address p =
    p.domain ++ (str ":" ++ (p.bus ++ (str ":" ++ (p.slot ++ (str "." ++ p.function)))))

abbrev pub is_wild : Text → Bool
is_wild field = field == any_value

-- The text is the address of one device, as the kernel writes it: it is read, no field is a
-- wildcard, and it is what the fields print as.
pub record IsFull (address : Text) : Type 0 where
  pub fields : PciAddress
  pub parsed : pci_address address ≡ ok fields
  pub domain : is_wild fields.domain ≡ false
  pub bus : is_wild fields.bus ≡ false
  pub slot : is_wild fields.slot ≡ false
  pub function : is_wild fields.function ≡ false
  pub printed : address ≡ printed_address fields

onto_head-one :
    (c : ℕ) (ws : List Text) (b : Text)
    → is_empty ws ≡ false
    → onto_head c ws ≡ b ∷ []
    → (w : Text) × (ws ≡ w ∷ []) × (c ∷ w ≡ b)
onto_head-one c [] b n h = cc
onto_head-one c (w ∷ []) b n h = (w, refl, cc)
onto_head-one c (w ∷ v ∷ ws) b n h = cc

onto_head-two :
    (c : ℕ) (ws : List Text) (a b : Text)
    → onto_head c ws ≡ a ∷ b ∷ []
    → (w : Text) × (ws ≡ w ∷ b ∷ []) × (c ∷ w ≡ a)
onto_head-two c [] a b h = cc
onto_head-two c (w ∷ []) a b h = cc
onto_head-two c (w ∷ v ∷ []) a b h = (w, cc, cc)
onto_head-two c (w ∷ v ∷ u ∷ ws) a b h = cc

one_piece : (sep : ℕ) (s b : Text) → split sep s ≡ b ∷ [] → s ≡ b
unfolding split
one_piece sep [] b h = cc
one_piece sep (c ∷ s) b h = elim (Bool-cases (char_eq c sep)) [
  | inl t ↦
      let k : [] ∷ split sep s ≡ b ∷ [] = sym (if_true (char_eq c sep) _ _ t) ∙ h in
      cc (k, split-nonempty sep s)
  | inr f ↦
      let (w, e, g) =
        onto_head-one c (split sep s) b (split-nonempty sep s)
          (sym (if_false (char_eq c sep) _ _ f) ∙ h) in
      ap (λ r. c ∷ r) (one_piece sep s w e) ∙ g
]

split_once-two :
    (sep : ℕ) (s a b : Text) → split sep s ≡ a ∷ b ∷ [] → split_once sep s ≡ some (a, b)
unfolding split split_once
split_once-two sep [] a b h = cc
split_once-two sep (c ∷ s) a b h = elim (Bool-cases (char_eq c sep)) [
  | inl t ↦
      let k : [] ∷ split sep s ≡ a ∷ b ∷ [] = sym (if_true (char_eq c sep) _ _ t) ∙ h in
      let tail : split sep s ≡ b ∷ [] = cc k in
      let head : [] ≡ a = cc k in rw t (ap some (λ i. (head i, one_piece sep s b tail i)))
  | inr f ↦
      let (w, e, g) =
        onto_head-two c (split sep s) a b (sym (if_false (char_eq c sep) _ _ f) ∙ h) in
      rw (f, split_once-two sep s w b e) (ap some (λ i. (g i, b)))
]

address_halves-ok :
    (a : Text) (halves : List Text) {p : PciAddress}
    → address_halves a halves ≡ ok p
    → (front : Text) × (function : Text) × (halves ≡ front ∷ function ∷ [])
      × (address_parts a function (split b':' front) ≡ ok p)
address_halves-ok a [] h = cc
address_halves-ok a (front ∷ []) h = cc
address_halves-ok a (front ∷ function ∷ []) h = (front, function, refl, h)
address_halves-ok a (front ∷ function ∷ x ∷ xs) h = cc

address_parts-ok :
    (a function : Text) (parts : List Text) {p : PciAddress}
    → address_parts a function parts ≡ ok p
    → (domain : Text) × (bus : Text) × (slot : Text) × (parts ≡ domain ∷ bus ∷ slot ∷ [])
      × (parse_fields domain bus slot function ≡ ok p)
address_parts-ok a function [] h = cc
address_parts-ok a function (x ∷ []) h = cc
address_parts-ok a function (x ∷ y ∷ []) h = cc
address_parts-ok a function (domain ∷ bus ∷ slot ∷ []) h = (domain, bus, slot, refl, h)
address_parts-ok a function (x ∷ y ∷ z ∷ u ∷ us) h = cc

-- A missing function is a wildcard in both readings.
parse_fields-or_any :
    (domain bus slot function : Text)
    → parse_fields domain bus slot (or_any function) ≡ parse_fields domain bus slot function
unfolding parse_fields parse_hex
parse_fields-or_any domain bus slot [] = refl
parse_fields-or_any domain bus slot (c ∷ s) = refl

glob_fields-full :
    (a front function domain bus slot : Text)
    → split b':' front ≡ domain ∷ bus ∷ slot ∷ []
    → glob_fields a front function ≡ parse_fields domain bus slot (or_any function)
unfolding split
glob_fields-full a [] function domain bus slot h = cc
glob_fields-full a (c ∷ s) function domain bus slot h =
    ap (λ parts. glob_parts a parts >>= λ (d, b, s). parse_fields d b s (or_any function)) h

-- An address that can be read is read in the same way as a pattern.
pub glob_spec-of_address : (a : Text) (p : PciAddress) → pci_address a ≡ ok p → glob_spec a ≡ ok p
unfolding pci_address glob_spec
glob_spec-of_address a p h =
    let (front, function, e, k) = address_halves-ok a (split b'.' a) h in
    let (domain, bus, slot, g, fields) = address_parts-ok a function (split b':' front) k in
    ap (glob_halves a) (split_once-two b'.' a front function e)
    ∙ glob_fields-full a front function domain bus slot g
    ∙ parse_fields-or_any domain bus slot function
    ∙ fields

admits-concrete :
    (value actual : Text) → is_wild value ≡ false → admits value actual ≡ true → value ≡ actual
admits-concrete value actual w h =
    eq_of_== value actual (sym (ap (λ b. b || (value == actual)) w) ∙ h)

and_both : (a b : Bool) → (a && b) ≡ true → (a ≡ true) × (b ≡ true)
and_both a b h = ground arith

-- A full address admits only itself.
pub glob_match-IsFull :
    (a b : Text) (full : IsFull a) (other : IsFull b)
    → glob_match full.fields other.fields ≡ true
    → a ≡ b
unfolding glob_match
glob_match-IsFull a b full other h =
    let (d, h1) = and_both _ _ h in
    let (u, h2) = and_both _ _ h1 in
    let (s, f) = and_both _ _ h2 in
    let domain = admits-concrete _ _ full.domain d in
    let bus = admits-concrete _ _ full.bus u in
    let slot = admits-concrete _ _ full.slot s in
    let function = admits-concrete _ _ full.function f in
    full.printed
    ∙ (λ i.
        printed_address
          (record { domain = domain i; bus = bus i; slot = slot i; function = function i }))
    ∙ sym other.printed
