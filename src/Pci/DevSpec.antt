-- ===== src/Pci/DevSpec.antt =====
-- openstack_hypervisor/devspec.py: the specifications of Nova's PCI whitelist. The module `re` is
-- the parameter `compile`: it refuses a pattern, or tells which texts the pattern matches from
-- their start.
use snap_openstack_hyperviso.Base.{
  ℕ, Bool, true, ◌&&◌, ◌||◌, Option, none, some, List, [], ◌∷◌, ◌++◌, if◌then◌else◌, ◌==◌, text_eq,
  Result, ok, err, exception, attribute_error, ◌>>=◌,
}
use snap_openstack_hyperviso.Base.Dict.{Dict, lookup, or_default}
use snap_openstack_hyperviso.Base.Hex.{parse_int16, format_hex}
use snap_openstack_hyperviso.Base.Text.{Text, str, strip, split, split_once}

abbrev pub any_value : Text
any_value = str "*"

-- A value of a specification as JSON has it. `other` is a number, a list or `true`; where such a
-- value is 0, empty or `false`, the code reads it as `null`, which stands for it. The patterns of an
-- address are texts.
pub data Value : Type 0 where
  null : Value
  text : Text → Value
  fields : Dict Text Text → Value
  other : Text → Value

abbrev pub Spec : Type 0
Spec = Dict Text Value

abbrev pub or_any : Text → Text
or_any [] = any_value
or_any (c ∷ s) = c ∷ s

-- `_parse_hex`
unfoldable pub parse_hex : ℕ → Text → Result Text
unfolding strip parse_int16 format_hex
parse_hex width raw =
    let value = or_any (strip raw) in
    if value == any_value then ok value else elim (parse_int16 value) [
      | none ↦ err (exception (str "Invalid hexadecimal value: " ++ value))
      | some n ↦ ok (format_hex width n)
    ]

pub record PciAddress : Type 0 where
  pub domain : Text
  pub bus : Text
  pub slot : Text
  pub function : Text

abbrev pub invalid_address : {A : Type 0} → Text → Result A
invalid_address address = err (exception (str "Invalid address format: " ++ address))

-- The four parsers of the fields.
unfoldable pub parse_fields : Text → Text → Text → Text → Result PciAddress
unfolding parse_hex
parse_fields domain bus slot function = do
  d ← parse_hex 4 domain
  b ← parse_hex 2 bus
  s ← parse_hex 2 slot
  f ← parse_hex 1 function
  ok (record { domain = d; bus = b; slot = s; function = f })

abbrev pub address_parts : Text → Text → List Text → Result PciAddress
address_parts address function (domain ∷ bus ∷ slot ∷ []) = parse_fields domain bus slot function
address_parts address function _ = invalid_address address

abbrev pub address_halves : Text → List Text → Result PciAddress
address_halves address (domain_bus_slot ∷ function ∷ []) =
    address_parts address function (split b':' domain_bus_slot)
address_halves address _ = invalid_address address

-- `PciAddress(address)`
unfoldable pub pci_address : Text → Result PciAddress
unfolding parse_fields split
pci_address address = address_halves address (split b'.' address)

-- The parts of a partial address, from the right.
abbrev pub glob_parts : Text → List Text → Result (Text × Text × Text)
glob_parts address (slot ∷ []) = ok (any_value, any_value, slot)
glob_parts address (bus ∷ slot ∷ []) = ok (any_value, bus, slot)
glob_parts address (domain ∷ bus ∷ slot ∷ []) = ok (domain, bus, slot)
glob_parts address _ = invalid_address address

abbrev pub glob_fields : Text → Text → Text → Result PciAddress
glob_fields address [] function = parse_fields any_value any_value any_value (or_any function)
glob_fields address (c ∷ s) function = do
  (domain, bus, slot) ← glob_parts address (split b':' (c ∷ s))
  parse_fields domain bus slot (or_any function)

abbrev pub glob_halves : Text → Option (Text × Text) → Result PciAddress
glob_halves address none = glob_fields address address []
glob_halves address (some (domain_bus_slot, function)) =
    glob_fields address domain_bus_slot function

-- `PciAddressGlobSpec(address)`: a field that is not given is `*`.
unfoldable pub glob_spec : Text → Result PciAddress
unfolding parse_fields split split_once
glob_spec address = glob_halves address (split_once b'.' address)

-- `value in (ANY, actual)`
abbrev pub admits : Text → Text → Bool
admits value actual = value == any_value || value == actual

unfoldable pub glob_match : PciAddress → PciAddress → Bool
glob_match spec address =
    admits spec.domain address.domain
    && (admits spec.bus address.bus
        && (admits spec.slot address.slot && admits spec.function address.function))

pub record RegexSpec : Type 0 where
  pub domain_re : Text → Bool
  pub bus_re : Text → Bool
  pub slot_re : Text → Bool
  pub function_re : Text → Bool

unfoldable pub regex_match : RegexSpec → PciAddress → Bool
regex_match spec address =
    spec.domain_re address.domain
    && (spec.bus_re address.bus && (spec.slot_re address.slot && spec.function_re address.function))

pub data AddressSpec : Type 0 where
  glob : PciAddress → AddressSpec
  regex : RegexSpec → AddressSpec

unfoldable pub spec_match : AddressSpec → PciAddress → Bool
unfolding glob_match regex_match
spec_match (glob spec) address = glob_match spec address
spec_match (regex spec) address = regex_match spec address

pub record PciDeviceSpec : Type 0 where
  pub vendor_id : Text
  pub product_id : Text
  pub address_spec : AddressSpec

-- `_parse_vendor(dev_spec.get(key) or ANY)`
abbrev pub parse_id : Option Value → Result Text
parse_id none = parse_hex 4 any_value
parse_id (some null) = parse_hex 4 any_value
parse_id (some (text s)) = parse_hex 4 (or_any s)
parse_id (some (fields [])) = parse_hex 4 any_value
parse_id (some _) = err (attribute_error (str "strip"))

-- The dictionary of a device that is matched; the parent is left out or empty if there is none.
pub record DevDict : Type 0 where
  pub vendor_id : Text
  pub product_id : Text
  pub address : Text
  pub parent_addr : Text

module _ (compile : Text → Option (Text → Bool)) where
  abbrev compiled : Dict Text Text → Text → Result (Text → Bool)
  compiled address key = elim (compile (or_default (str ".*") (lookup key address))) [
    | none ↦ err (exception (str "Invalid address regexes"))
    | some p ↦ ok p
  ]

  -- `PciAddressRegexSpec(address)`
  unfoldable pub regex_spec : Dict Text Text → Result RegexSpec
  unfolding lookup
  regex_spec address = do
    d ← compiled address (str "domain")
    b ← compiled address (str "bus")
    s ← compiled address (str "slot")
    f ← compiled address (str "function")
    ok (record { domain_re = d; bus_re = b; slot_re = s; function_re = f })

  abbrev pub address_spec : Option Value → Result AddressSpec
  address_spec none = do g ← glob_spec (str "*:*:*.*"); ok (glob g)
  address_spec (some null) = do g ← glob_spec (str "*:*:*.*"); ok (glob g)
  address_spec (some (text [])) = do g ← glob_spec (str "*:*:*.*"); ok (glob g)
  address_spec (some (text (c ∷ s))) = do g ← glob_spec (c ∷ s); ok (glob g)
  address_spec (some (fields [])) = do g ← glob_spec (str "*:*:*.*"); ok (glob g)
  address_spec (some (fields (f ∷ fs))) = do r ← regex_spec (f ∷ fs); ok (regex r)
  address_spec (some (other s)) = invalid_address s

  -- `PciDeviceSpec(dev_spec)`
  unfoldable pub pci_device_spec : Spec → Result PciDeviceSpec
  unfolding lookup glob_spec regex_spec
  pci_device_spec dev_spec = do
    v ← parse_id (lookup (str "vendor_id") dev_spec)
    p ← parse_id (lookup (str "product_id") dev_spec)
    a ← address_spec (lookup (str "address") dev_spec)
    ok (record { vendor_id = v; product_id = p; address_spec = a })

-- `self.address_spec.match(PciAddress(address))`
unfoldable pub own_match : PciDeviceSpec → Text → Result Bool
unfolding spec_match pci_address
own_match spec address = do a ← pci_address address; ok (spec_match spec.address_spec a)

-- `_address_match`
unfoldable pub address_match : PciDeviceSpec → Text → Text → Result Bool
unfolding own_match
address_match spec address [] = own_match spec address
address_match spec address (c ∷ parent) = do
  matched ← own_match spec (c ∷ parent)
  (if matched then ok true else own_match spec address)

-- `PciDeviceSpec.match`: the addresses are read whether or not the ids match.
unfoldable pub device_match : PciDeviceSpec → DevDict → Result Bool
unfolding address_match
device_match spec dev = do
  a ← address_match spec dev.address dev.parent_addr
  ok (admits spec.vendor_id dev.vendor_id && (admits spec.product_id dev.product_id && a))
