-- ===== src/Pci/Exclusion.antt =====
-- `apply_exclusion_list` of openstack_hypervisor/pci.py.
pub mod Narrow
pub mod Exact
pub mod Address
use snap_openstack_hyperviso.Base.{
  Bool, true, false, ◌||◌, Option, none, some, List, [], ◌∷◌, ◌++◌, if◌then◌else◌, contains,
  text_eq, map, Result, ok, err, value_error, ◌>>=◌, ◌&&◌,
}
use snap_openstack_hyperviso.Base.Dict.{insert}
use snap_openstack_hyperviso.Base.Text.{Text, str, char_eq}
use snap_openstack_hyperviso.Pci.DevSpec.{
  Spec, Value, text, PciDeviceSpec, DevDict, pci_device_spec, device_match,
}
use snap_openstack_hyperviso.Pci.Sysfs.{PciDevice}

-- An element of the configured list: a dict, or something else, as it is printed.
pub data DeviceSpec : Type 0 where
  spec : Spec → DeviceSpec
  not_dict : Text → DeviceSpec

-- `s.replace("0x", "")`
unfoldable pub remove_0x : Text → Text
remove_0x [] = []
remove_0x (a ∷ []) = a ∷ []
remove_0x (a ∷ b ∷ s) =
    let skipped = remove_0x s in
    let kept = a ∷ remove_0x (b ∷ s) in if char_eq a b'0' && char_eq b b'x' then skipped else kept

abbrev pub dev_dict : PciDevice → DevDict
dev_dict device = record {
  vendor_id = remove_0x device.vendor_id;
  product_id = remove_0x device.product_id;
  address = device.address;
  parent_addr = [];
}

-- The specification narrowed to one device.
unfoldable pub granular_spec : Spec → PciDevice → Spec
unfolding insert
granular_spec dev_spec device = insert (str "address") (text device.address) (
    insert (str "product_id") (text device.product_id)
      (insert (str "vendor_id") (text device.vendor_id) dev_spec))

-- The variables of the loop over the devices.
pub record Granular : Type 0 where
  pub specs : List Spec
  pub matched_excluded_devices : Bool

abbrev pub add_device : List Text → Spec → Granular → PciDevice → Bool → Granular
add_device excluded dev_spec g device match =
    if match
    then if contains excluded device.address
      then record g { matched_excluded_devices = true }
      else record g { specs = g.specs ++ (granular_spec dev_spec device ∷ []) }
    else g

unfoldable pub scan_devices :
    List Text → Spec → PciDeviceSpec → Granular → List PciDevice → Result Granular
scan_devices excluded dev_spec pci_spec g [] = ok g
scan_devices excluded dev_spec pci_spec g (device ∷ rest) = do
  match ← device_match pci_spec (dev_dict device)
  scan_devices excluded dev_spec pci_spec (add_device excluded dev_spec g device match) rest

abbrev pub no_granular : Granular
no_granular = record { specs = []; matched_excluded_devices = false }

module _ (compile : Text → Option (Text → Bool)) where
  -- One round of the loop over the specifications.
  unfoldable pub apply_to_spec : List Text → List PciDevice → DeviceSpec → Result (List Spec)
  apply_to_spec excluded devices (not_dict printed) =
      err (value_error (str "Invalid device spec, expecting a dict: " ++ printed))
  apply_to_spec excluded devices (spec dev_spec) = do
    pci_spec ← pci_device_spec compile dev_spec
    g ← scan_devices excluded dev_spec pci_spec no_granular devices
    ok (if g.matched_excluded_devices then g.specs else dev_spec ∷ [])

  unfoldable pub apply_to_specs :
      List Text → List PciDevice → List Spec → List DeviceSpec → Result (List Spec)
  apply_to_specs excluded devices updated [] = ok updated
  apply_to_specs excluded devices updated (s ∷ rest) = do
    more ← apply_to_spec excluded devices s
    apply_to_specs excluded devices (updated ++ more) rest

  -- With no excluded device the list is returned as it is, whatever it holds.
  unfoldable pub apply_exclusion_list :
      List DeviceSpec → List Text → List PciDevice → Result (List DeviceSpec)
  apply_exclusion_list specs [] devices = ok specs
  apply_exclusion_list specs (e ∷ es) devices = do
    updated ← apply_to_specs (e ∷ es) devices [] specs
    ok (map spec updated)
