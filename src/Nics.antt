-- ===== src/Nics.antt =====
-- openstack_hypervisor/cli/pci_devices.py: the network interfaces that are candidates, and the form
-- of what the snap lists; and what openstack_hypervisor/pci.py reads of lspci.
pub mod Listing
pub mod Info
pub mod Complete
pub mod Whitelisted
use snap_openstack_hyperviso.Base.{
  ℕ, Bool, true, false, not, ◌&&◌, ◌||◌, Option, none, some, List, [], ◌∷◌, ◌++◌, map, any, keep_if,
  contains, if◌then◌else◌, ◌==◌, text_eq, option_eq, Result, ok, err, ◌>>=◌, value_error,
  file_not_found_error,
}
use snap_openstack_hyperviso.Base.Dict.{Dict, lookup, insert, or_default}
use snap_openstack_hyperviso.Base.Text.{
  Text, str, truthy, strip, split, split_once, starts_with, lower, char_eq,
}
use snap_openstack_hyperviso.Base.Hex.{Signed}
use snap_openstack_hyperviso.Base.Integer.{int}
use snap_openstack_hyperviso.Ovs.{Outcome}
use snap_openstack_hyperviso.Host.{host_outcome}
use snap_openstack_hyperviso.Pci.DevSpec.{
  Spec, Value, text, null, fields, other, DevDict, pci_device_spec, device_match,
}
use snap_openstack_hyperviso.Pci.Sysfs.{
  Sysfs, PciDevice, get_pci_address, get_pci_product_id, get_pci_vendor_id, get_physfn_address,
  is_sriov_capable, is_network_device, is_gpu_device, list_pci_devices,
}
use snap_openstack_hyperviso.Pci.Exclusion.{DeviceSpec, spec, not_dict, remove_0x}

-- An interface of pyroute2. `addresses` is that of each record of `ipaddr.summary()`.
pub record Interface : Type 0 where
  pub ifname : Text
  pub slave_kind : Option Text
  pub kind : Option Text
  pub addresses : Option (List Text)
  pub operstate : Text
  pub state : Text

unfoldable pub is_link_local : Text → Bool
unfolding starts_with
is_link_local address = starts_with address (str "fe80")

unfoldable pub is_interface_configured : Interface → Bool
unfolding is_link_local
is_interface_configured nic = elim (nic.addresses) [
  | none ↦ false
  | some addresses ↦ any (λ ip. truthy ip && not (is_link_local ip)) addresses
]

unfoldable pub is_nic_connected : Interface → Bool
unfolding lower
is_nic_connected nic = lower nic.operstate == str "up"

unfoldable pub is_nic_up : Interface → Bool
unfolding lower
is_nic_up nic = lower nic.state == str "up"

-- The tests of the loop, with the names of the virtual interfaces.
unfoldable pub is_candidate : List Text → Interface → Bool
is_candidate virtual_nics nic =
    if nic.slave_kind == some (str "bond")
    then false
    else if contains virtual_nics nic.ifname
    then nic.kind == some (str "bond") || nic.kind == some (str "vlan")
    else true

unfoldable pub filter_candidate_nics : List Text → List Interface → List Text
unfolding is_candidate keep_if
filter_candidate_nics virtual_nics nics =
    map (λ n. n.ifname) (keep_if (is_candidate virtual_nics) nics)

-- What lspci says of a device; `none` for a line that is not there.
pub record Description : Type 0 where
  pub class_name : Option Text
  pub vendor_name : Option Text
  pub device_name : Option Text
  pub subsystem_vendor_name : Option Text
  pub subsystem_device_name : Option Text

abbrev add_line : Dict Text Text → Option (Text × Text) → Dict Text Text
add_line raw_dict none = raw_dict
add_line raw_dict (some (key, val)) = insert key val raw_dict

-- The loop over the lines; a line with no colon says nothing.
unfoldable pub raw_description : Dict Text Text → List Text → Dict Text Text
unfolding split_once insert
raw_description raw_dict [] = raw_dict
raw_description raw_dict (line ∷ rest) =
    raw_description (add_line raw_dict (split_once b':' line)) rest

-- `replace("\t", "")`
abbrev without_tabs : Text → Text
without_tabs [] = []
without_tabs (c ∷ s) = if char_eq c 9 then without_tabs s else c ∷ without_tabs s

unfoldable pub parse_description : Text → Description
unfolding raw_description split lookup
parse_description stdout =
    let raw_dict = raw_description [] (split b'\n' (without_tabs stdout)) in
    record {
      class_name = lookup (str "Class") raw_dict;
      vendor_name = lookup (str "Vendor") raw_dict;
      device_name = lookup (str "Device") raw_dict;
      subsystem_vendor_name = lookup (str "SVendor") raw_dict;
      subsystem_device_name = lookup (str "SDevice") raw_dict;
    }

-- A device that lspci fails on has the empty texts as its names.
abbrev pub described : Result Text → Description
described (ok stdout) = parse_description stdout
described (err c) = record {
  class_name = some [];
  vendor_name = some [];
  device_name = some [];
  subsystem_vendor_name = some [];
  subsystem_device_name = some [];
}

-- `PciDeviceOutput` and the fields that `InterfaceOutput` has of its PCI device.
pub record PciInfo : Type 0 where
  pub sriov_available : Bool
  pub sriov_totalvfs : Signed
  pub sriov_numvfs : Signed
  pub pci_address : Text
  pub product_id : Text
  pub vendor_id : Text
  pub pf_pci_address : Text
  pub class_name : Text
  pub vendor_name : Text
  pub product_name : Text
  pub subsystem_vendor_name : Option Text
  pub subsystem_product_name : Option Text
  pub pci_physnet : Option Text
  pub pci_whitelisted : Bool

abbrev pub no_vfs : Signed
no_vfs = record { negative = false; magnitude = 0 }

-- The defaults of the fields; that of `pci_whitelisted` is the empty text, which counts as false.
abbrev pub no_pci_info : PciInfo
no_pci_info = record {
  sriov_available = false;
  sriov_totalvfs = no_vfs;
  sriov_numvfs = no_vfs;
  pci_address = [];
  product_id = [];
  vendor_id = [];
  pf_pci_address = [];
  class_name = [];
  vendor_name = [];
  product_name = [];
  subsystem_vendor_name = some [];
  subsystem_product_name = some [];
  pci_physnet = none;
  pci_whitelisted = false;
}

pub record InterfaceOutput : Type 0 where
  pub name : Text
  pub configured : Bool
  pub up : Bool
  pub connected : Bool
  pub hw_offload_available : Bool
  pub info : PciInfo

-- A field of type `str` does not take `None`.
abbrev pub required : Option Text → Result Text
required none = err (value_error (str "Input should be a valid string"))
required (some t) = ok t
