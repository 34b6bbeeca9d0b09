-- ===== src/Tests/Devices.antt =====
-- openstack_hypervisor/pci.py and the SR-IOV parts of openstack_hypervisor/hooks.py at concrete
-- inputs.
use snap_openstack_hyperviso.Base.{
  ◌≡◌, refl, Bool, true, false, ◌||◌, ◌&&◌, Option, none, some, List, [], ◌∷◌, All, any, text_eq,
  contains, ok,
}
use snap_openstack_hyperviso.Base.Dict.{lookup, insert}
use snap_openstack_hyperviso.Base.Text.{Text, str}
use snap_openstack_hyperviso.Pci.DevSpec.{
  PciAddress, pci_address, text, pci_device_spec, device_match,
}
use snap_openstack_hyperviso.Pci.Sysfs.{PciDevice}
use snap_openstack_hyperviso.Pci.Exclusion.{
  DeviceSpec, spec, remove_0x, granular_spec, scan_devices, apply_to_spec, apply_to_specs,
  apply_exclusion_list,
}
use snap_openstack_hyperviso.Pci.Exclusion.Narrow.{narrow_all, apply_exclusion_list-eq-narrow_all}
use snap_openstack_hyperviso.Pci.Exclusion.Address.{IsFull}
use snap_openstack_hyperviso.Pci.Exclusion.Exact.{
  RespectsExclusion, apply_exclusion_list-RespectsExclusion,
}
use snap_openstack_hyperviso.Sriov.{
  Nic, Whitelist, sriov_agent, process_whitelisted_sriov_pfs, pci_whitelist,
}
use snap_openstack_hyperviso.Sriov.Offloading.{offloads, parent_offloads, hw_offloading-sriov_agent}
use snap_openstack_hyperviso.Sriov.Replace.{
  is_pf_at, is_vf_of, to_exclude, excluded-process_whitelisted_sriov_pfs,
  pci_whitelist-RespectsExclusion,
}

abbrev no_patterns : Text → Option (Text → Bool)
no_patterns pattern = none

abbrev parent_address : Text
parent_address = str "0000:01:00.0"

abbrev child_address : Text
child_address = str "0000:01:00.1"

abbrev parent_device : PciDevice
parent_device = record {
  address = parent_address;
  product_id = str "0x1018";
  vendor_id = str "0x15b3";
  physfn_address = [];
  pci_class = str "0x020000";
}

abbrev child_device : PciDevice
child_device = record parent_device { address = child_address; physfn_address = parent_address }

abbrev by_vendor : List DeviceSpec
by_vendor = spec ((str "vendor_id", text (str "15b3")) ∷ []) ∷ []

abbrev only_child : List DeviceSpec
only_child =
    spec (
      (str "vendor_id", text (str "0x15b3"))
      ∷ (str "product_id", text (str "0x1018"))
      ∷ (str "address", text child_address)
      ∷ [])
    ∷ []

exclusion_test :
    apply_exclusion_list no_patterns by_vendor
      (parent_address ∷ [])
      (parent_device ∷ child_device ∷ [])
    ≡ ok only_child
unfolding apply_exclusion_list apply_to_specs apply_to_spec scan_devices pci_device_spec
    device_match granular_spec remove_0x text_eq lookup insert
exclusion_test = refl

apply_exclusion_list-eq-narrow_all_example :
    only_child
    ≡ narrow_all no_patterns (parent_address ∷ []) (parent_device ∷ child_device ∷ []) by_vendor
apply_exclusion_list-eq-narrow_all_example =
    apply_exclusion_list-eq-narrow_all no_patterns (parent_address ∷ [])
      (parent_device ∷ child_device ∷ []) by_vendor exclusion_test

abbrev fields_of : Text → PciAddress
fields_of function = record {
  domain = str "0000";
  bus = str "01";
  slot = str "00";
  function = function;
}

parent-IsFull : IsFull parent_address
unfolding pci_address text_eq
parent-IsFull = record {
  fields = fields_of (str "0");
  parsed = refl;
  domain = refl;
  bus = refl;
  slot = refl;
  function = refl;
  printed = refl;
}

child-IsFull : IsFull child_address
unfolding pci_address text_eq
child-IsFull = record {
  fields = fields_of (str "1");
  parsed = refl;
  domain = refl;
  bus = refl;
  slot = refl;
  function = refl;
  printed = refl;
}

apply_exclusion_list-RespectsExclusion_example :
    All
      (RespectsExclusion no_patterns
        (contains (parent_address ∷ []))
        (parent_device ∷ child_device ∷ []))
      only_child
apply_exclusion_list-RespectsExclusion_example =
    apply_exclusion_list-RespectsExclusion no_patterns (parent_address ∷ [])
      (parent_device ∷ child_device ∷ []) (parent-IsFull, (child-IsFull, tt)) by_vendor
      exclusion_test

abbrev parent_nic : Nic
parent_nic = record {
  name = str "eth0";
  pci_address = parent_address;
  product_id = str "0x1018";
  vendor_id = str "0x15b3";
  pci_whitelisted = true;
  sriov_available = true;
  hw_offload_available = true;
  pf_pci_address = [];
  pci_physnet = some (str "net1");
}

abbrev child_nic : Nic
child_nic = record parent_nic {
  name = str "eth0v0";
  pci_address = child_address;
  sriov_available = false;
  hw_offload_available = false;
  pf_pci_address = parent_address;
}

hw_offloading-sriov_agent_example : (sriov_agent (child_nic ∷ parent_nic ∷ [])).hw_offloading ≡ (
    any offloads (child_nic ∷ parent_nic ∷ [])
    || any (parent_offloads (child_nic ∷ parent_nic ∷ [])) (child_nic ∷ parent_nic ∷ []))
hw_offloading-sriov_agent_example = hw_offloading-sriov_agent (child_nic ∷ parent_nic ∷ [])

abbrev asked : Whitelist
asked = record { specs = by_vendor; excluded = [] }

excluded-process_whitelisted_sriov_pfs_example :
    contains
      (process_whitelisted_sriov_pfs (child_nic ∷ parent_nic ∷ []) asked).excluded
      parent_address
    ≡ (false
        || (any (is_pf_at parent_address) (child_nic ∷ parent_nic ∷ [])
            && any (is_vf_of parent_address) (child_nic ∷ parent_nic ∷ [])))
excluded-process_whitelisted_sriov_pfs_example =
    excluded-process_whitelisted_sriov_pfs parent_address (child_nic ∷ parent_nic ∷ []) asked

-- The child is given once by the vendor, and once as the physical function's.
abbrev child_twice : List DeviceSpec
child_twice =
    spec (
      (str "vendor_id", text (str "0x15b3"))
      ∷ (str "product_id", text (str "0x1018"))
      ∷ (str "address", text child_address)
      ∷ [])
    ∷ spec (
        (str "address", text child_address)
        ∷ (str "vendor_id", text (str "15b3"))
        ∷ (str "product_id", text (str "1018"))
        ∷ (str "physical_network", text (str "net1"))
        ∷ [])
    ∷ []

whitelist_test :
    pci_whitelist no_patterns
      (child_nic ∷ parent_nic ∷ [])
      (parent_device ∷ child_device ∷ [])
      asked
    ≡ ok child_twice
unfolding pci_whitelist apply_to_specs apply_to_spec scan_devices pci_device_spec device_match
    granular_spec remove_0x text_eq lookup insert
whitelist_test = refl

pci_whitelist-RespectsExclusion_example :
    All
      (RespectsExclusion no_patterns
        (to_exclude (child_nic ∷ parent_nic ∷ []) asked)
        (parent_device ∷ child_device ∷ []))
      child_twice
pci_whitelist-RespectsExclusion_example =
    pci_whitelist-RespectsExclusion no_patterns (child_nic ∷ parent_nic ∷ [])
      (parent_device ∷ child_device ∷ []) asked (parent-IsFull, (child-IsFull, tt)) whitelist_test
