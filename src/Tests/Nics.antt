-- ===== src/Tests/Nics.antt =====
-- openstack_hypervisor/cli/pci_devices.py: the lists of devices at concrete inputs.
use snap_openstack_hyperviso.Base.{
  ◌≡◌, refl, Bool, true, false, Option, none, some, List, [], ◌∷◌, ◌++◌, ◌||◌, ◌&&◌, All, text_eq,
  ◌==◌, if◌then◌else◌, Result, ok,
}
use snap_openstack_hyperviso.Base.Text.{Text, str, truthy, strip, has_part}
use snap_openstack_hyperviso.Ovs.{Outcome, completed}
use snap_openstack_hyperviso.Pci.DevSpec.{text}
use snap_openstack_hyperviso.Pci.Sysfs.{
  Sysfs, is_network_device, list_pci_devices, get_pci_vendor_id, get_pci_product_id,
}
use snap_openstack_hyperviso.Pci.Exclusion.{DeviceSpec, spec}
use snap_openstack_hyperviso.Nics.{no_vfs, parse_description, Interface, PciInfo, InterfaceOutput}
use snap_openstack_hyperviso.Nics.Listing.{get_nic_pci_info, to_output_schema}
use snap_openstack_hyperviso.Nics.Complete.{Lists, to_output_schema-Lists}
use snap_openstack_hyperviso.Nics.Whitelisted.{AllSay, any_match, nic_dev, get_nic_pci_info-AllSay}

-- The file `name` of either device.
abbrev is_file : Text → Text → Bool
is_file name path = has_part (str "19.0/" ++ name) path || has_part (str "19.1/" ++ name) path

abbrev file : Text → Option Text
file path =
    if is_file (str "vendor") path
    then some (str "0x8086\n")
    else if is_file (str "device") path
    then some (str "0x1521\n")
    else if is_file (str "class") path
    then some (str "0x020000\n")
    else none

-- Two network devices with no virtual functions, of which eth0 is the first.
abbrev machine : Sysfs
machine = record {
  listdir = λ path. str "0000:00:19.0" ∷ str "0000:00:19.1" ∷ [];
  read_file = file;
  real_path = λ path.
      if path == str "/sys/class/net/eth0/device"
      then some (str "/sys/devices/pci0000:00/0000:00:19.0")
      else none;
}

abbrev lspci : Text → Outcome
lspci address = completed (str "Class:\tEthernet\nVendor:\tIntel\nDevice:\tI350\n")

abbrev no_regex : Text → Option (Text → Bool)
no_regex pattern = none

abbrev eth0 : Interface
eth0 = record {
  ifname = str "eth0";
  slave_kind = none;
  kind = none;
  addresses = some (str "fe80::1" ∷ []);
  operstate = str "UP";
  state = str "up";
}

abbrev specs : List DeviceSpec
specs = spec ((str "address", text (str "0000:00:19.1")) ∷ []) ∷ []

abbrev listed : Result (List InterfaceOutput)
listed = to_output_schema machine lspci no_regex specs (eth0 ∷ [])

abbrev outputs : Result (List InterfaceOutput) → List InterfaceOutput
outputs (ok outs) = outs
outputs _ = []

listed_test : listed ≡ ok (outputs listed)
unfolding to_output_schema text_eq parse_description
listed_test = refl

to_output_schema-Lists_example :
    All
      (λ d.
        is_network_device d.pci_class ≡ true
        → Lists machine lspci no_regex specs (outputs listed) d.address)
      (list_pci_devices machine)
to_output_schema-Lists_example =
    to_output_schema-Lists machine lspci no_regex specs (eth0 ∷ []) listed_test

abbrev info : PciInfo
info = record {
  sriov_available = false;
  sriov_totalvfs = no_vfs;
  sriov_numvfs = no_vfs;
  pci_address = str "0000:00:19.1";
  product_id = str "0x1521";
  vendor_id = str "0x8086";
  pf_pci_address = [];
  class_name = str "Ethernet";
  vendor_name = str "Intel";
  product_name = str "I350";
  subsystem_vendor_name = none;
  subsystem_product_name = none;
  pci_physnet = none;
  pci_whitelisted = true;
}

info_test : get_nic_pci_info machine lspci no_regex (str "0000:00:19.1") specs ≡ ok info
unfolding get_nic_pci_info text_eq has_part parse_description
info_test = refl

ids_test :
    (truthy (get_pci_vendor_id machine (str "0000:00:19.1"))
      && truthy (get_pci_product_id machine (str "0000:00:19.1")))
    ≡ true
unfolding get_pci_vendor_id get_pci_product_id text_eq has_part strip
ids_test = refl

get_nic_pci_info-AllSay_example :
    (matches : List Bool) × AllSay no_regex
      (nic_dev no_regex machine lspci (str "0000:00:19.1"))
      specs
      matches
    × (info.pci_whitelisted ≡ any_match no_regex matches)
get_nic_pci_info-AllSay_example =
    get_nic_pci_info-AllSay no_regex machine lspci (str "0000:00:19.1") specs ids_test info_test
