-- ===== src/Pci/Sysfs.antt =====
-- openstack_hypervisor/pci.py: what is read from /sys/bus/pci, and the classes of devices.
use snap_openstack_hyperviso.Base.{
  Bool, ◌||◌, if◌then◌else◌, Option, none, some, List, [], ◌∷◌, ◌++◌, map,
}
use snap_openstack_hyperviso.Base.Dict.{is_some}
use snap_openstack_hyperviso.Base.Text.{Text, str, strip, split, starts_with, has_part}

-- The file system: the names in a directory, the text of a file, and the path that a symbolic
-- link resolves to. `none` says that there is no such file, or that it is no link.
pub record Sysfs : Type 0 where
  pub listdir : Text → List Text
  pub read_file : Text → Option Text
  pub real_path : Text → Option Text

abbrev device_path : Text → Text → Text
device_path address file = str "/sys/bus/pci/devices/" ++ (address ++ (str "/" ++ file))

abbrev stripped_or_empty : Option Text → Text
stripped_or_empty none = []
stripped_or_empty (some s) = strip s

-- The last piece of `path.split("/")`.
abbrev last_piece : List Text → Text
last_piece [] = []
last_piece (w ∷ []) = w
last_piece (w ∷ v ∷ ws) = last_piece (v ∷ ws)

-- `parts[-2]`: a resolved path starts with a slash, so it has two pieces at least.
abbrev second_last : List Text → Text
second_last [] = []
second_last (w ∷ []) = []
second_last (w ∷ v ∷ []) = w
second_last (w ∷ v ∷ u ∷ ws) = second_last (v ∷ u ∷ ws)

abbrev base_name : Option Text → Text
base_name none = []
base_name (some path) = last_piece (split b'/' path)

pub record PciDevice : Type 0 where
  pub address : Text
  pub product_id : Text
  pub vendor_id : Text
  pub physfn_address : Text
  pub pci_class : Text

module _ (fs : Sysfs) where
  unfoldable pub get_pci_product_id : Text → Text
  get_pci_product_id address = stripped_or_empty (fs.read_file (device_path address (str "device")))

  unfoldable pub get_pci_vendor_id : Text → Text
  get_pci_vendor_id address = stripped_or_empty (fs.read_file (device_path address (str "vendor")))

  unfoldable pub get_pci_class : Text → Text
  get_pci_class address = stripped_or_empty (fs.read_file (device_path address (str "class")))

  unfoldable pub is_sriov_capable : Text → Bool
  is_sriov_capable address = is_some (fs.read_file (device_path address (str "sriov_totalvfs")))

  -- The address of the physical function, empty for a device that is no virtual function.
  unfoldable pub get_physfn_address : Text → Text
  unfolding split
  get_physfn_address address = base_name (fs.real_path (device_path address (str "physfn")))

  -- The address of the device of a network interface (openstack_hypervisor/cli/pci_devices.py), empty
  -- if it is no PCI device.
  unfoldable pub get_pci_address : Text → Text
  unfolding split has_part
  get_pci_address ifname =
      device_piece (fs.real_path (str "/sys/class/net/" ++ (ifname ++ str "/device")))
    where
      device_piece : Option Text → Text
      device_piece none = []
      device_piece (some resolved_path) =
          let parts = split b'/' resolved_path in
          if has_part (str "virtio") (last_piece parts) then second_last parts else last_piece parts

  unfoldable pub list_pci_devices : List PciDevice
  unfolding get_pci_product_id get_pci_vendor_id get_physfn_address get_pci_class strip
  list_pci_devices = map device (fs.listdir (str "/sys/bus/pci/devices/"))
    where
      device : Text → PciDevice
      device address = record {
        address = address;
        product_id = get_pci_product_id address;
        vendor_id = get_pci_vendor_id address;
        physfn_address = get_physfn_address address;
        pci_class = get_pci_class address;
      }

unfoldable pub is_network_device : Text → Bool
unfolding starts_with
is_network_device pci_class = starts_with pci_class (str "0x02")

unfoldable pub is_display_device : Text → Bool
unfolding starts_with
is_display_device pci_class = starts_with pci_class (str "0x03")

unfoldable pub is_accelerator_device : Text → Bool
unfolding starts_with
is_accelerator_device pci_class = starts_with pci_class (str "0x1200")

unfoldable pub is_gpu_device : Text → Bool
unfolding is_display_device is_accelerator_device
is_gpu_device pci_class = is_display_device pci_class || is_accelerator_device pci_class
