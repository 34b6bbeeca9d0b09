-- ===== src/Nics/Listing.antt =====
-- openstack_hypervisor/cli/pci_devices.py: the lists of network interfaces and of graphics cards, with
-- the SR-IOV counters of openstack_hypervisor/pci.py.
-- The parameters are the files of the system (`fs`), how `lspci -s address -vmm` ends (`lspci`), and
-- the module re (`compile`).
use snap_openstack_hyperviso.Base.{
  Bool, true, false, not, ◌&&◌, Option, none, some, List, [], ◌∷◌, ◌++◌, map, keep_if, contains,
  if◌then◌else◌, text_eq, option_eq, Result, ok, err, ◌>>=◌, value_error, file_not_found_error,
}
use snap_openstack_hyperviso.Base.Dict.{lookup}
use snap_openstack_hyperviso.Base.Text.{Text, str, truthy, strip, split}
use snap_openstack_hyperviso.Base.Hex.{Signed}
use snap_openstack_hyperviso.Base.Integer.{int}
use snap_openstack_hyperviso.Ovs.{Outcome}
use snap_openstack_hyperviso.Host.{host_outcome}
use snap_openstack_hyperviso.Pci.DevSpec.{
  Spec, Value, text, null, fields, other, DevDict, pci_device_spec, device_match,
}
use snap_openstack_hyperviso.Pci.Sysfs.{
  Sysfs, PciDevice, get_pci_address, get_pci_product_id, get_pci_vendor_id, get_physfn_address,
  is_sriov_capable, is_network_device, is_gpu_device, list_pci_devices,
}
use snap_openstack_hyperviso.Pci.Exclusion.{DeviceSpec, spec, not_dict, remove_0x}
use snap_openstack_hyperviso.Nics.{
  Interface, is_interface_configured, is_nic_connected, is_nic_up, described, PciInfo, no_vfs,
  no_pci_info, InterfaceOutput, required,
}

abbrev first_line : List Text → Text
first_line [] = []
first_line (l ∷ ls) = l

-- A physnet of a specification, as a condition.
abbrev pub value_truthy : Option Value → Bool
value_truthy none = false
value_truthy (some null) = false
value_truthy (some (text t)) = truthy t
value_truthy (some (fields [])) = false
value_truthy (some (fields (f ∷ fs))) = true
value_truthy (some (other t)) = true

-- `pci_physnet` is a text or `None`.
abbrev pub physnet_text : Option Value → Result (Option Text)
physnet_text none = ok none
physnet_text (some null) = ok none
physnet_text (some (text t)) = ok (some t)
physnet_text (some v) = err (value_error (str "Input should be a valid string"))

-- `pci_whitelisted` and `pci_physnet`.
abbrev pub Whitelist : Type 0
Whitelist = Bool × Option Value

abbrev pub add_match : Spec → Bool → Whitelist → Whitelist
add_match spec_dict match (whitelisted, physnet) =
    if match
    then (true, if value_truthy physnet then physnet else lookup (str "physical_network") spec_dict)
    else (whitelisted, physnet)

module _ (compile : Text → Option (Text → Bool)) where
  -- The loop over the specifications.
  unfoldable pub match_specs : DevDict → Whitelist → List DeviceSpec → Result Whitelist
  unfolding pci_device_spec device_match lookup
  match_specs dev w [] = ok w
  match_specs dev w (not_dict printed ∷ rest) =
      err (value_error (str "Invalid device spec, expecting a dict: " ++ printed))
  match_specs dev w (spec spec_dict ∷ rest) = do
    pci_spec ← pci_device_spec compile spec_dict
    match ← device_match pci_spec dev
    match_specs dev (add_match spec_dict match w) rest

module _ (fs : Sysfs) where
  -- The line is read to its end; what follows it is not.
  unfoldable pub is_hw_offload_available : Text → Bool
  unfolding split strip
  is_hw_offload_available ifname =
      elim (fs.read_file (str "/sys/class/net/" ++ (ifname ++ str "/phys_port_name"))) [
        | none ↦ false
        | some contents ↦ truthy (strip (first_line (split b'\n' contents)))
      ]

  -- A counter of a device: `int(read_data.strip())`.
  unfoldable pub sriov_counter : Text → Text → Result Signed
  unfolding strip int
  sriov_counter file address =
      elim (fs.read_file (str "/sys/bus/pci/devices/" ++ (address ++ (str "/" ++ file)))) [
        | none ↦ err (file_not_found_error (str "No such file or directory"))
        | some read_data ↦ int (strip read_data)
      ]

  abbrev pub get_sriov_totalvfs : Text → Result Signed
  get_sriov_totalvfs address = sriov_counter (str "sriov_totalvfs") address

  abbrev pub get_sriov_numvfs : Text → Result Signed
  get_sriov_numvfs address = sriov_counter (str "sriov_numvfs") address

  abbrev pub counter_if : Bool → Result Signed → Result Signed
  counter_if sriov_available counter = if sriov_available then counter else ok no_vfs

  module _ (lspci : Text → Outcome) (compile : Text → Option (Text → Bool)) where
    -- The device is looked for in the specifications if its ids are known.
    abbrev pub whitelisted_if : Text → Text → Text → Text → List DeviceSpec → Result Whitelist
    whitelisted_if vendor product address parent specs =
        if truthy vendor && truthy product
        then match_specs compile
            (record {
              vendor_id = remove_0x vendor;
              product_id = remove_0x product;
              address = address;
              parent_addr = parent;
            })
            (false, none) specs
        else ok (false, none)

    -- `_get_nic_pci_info`, of an address that is not empty, with the fields of the output.
    unfoldable pub get_nic_pci_info : Text → List DeviceSpec → Result PciInfo
    unfolding is_sriov_capable sriov_counter get_pci_product_id get_pci_vendor_id get_physfn_address
        match_specs remove_0x
    get_nic_pci_info pci_address pci_spec_cfg = do
      let description = described (host_outcome (lspci pci_address))
      let sriov_available = is_sriov_capable fs pci_address
      let product_id = get_pci_product_id fs pci_address
      let vendor_id = get_pci_vendor_id fs pci_address
      let pf_pci_address = get_physfn_address fs pci_address
      totalvfs ← counter_if sriov_available (get_sriov_totalvfs pci_address)
      numvfs ← counter_if sriov_available (get_sriov_numvfs pci_address)
      whitelist ← whitelisted_if vendor_id product_id pci_address pf_pci_address pci_spec_cfg
      class_name ← required description.class_name
      vendor_name ← required description.vendor_name
      product_name ← required description.device_name
      physnet ← physnet_text whitelist.1
      ok (record {
        sriov_available = sriov_available;
        sriov_totalvfs = totalvfs;
        sriov_numvfs = numvfs;
        pci_address = pci_address;
        product_id = product_id;
        vendor_id = vendor_id;
        pf_pci_address = pf_pci_address;
        class_name = class_name;
        vendor_name = vendor_name;
        product_name = product_name;
        subsystem_vendor_name = description.subsystem_vendor_name;
        subsystem_product_name = description.subsystem_device_name;
        pci_physnet = physnet;
        pci_whitelisted = whitelist.0;
      })

    -- `_get_pci_info`: no parent, no counters and no physnet.
    unfoldable pub get_pci_info : Text → List DeviceSpec → Result PciInfo
    unfolding get_pci_product_id get_pci_vendor_id match_specs remove_0x
    get_pci_info pci_address pci_spec_cfg = do
      let description = described (host_outcome (lspci pci_address))
      let product_id = get_pci_product_id fs pci_address
      let vendor_id = get_pci_vendor_id fs pci_address
      whitelist ← whitelisted_if vendor_id product_id pci_address [] pci_spec_cfg
      class_name ← required description.class_name
      vendor_name ← required description.vendor_name
      product_name ← required description.device_name
      ok (record no_pci_info {
        pci_address = pci_address;
        product_id = product_id;
        vendor_id = vendor_id;
        class_name = class_name;
        vendor_name = vendor_name;
        product_name = product_name;
        subsystem_vendor_name = description.subsystem_vendor_name;
        subsystem_product_name = description.subsystem_device_name;
        pci_whitelisted = whitelist.0;
      })

    abbrev pub info_if : Text → List DeviceSpec → Result PciInfo
    info_if pci_address pci_spec_cfg =
        if truthy pci_address then get_nic_pci_info pci_address pci_spec_cfg else ok no_pci_info

    abbrev pub gpu_info_if : Text → List DeviceSpec → Result PciInfo
    gpu_info_if pci_address pci_spec_cfg =
        if truthy pci_address then get_pci_info pci_address pci_spec_cfg else ok no_pci_info

    abbrev pub interface_output : Interface → PciInfo → InterfaceOutput
    interface_output nic info = record {
      name = nic.ifname;
      configured = is_interface_configured nic;
      up = is_nic_up nic;
      connected = is_nic_connected nic;
      hw_offload_available = is_hw_offload_available nic.ifname;
      info = info;
    }

    -- The loop over the interfaces.
    unfoldable pub list_interfaces :
        List DeviceSpec → List Interface → Result (List InterfaceOutput)
    unfolding get_pci_address get_nic_pci_info is_interface_configured is_nic_up is_nic_connected
        is_hw_offload_available
    list_interfaces pci_spec_cfg [] = ok []
    list_interfaces pci_spec_cfg (nic ∷ rest) = do
      info ← info_if (get_pci_address fs nic.ifname) pci_spec_cfg
      more ← list_interfaces pci_spec_cfg rest
      ok (interface_output nic info ∷ more)

    -- `processed_pci_addresses`
    unfoldable pub processed : List Interface → List Text
    unfolding get_pci_address keep_if
    processed nics = keep_if truthy (map (λ n. get_pci_address fs n.ifname) nics)

    abbrev pub disconnected_output : PciInfo → InterfaceOutput
    disconnected_output info = record {
      name = [];
      configured = false;
      up = false;
      connected = false;
      hw_offload_available = false;
      info = info;
    }

    abbrev pub is_missing : List Text → PciDevice → Bool
    is_missing known device =
        is_network_device device.pci_class && not (contains known device.address)

    -- The loop over the devices that no interface belongs to.
    unfoldable pub list_disconnected :
        List DeviceSpec → List Text → List PciDevice → Result (List InterfaceOutput)
    unfolding is_network_device get_nic_pci_info
    list_disconnected pci_spec_cfg known [] = ok []
    list_disconnected pci_spec_cfg known (device ∷ rest) =
        if is_missing known device
        then (do
          info ← info_if device.address pci_spec_cfg
          more ← list_disconnected pci_spec_cfg known rest
          ok (disconnected_output info ∷ more))
        else list_disconnected pci_spec_cfg known rest

    unfoldable pub to_output_schema :
        List DeviceSpec → List Interface → Result (List InterfaceOutput)
    unfolding list_interfaces processed list_disconnected list_pci_devices
    to_output_schema pci_spec_cfg nics = do
      connected ← list_interfaces pci_spec_cfg nics
      disconnected ← list_disconnected pci_spec_cfg (processed nics) (list_pci_devices fs)
      ok (connected ++ disconnected)

    unfoldable pub list_gpu_infos : List DeviceSpec → List PciDevice → Result (List PciInfo)
    unfolding get_pci_info is_gpu_device
    list_gpu_infos pci_spec_cfg [] = ok []
    list_gpu_infos pci_spec_cfg (device ∷ rest) =
        if is_gpu_device device.pci_class
        then (do
          info ← gpu_info_if device.address pci_spec_cfg
          more ← list_gpu_infos pci_spec_cfg rest
          ok (info ∷ more))
        else list_gpu_infos pci_spec_cfg rest

    unfoldable pub to_output_schema_gpus : List DeviceSpec → Result (List PciInfo)
    unfolding list_gpu_infos list_pci_devices
    to_output_schema_gpus pci_spec_cfg = list_gpu_infos pci_spec_cfg (list_pci_devices fs)
