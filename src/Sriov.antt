-- ===== src/Sriov.antt =====
-- openstack_hypervisor/hooks.py: what the `configure` hook derives from the network interfaces for
-- SR-IOV, and the PCI whitelist that it gives to Nova.
pub mod Replace
pub mod Offloading
use snap_openstack_hyperviso.Base.{
  Bool, true, false, not, ◌&&◌, ◌||◌, Option, none, some, List, [], ◌∷◌, ◌++◌, map, if◌then◌else◌,
  ◌==◌, text_eq, dedup, Result, ok, ◌>>=◌, is_empty,
}
use snap_openstack_hyperviso.Base.Dict.{Dict, lookup, insert, or_default}
use snap_openstack_hyperviso.Base.Text.{Text, str, truthy, given, join}
use snap_openstack_hyperviso.Pci.DevSpec.{Spec, Value, text, null}
use snap_openstack_hyperviso.Pci.Sysfs.{PciDevice}
use snap_openstack_hyperviso.Pci.Exclusion.{DeviceSpec, spec, remove_0x, apply_exclusion_list}

-- The fields of `InterfaceOutput` (openstack_hypervisor/cli/pci_devices.py) that the hook reads.
pub record Nic : Type 0 where
  pub name : Text
  pub pci_address : Text
  pub product_id : Text
  pub vendor_id : Text
  pub pci_whitelisted : Bool
  pub sriov_available : Bool
  pub hw_offload_available : Bool
  pub pf_pci_address : Text
  pub pci_physnet : Option Text

-- `physnet or nic.pci_physnet`
abbrev pub or_physnet : Option Text → Option Text → Option Text
or_physnet physnet other = if given physnet then physnet else other

-- `_should_sriov_agent_manage_nic`
unfoldable pub should_sriov_agent_manage_nic : Nic → Option Text → Bool
should_sriov_agent_manage_nic nic physnet =
    if not (truthy nic.name)
    then false
    else if not nic.sriov_available
    then false
    else if not (given (or_physnet physnet nic.pci_physnet))
    then false
    else not nic.hw_offload_available

-- The variables of `_set_sriov_context`.
pub record Agent : Type 0 where
  pub mappings : List Text
  pub hw_offloading : Bool

-- `f"{physnet}:{name}"`
unfoldable pub physnet_pair : Option Text → Text → Text
physnet_pair physnet name = or_default (str "None") physnet ++ (str ":" ++ name)

-- What a whitelisted device adds to the mappings and to the flag.
unfoldable pub add_nic : Agent → Option Text → Option Text → Nic → Agent
unfolding should_sriov_agent_manage_nic physnet_pair
add_nic a asked physnet nic = record {
  mappings =
      if should_sriov_agent_manage_nic nic asked
      then a.mappings ++ (physnet_pair physnet nic.name ∷ [])
      else a.mappings;
  hw_offloading = if nic.hw_offload_available then true else a.hw_offloading;
}

-- The first loop: the physical functions that are whitelisted.
unfoldable pub whitelisted_nics : Agent → List Nic → Agent
unfolding add_nic
whitelisted_nics a [] = a
whitelisted_nics a (nic ∷ rest) =
    whitelisted_nics (if nic.pci_whitelisted then add_nic a none nic.pci_physnet nic else a) rest

-- The inner loop: the physical function at the address, with the physnet of its virtual function.
unfoldable pub parent_nics : Option Text → Text → Agent → List Nic → Agent
unfolding add_nic
parent_nics physnet address a [] = a
parent_nics physnet address a (pf ∷ rest) =
    parent_nics physnet address
      (if pf.pci_address == address then add_nic a physnet physnet pf else a) rest

-- The second loop: the physical functions that have whitelisted virtual functions.
unfoldable pub whitelisted_parents : List Nic → Agent → List Nic → Agent
unfolding parent_nics
whitelisted_parents nics a [] = a
whitelisted_parents nics a (nic ∷ rest) =
    whitelisted_parents nics
      (if nic.pci_whitelisted && truthy nic.pf_pci_address
        then parent_nics nic.pci_physnet nic.pf_pci_address a nics
        else a)
      rest

abbrev pub no_agent : Agent
no_agent = record { mappings = []; hw_offloading = false }

unfoldable pub sriov_agent : List Nic → Agent
unfolding whitelisted_nics whitelisted_parents
sriov_agent nics = whitelisted_parents nics (whitelisted_nics no_agent nics) nics

-- A setting of the context's group `network`.
pub data Setting : Type 0 where
  text_setting : Text → Setting
  bool_setting : Bool → Setting

-- `_set_sriov_context`, on the group `network` of the context, which is empty if it is missing.
-- `enum` is the order in which Python visits the members of a set.
unfoldable pub set_sriov_context :
    (List Text → List Text) → List Nic → Dict Text Setting → Dict Text Setting
unfolding sriov_agent join
set_sriov_context enum nics network =
    let agent = sriov_agent nics in
    let mappings_str = join (str ",") (enum (dedup agent.mappings)) in
    insert (str "hw_offloading") (bool_setting agent.hw_offloading) (
      if truthy mappings_str
      then insert (str "sriov_nic_physical_device_mappings") (text_setting mappings_str) network
      else network)

-- An entry of `whitelisted_pfs`.
pub record Pf : Type 0 where
  pub physnet : Option Text
  pub vfs : List Nic

-- The loop that finds the whitelisted physical functions.
unfoldable pub find_pfs : Dict Text Pf → List Nic → Dict Text Pf
unfolding insert
find_pfs pfs [] = pfs
find_pfs pfs (nic ∷ rest) =
    find_pfs
      (if nic.pci_whitelisted && (nic.sriov_available && truthy nic.pci_address)
        then insert nic.pci_address (record { physnet = nic.pci_physnet; vfs = [] }) pfs
        else pfs)
      rest

abbrev pub append_vf : Nic → Option Pf → Dict Text Pf → Dict Text Pf
append_vf nic none pfs = pfs
append_vf nic (some pf) pfs =
    insert nic.pf_pci_address (record pf { vfs = pf.vfs ++ (nic ∷ []) }) pfs

-- The loop that gathers the virtual functions.
unfoldable pub gather_vfs : Dict Text Pf → List Nic → Dict Text Pf
unfolding insert lookup
gather_vfs pfs [] = pfs
gather_vfs pfs (nic ∷ rest) =
    gather_vfs
      (if truthy nic.pf_pci_address then append_vf nic (lookup nic.pf_pci_address pfs) pfs else pfs)
      rest

abbrev physnet_value : Option Text → Value
physnet_value none = null
physnet_value (some p) = text p

unfoldable pub vf_spec : Option Text → Nic → DeviceSpec
unfolding remove_0x
vf_spec physnet vf = spec (
    (str "address", text vf.pci_address)
    ∷ (str "vendor_id", text (remove_0x vf.vendor_id))
    ∷ (str "product_id", text (remove_0x vf.product_id))
    ∷ (str "physical_network", physnet_value physnet)
    ∷ [])

-- The two lists that `process_whitelisted_sriov_pfs` appends to.
pub record Whitelist : Type 0 where
  pub specs : List DeviceSpec
  pub excluded : List Text

-- The last loop: a physical function with virtual functions is excluded in favour of them.
unfoldable pub replace_pfs : Whitelist → Dict Text Pf → Whitelist
unfolding vf_spec
replace_pfs w [] = w
replace_pfs w ((pf_addr, pf) ∷ rest) =
    replace_pfs
      (if is_empty pf.vfs then w else record {
        specs = w.specs ++ map (vf_spec pf.physnet) pf.vfs;
        excluded = w.excluded ++ (pf_addr ∷ []);
      })
      rest

unfoldable pub process_whitelisted_sriov_pfs : List Nic → Whitelist → Whitelist
unfolding find_pfs gather_vfs replace_pfs
process_whitelisted_sriov_pfs nics w = replace_pfs w (gather_vfs (find_pfs [] nics) nics)

-- The whitelist that `_set_pci_context` computes.
unfoldable pub pci_whitelist :
    (Text → Option (Text → Bool)) → List Nic → List PciDevice → Whitelist → Result (List DeviceSpec)
unfolding process_whitelisted_sriov_pfs apply_exclusion_list
pci_whitelist compile nics devices w =
    let w' = process_whitelisted_sriov_pfs nics w in
    apply_exclusion_list compile w'.specs w'.excluded devices
