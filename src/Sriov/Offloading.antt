-- ===== src/Sriov/Offloading.antt =====
-- The offloading flag that `_set_sriov_context` derives from the interfaces
-- (openstack_hypervisor/hooks.py).
use snap_openstack_hyperviso.Base.{
  ◌≡◌, ap, ◌∙◌, Bool, ◌&&◌, ◌||◌, Option, none, List, [], ◌∷◌, arith, if◌then◌else◌, ◌==◌, text_eq,
  any,
}
use snap_openstack_hyperviso.Base.Text.{Text, truthy}
use snap_openstack_hyperviso.Sriov.{
  Nic, Agent, add_nic, whitelisted_nics, parent_nics, whitelisted_parents, sriov_agent, no_agent,
}

-- The interface is the physical function at the address and offloads.
abbrev pub offloads_at : Text → Nic → Bool
offloads_at address pf = pf.pci_address == address && pf.hw_offload_available

-- The interface is whitelisted and offloads itself.
abbrev pub offloads : Nic → Bool
offloads nic = nic.pci_whitelisted && nic.hw_offload_available

-- The interface is a whitelisted virtual function of a physical function that offloads.
abbrev pub parent_offloads : List Nic → Nic → Bool
parent_offloads nics nic =
    (nic.pci_whitelisted && truthy nic.pf_pci_address) && any (offloads_at nic.pf_pci_address) nics

hw_offloading-whitelisted_nics :
    (a : Agent) (nics : List Nic)
    → (whitelisted_nics a nics).hw_offloading ≡ (a.hw_offloading || any offloads nics)
unfolding whitelisted_nics add_nic
hw_offloading-whitelisted_nics a [] = ground arith
hw_offloading-whitelisted_nics a (nic ∷ rest) =
    hw_offloading-whitelisted_nics
      (if nic.pci_whitelisted then add_nic a none nic.pci_physnet nic else a) rest
    ∙ ground arith

hw_offloading-parent_nics :
    (physnet : Option Text) (address : Text) (a : Agent) (nics : List Nic)
    → (parent_nics physnet address a nics).hw_offloading
      ≡ (a.hw_offloading || any (offloads_at address) nics)
unfolding parent_nics add_nic
hw_offloading-parent_nics physnet address a [] = ground arith
hw_offloading-parent_nics physnet address a (nic ∷ rest) =
    hw_offloading-parent_nics physnet address
      (if nic.pci_address == address then add_nic a physnet physnet nic else a) rest
    ∙ ground arith

hw_offloading-whitelisted_parents :
    (all_nics : List Nic) (a : Agent) (nics : List Nic)
    → (whitelisted_parents all_nics a nics).hw_offloading
      ≡ (a.hw_offloading || any (parent_offloads all_nics) nics)
unfolding whitelisted_parents
hw_offloading-whitelisted_parents all_nics a [] = ground arith
hw_offloading-whitelisted_parents all_nics a (nic ∷ rest) =
    hw_offloading-whitelisted_parents all_nics
      (if nic.pci_whitelisted && truthy nic.pf_pci_address
        then parent_nics nic.pci_physnet nic.pf_pci_address a all_nics
        else a)
      rest
    ∙ ground (arith, hw_offloading-parent_nics nic.pci_physnet nic.pf_pci_address a all_nics)

-- The flag is set exactly if some whitelisted interface offloads or some whitelisted virtual
-- function has a physical function, at its parent address, that offloads.
pub hw_offloading-sriov_agent :
    (nics : List Nic)
    → (sriov_agent nics).hw_offloading ≡ (any offloads nics || any (parent_offloads nics) nics)
unfolding sriov_agent
hw_offloading-sriov_agent nics =
    hw_offloading-whitelisted_parents nics (whitelisted_nics no_agent nics) nics
    ∙ ap (λ o. o || any (parent_offloads nics) nics) (hw_offloading-whitelisted_nics no_agent nics)
