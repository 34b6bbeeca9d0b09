-- ===== src/Nics/Info.antt =====
-- What `_get_nic_pci_info` (openstack_hypervisor/cli/pci_devices.py) gives, if it gives something.
use snap_openstack_hyperviso.Base.{◌≡◌, sym, ap, Bool, Option, List, ok, >>=-eq-ok, ok-injective}
use snap_openstack_hyperviso.Base.Text.{Text}
use snap_openstack_hyperviso.Ovs.{Outcome}
use snap_openstack_hyperviso.Host.{host_outcome}
use snap_openstack_hyperviso.Pci.Sysfs.{
  Sysfs, get_pci_product_id, get_pci_vendor_id, get_physfn_address, is_sriov_capable,
}
use snap_openstack_hyperviso.Pci.Exclusion.{DeviceSpec}
use snap_openstack_hyperviso.Nics.{described, PciInfo, required}
use snap_openstack_hyperviso.Nics.Listing.{
  Whitelist, counter_if, get_sriov_totalvfs, get_sriov_numvfs, whitelisted_if, physnet_text,
  get_nic_pci_info,
}

module _ (fs : Sysfs) (lspci : Text → Outcome) (compile : Text → Option (Text → Bool))
    (specs : List DeviceSpec) where
  pub get_nic_pci_info-eq-ok :
      (address : Text) {info : PciInfo}
      → get_nic_pci_info fs lspci compile address specs ≡ ok info
      → (w : Whitelist) × (whitelisted_if fs lspci compile
            (get_pci_vendor_id fs address)
            (get_pci_product_id fs address)
            address
            (get_physfn_address fs address)
            specs
          ≡ ok w)
        × (info.pci_address ≡ address)
        × (info.pci_whitelisted ≡ w.0)
  unfolding get_nic_pci_info
  get_nic_pci_info-eq-ok address h =
      let (t, et, h1) =
        >>=-eq-ok (counter_if fs (is_sriov_capable fs address) (get_sriov_totalvfs fs address)) _
          h in
      let (n, en, h2) =
        >>=-eq-ok (counter_if fs (is_sriov_capable fs address) (get_sriov_numvfs fs address)) _
          h1 in
      let (w, ew, h3) =
        >>=-eq-ok
          (whitelisted_if fs lspci compile (get_pci_vendor_id fs address)
            (get_pci_product_id fs address) address (get_physfn_address fs address) specs)
          _ h2 in
      let (c, ec, h4) =
        >>=-eq-ok (required (described (host_outcome (lspci address))).class_name) _ h3 in
      let (v, ev, h5) =
        >>=-eq-ok (required (described (host_outcome (lspci address))).vendor_name) _ h4 in
      let (p, ep, h6) =
        >>=-eq-ok (required (described (host_outcome (lspci address))).device_name) _ h5 in
      let (x, ex, h7) = >>=-eq-ok (physnet_text w.1) _ h6 in
      let eq = ok-injective h7 in
      (w, ew, sym (ap (λ i. i.pci_address) eq), sym (ap (λ i. i.pci_whitelisted) eq))
