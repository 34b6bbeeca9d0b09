-- ===== src/Nics/Whitelisted.antt =====
-- Which PCI devices are said to be whitelisted (openstack_hypervisor/cli/pci_devices.py).
use snap_openstack_hyperviso.Base.{
  ◌≡◌, refl, sym, ap, ◌∙◌, Bool, true, false, ◌&&◌, ◌||◌, Option, List, [], ◌∷◌, any, none, if_true,
  ok, err-ne-ok, >>=-eq-ok, ok-injective,
}
use snap_openstack_hyperviso.Base.Text.{Text, truthy}
use snap_openstack_hyperviso.Ovs.{Outcome}
use snap_openstack_hyperviso.Pci.DevSpec.{
  Spec, PciDeviceSpec, DevDict, pci_device_spec, device_match,
}
use snap_openstack_hyperviso.Pci.Sysfs.{
  Sysfs, get_pci_product_id, get_pci_vendor_id, get_physfn_address,
}
use snap_openstack_hyperviso.Pci.Exclusion.{DeviceSpec, spec, not_dict, remove_0x}
use snap_openstack_hyperviso.Nics.{PciInfo}
use snap_openstack_hyperviso.Nics.Info.{get_nic_pci_info-eq-ok}
use snap_openstack_hyperviso.Nics.Listing.{Whitelist, add_match, match_specs, get_nic_pci_info}

module _ (compile : Text → Option (Text → Bool)) where
  -- The specification is read, and matching it with the device gives this.
  abbrev pub Says : DevDict → DeviceSpec → Bool → Type 0
  Says dev s match =
      (spec_dict : Spec) × (pci_spec : PciDeviceSpec) × (s ≡ spec spec_dict)
      × (pci_device_spec compile spec_dict ≡ ok pci_spec)
      × (device_match pci_spec dev ≡ ok match)

  abbrev pub AllSay : DevDict → List DeviceSpec → List Bool → Type 0
  AllSay dev [] [] = Unit
  AllSay dev (s ∷ specs) (m ∷ matches) = Says dev s m × AllSay dev specs matches
  AllSay dev _ _ = ⊥

  abbrev pub any_match : List Bool → Bool
  any_match matches = any (λ m. m) matches

  whitelisted-add_match :
      (spec_dict : Spec) (match : Bool) (w : Whitelist) (rest : Bool)
      → ((add_match spec_dict match w).0 || rest) ≡ (w.0 || (match || rest))
  whitelisted-add_match spec_dict true (true, ph) rest = refl
  whitelisted-add_match spec_dict true (false, ph) rest = refl
  whitelisted-add_match spec_dict false (b, ph) rest = refl

  match_specs-AllSay :
      (dev : DevDict) (w : Whitelist) (specs : List DeviceSpec) {out : Whitelist}
      → match_specs compile dev w specs ≡ ok out
      → (matches : List Bool) × AllSay dev specs matches × (out.0 ≡ (w.0 || any_match matches))
  unfolding match_specs
  match_specs-AllSay dev w [] h = ([], tt, ap (λ o. o.0) (sym (ok-injective h)) ∙ sym (||-end w.0))
    where
      ||-end : (b : Bool) → (b || false) ≡ b
      ||-end true = refl
      ||-end false = refl
  match_specs-AllSay dev w (not_dict printed ∷ rest) h = absurd (err-ne-ok h)
  match_specs-AllSay dev w (spec spec_dict ∷ rest) h =
      let (pci_spec, e, h1) = >>=-eq-ok (pci_device_spec compile spec_dict) _ h in
      let (match, f, h2) = >>=-eq-ok (device_match pci_spec dev) _ h1 in
      let (matches, says, eq) = match_specs-AllSay dev (add_match spec_dict match w) rest h2 in
      (
        match ∷ matches,
        ((spec_dict, pci_spec, refl, e, f), says),
        eq ∙ whitelisted-add_match spec_dict match w (any_match matches),
      )

  module _ (fs : Sysfs) (lspci : Text → Outcome) where
    -- The device as the specifications are matched with it.
    abbrev pub nic_dev : Text → DevDict
    nic_dev address = record {
      vendor_id = remove_0x (get_pci_vendor_id fs address);
      product_id = remove_0x (get_pci_product_id fs address);
      address = address;
      parent_addr = get_physfn_address fs address;
    }

    -- A device whose ids are known, and whose information is found, is whitelisted exactly if some
    -- specification matches it, by its own address or by that of its physical function; all of the
    -- specifications are then read and matched.
    pub get_nic_pci_info-AllSay :
        (address : Text) (specs : List DeviceSpec) {info : PciInfo}
        → (truthy (get_pci_vendor_id fs address) && truthy (get_pci_product_id fs address)) ≡ true
        → get_nic_pci_info fs lspci compile address specs ≡ ok info
        → (matches : List Bool) × AllSay (nic_dev address) specs matches
          × (info.pci_whitelisted ≡ any_match matches)
    get_nic_pci_info-AllSay address specs known h =
        let (w, ew, address_eq, listed) = get_nic_pci_info-eq-ok fs lspci compile specs address h in
        let (matches, says, eq) =
          match_specs-AllSay (nic_dev address) (false, none) specs
            (sym (if_true _ _ _ known) ∙ ew) in
        (matches, says, listed ∙ eq)
