-- ===== src/Nics/Complete.antt =====
-- The list of network interfaces (openstack_hypervisor/cli/pci_devices.py) leaves no device out.
use mathlib.Core.Bool.{false≢true, true≢false}
use snap_openstack_hyperviso.Base.{
  ◌≡◌, refl, sym, ap, ◌∙◌, subst, Bool, true, ◌||◌, Option, List, [], ◌∷◌, ◌++◌, map, any, All,
  contains, contains-keep_if, if_true, if_false, ◌⊎◌, ◌==◌, ==_of_eq, eq_of_==, text_eq, Bool-cases,
  inl, inr, ok, >>=-eq-ok, ok-injective, arith,
}
use snap_openstack_hyperviso.Base.Text.{Text, truthy}
use snap_openstack_hyperviso.Ovs.{Outcome}
use snap_openstack_hyperviso.Pci.Sysfs.{
  Sysfs, PciDevice, get_pci_address, is_network_device, list_pci_devices,
}
use snap_openstack_hyperviso.Pci.Exclusion.{DeviceSpec}
use snap_openstack_hyperviso.Nics.{Interface, PciInfo, InterfaceOutput}
use snap_openstack_hyperviso.Nics.Info.{get_nic_pci_info-eq-ok}
use snap_openstack_hyperviso.Nics.Listing.{
  info_if, interface_output, list_interfaces, processed, is_missing, disconnected_output,
  list_disconnected, to_output_schema,
}

module _ (fs : Sysfs) (lspci : Text → Outcome) (compile : Text → Option (Text → Bool))
    (specs : List DeviceSpec) where
  abbrev pub Lists : List InterfaceOutput → Text → Type 0
  Lists outs address = any (λ o. o.info.pci_address == address) outs ≡ true

  info_if-address :
      (address : Text) {info : PciInfo}
      → info_if fs lspci compile address specs ≡ ok info
      → info.pci_address ≡ address
  info_if-address [] h = sym (ap (λ i. i.pci_address) (ok-injective h))
  info_if-address (c ∷ s) h =
      let (w, ew, address_eq, listed) = get_nic_pci_info-eq-ok fs lspci compile specs (c ∷ s) h in
      address_eq

  Lists-later :
      (o : InterfaceOutput) (outs : List InterfaceOutput) (a : Text)
      → Lists outs a
      → Lists (o ∷ outs) a
  Lists-later o outs a h = ground (arith, h)

  listed_first :
      (o : InterfaceOutput) (outs : List InterfaceOutput) (a b : Text) (c : Bool)
      → o.info.pci_address ≡ b
      → (a == b || c) ≡ true
      → (c ≡ true → Lists outs a)
      → Lists (o ∷ outs) a
  listed_first o outs a b c e h more = elim (Bool-cases (a == b)) [
    | inl t ↦ rw (==_of_eq o.info.pci_address a (e ∙ sym (eq_of_== a b t))) refl
    | inr f ↦ Lists-later o outs a (more (sym (ap (λ x. x || c) f) ∙ h))
  ]

  list_interfaces-Lists :
      (nics : List Interface) {outs : List InterfaceOutput}
      → list_interfaces fs lspci compile specs nics ≡ ok outs
      → (a : Text) → contains (map (λ n. get_pci_address fs n.ifname) nics) a ≡ true
      → Lists outs a
  unfolding list_interfaces
  list_interfaces-Lists [] h a m = absurd (false≢true m)
  list_interfaces-Lists (nic ∷ rest) h a m =
      let (info, e, h1) =
        >>=-eq-ok (info_if fs lspci compile (get_pci_address fs nic.ifname) specs) _ h in
      let (more, f, h2) = >>=-eq-ok (list_interfaces fs lspci compile specs rest) _ h1 in
      subst (λ os. Lists os a) (ok-injective h2)
        (listed_first (interface_output fs lspci compile nic info) more a
          (get_pci_address fs nic.ifname) _ (info_if-address (get_pci_address fs nic.ifname) e) m
          (list_interfaces-Lists rest f a))

  All-later :
      (o : InterfaceOutput) (outs : List InterfaceOutput) (known : List Text)
      (devices : List PciDevice)
      → All (λ d. is_missing fs lspci compile known d ≡ true → Lists outs d.address) devices
      → All (λ d. is_missing fs lspci compile known d ≡ true → Lists (o ∷ outs) d.address) devices
  All-later o outs known [] h = tt
  All-later o outs known (d ∷ ds) (h, hs) =
      ((λ m. Lists-later o outs d.address (h m)), All-later o outs known ds hs)

  list_disconnected-Lists :
      (known : List Text) (devices : List PciDevice) {outs : List InterfaceOutput}
      → list_disconnected fs lspci compile specs known devices ≡ ok outs
      → All (λ d. is_missing fs lspci compile known d ≡ true → Lists outs d.address) devices
  unfolding list_disconnected
  list_disconnected-Lists known [] h = tt
  list_disconnected-Lists known (device ∷ rest) h =
      elim (Bool-cases (is_missing fs lspci compile known device)) [
        | inl t ↦
            let (info, e, h1) =
              >>=-eq-ok (info_if fs lspci compile device.address specs) _
                (sym (if_true _ _ _ t) ∙ h) in
            let (more, f, h2) =
              >>=-eq-ok (list_disconnected fs lspci compile specs known rest) _ h1 in
            let o = disconnected_output fs lspci compile info in
            subst
              (λ os.
                All (λ d. is_missing fs lspci compile known d ≡ true → Lists os d.address)
                  (device ∷ rest))
              (ok-injective h2)
              (
                (λ m.
                    rw (==_of_eq info.pci_address device.address (info_if-address device.address e))
                      refl),
                All-later o more known rest (list_disconnected-Lists known rest f),
              )
        | inr f ↦ (
          (λ m. absurd (true≢false (sym m ∙ f))),
          list_disconnected-Lists known rest (sym (if_false _ _ _ f) ∙ h),
        )
      ]

  Lists-append-left : (xs ys : List InterfaceOutput) (a : Text) → Lists xs a → Lists (xs ++ ys) a
  Lists-append-left [] ys a h = absurd (false≢true h)
  Lists-append-left (x ∷ xs) ys a h = ground (arith, Lists-append-left xs ys a)

  Lists-append-right : (xs ys : List InterfaceOutput) (a : Text) → Lists ys a → Lists (xs ++ ys) a
  Lists-append-right [] ys a h = h
  Lists-append-right (x ∷ xs) ys a h = ground (arith, Lists-append-right xs ys a h)

  known-or-missing :
      (nics : List Interface) (device : PciDevice)
      → is_network_device device.pci_class ≡ true
      → (contains (map (λ n. get_pci_address fs n.ifname) nics) device.address ≡ true)
        ⊎ (is_missing fs lspci compile (processed fs lspci compile nics) device ≡ true)
  unfolding processed
  known-or-missing nics device h =
      elim (Bool-cases (contains (map (λ n. get_pci_address fs n.ifname) nics) device.address)) [
        | inl t ↦ inl t
        | inr f ↦ inr (
            rw
              (
                h,
                contains-keep_if truthy (map (λ n. get_pci_address fs n.ifname) nics)
                    device.address,
                f,
              )
              refl)
      ]

  All-listed :
      (nics : List Interface) (outs more : List InterfaceOutput) (devices : List PciDevice)
      → ((a : Text)
          → contains (map (λ n. get_pci_address fs n.ifname) nics) a ≡ true
          → Lists outs a)
      → All
          (λ d.
            is_missing fs lspci compile (processed fs lspci compile nics) d ≡ true
            → Lists more d.address)
          devices
      → All (λ d. is_network_device d.pci_class ≡ true → Lists (outs ++ more) d.address) devices
  All-listed nics outs more [] known missing = tt
  All-listed nics outs more (d ∷ ds) known (m, missing) = (
    (λ network. elim (known-or-missing nics d network) [
      | inl k ↦ Lists-append-left outs more d.address (known d.address k)
      | inr n ↦ Lists-append-right outs more d.address (m n)
    ]),
    All-listed nics outs more ds known missing,
  )

  -- The list of network interfaces, if there is one, has an entry for every network device of the
  -- machine, whether or not an interface belongs to it.
  pub to_output_schema-Lists :
      (nics : List Interface) {outs : List InterfaceOutput}
      → to_output_schema fs lspci compile specs nics ≡ ok outs
      → All (λ d. is_network_device d.pci_class ≡ true → Lists outs d.address) (list_pci_devices fs)
  unfolding to_output_schema
  to_output_schema-Lists nics h =
      let (connected, e, h1) = >>=-eq-ok (list_interfaces fs lspci compile specs nics) _ h in
      let (disconnected, f, h2) =
        >>=-eq-ok
          (list_disconnected fs lspci compile specs (processed fs lspci compile nics)
            (list_pci_devices fs))
          _ h1 in
      subst
        (λ os.
          All (λ d. is_network_device d.pci_class ≡ true → Lists os d.address)
            (list_pci_devices fs))
        (ok-injective h2)
        (All-listed nics connected disconnected (list_pci_devices fs) (list_interfaces-Lists nics e)
          (list_disconnected-Lists (processed fs lspci compile nics) (list_pci_devices fs) f))
