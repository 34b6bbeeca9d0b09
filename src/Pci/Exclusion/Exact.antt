-- ===== src/Pci/Exclusion/Exact.antt =====
-- What a list that `apply_exclusion_list` of openstack_hypervisor/pci.py returns matches: no excluded
-- device of the machine, when the addresses of the devices are full ones. As in that function, a
-- device is matched without the address of its parent.
use snap_openstack_hyperviso.Base.{
  ◌≡◌, sym, ap, ◌∙◌, Bool, true, false, not, ◌&&◌, Option, some, List, [], ◌∷◌, map, arith,
  contains, text_eq, keep_if, any, All, All-append, Bool-cases, inl, inr, Result, ok, err, ◌>>=◌,
  >>=-eq-ok, ok-injective, err-ne-ok, Result-cases,
}
use snap_openstack_hyperviso.Base.Dict.{lookup}
use snap_openstack_hyperviso.Base.Text.{Text, str}
use snap_openstack_hyperviso.Pci.DevSpec.{
  Spec, text, PciDeviceSpec, glob, glob_spec, address_spec, pci_device_spec, pci_address,
  spec_match, own_match, address_match, device_match, parse_id,
}
use snap_openstack_hyperviso.Pci.Sysfs.{PciDevice}
use snap_openstack_hyperviso.Pci.Exclusion.{
  DeviceSpec, spec, not_dict, dev_dict, granular_spec, apply_exclusion_list,
}
use snap_openstack_hyperviso.Pci.Exclusion.Narrow.{
  holds, parsed_match, whitelists, narrow, narrow_all, granular_spec-address,
  apply_exclusion_list-eq-narrow_all,
}
use snap_openstack_hyperviso.Pci.Exclusion.Address.{IsFull, glob_spec-of_address, glob_match-IsFull}

and_both : (a b : Bool) → (a && b) ≡ true → (a ≡ true) × (b ≡ true)
and_both a b h = ground arith

and_not : (a b : Bool) → (a && not b) ≡ true → b ≡ false
and_not a b h = ground arith

-- Every device has a full address.
abbrev pub FullAddresses : List PciDevice → Type 0
FullAddresses devices = All (λ d. IsFull d.address) devices

module _ (compile : Text → Option (Text → Bool)) where
  address_spec-full :
      (a : Text) (full : IsFull a) → address_spec compile (some (text a)) ≡ ok (glob full.fields)
  unfolding glob_spec pci_address
  address_spec-full [] full = absurd (err-ne-ok full.parsed)
  address_spec-full (c ∷ s) full =
      ap (λ r. r >>= λ g. ok (glob g)) (glob_spec-of_address (c ∷ s) full.fields full.parsed)

  pci_device_spec-address :
      (s : Spec) {ps : PciDeviceSpec}
      → pci_device_spec compile s ≡ ok ps
      → address_spec compile (lookup (str "address") s) ≡ ok ps.address_spec
  unfolding pci_device_spec
  pci_device_spec-address s h =
      let (v, e, h1) = >>=-eq-ok (parse_id (lookup (str "vendor_id") s)) _ h in
      let (p, f, h2) = >>=-eq-ok (parse_id (lookup (str "product_id") s)) _ h1 in
      let (a, g, h3) = >>=-eq-ok (address_spec compile (lookup (str "address") s)) _ h2 in
      g ∙ ap ok (ap (λ (r : PciDeviceSpec). r.address_spec) (ok-injective h3))

  holds-ok : (r : Result Bool) → holds r ≡ true → r ≡ ok true
  holds-ok (ok b) h = ap ok h
  holds-ok (err c) h = cc

  device_match-own :
      (ps : PciDeviceSpec) (d : PciDevice)
      → holds (device_match ps (dev_dict d)) ≡ true
      → own_match ps d.address ≡ ok true
  unfolding device_match address_match
  device_match-own ps d h =
      let (b, e, k) = >>=-eq-ok (own_match ps d.address) _ (holds-ok _ h) in
      e ∙ ap ok (and_both _ b (and_both _ _ (ok-injective k)).1).1

  -- A specification with a full address matches the device of that address only.
  whitelists-address :
      (s : Spec) (a : Text) (full : IsFull a) (e : PciDevice) (other : IsFull e.address)
      → lookup (str "address") s ≡ some (text a)
      → whitelists compile s e ≡ true
      → a ≡ e.address
  unfolding whitelists own_match spec_match
  whitelists-address s a full e other named h = elim (Result-cases (pci_device_spec compile s)) [
    | inr (c, k) ↦ cc (sym (ap (λ r. parsed_match r e) k) ∙ h)
    | inl (ps, k) ↦
        let at : ps.address_spec ≡ glob full.fields = ok-injective (
          sym (pci_device_spec-address s k)
          ∙ ap (address_spec compile) named
          ∙ address_spec-full a full) in
        let own = device_match-own ps e (sym (ap (λ r. parsed_match r e) k) ∙ h) in
        glob_match-IsFull a e.address full other (
          ok-injective (
            sym (
              ap (λ r. r >>= λ q. ok (spec_match ps.address_spec q)) other.parsed
              ∙ ap (λ x. ok (spec_match x other.fields)) at)
            ∙ own))
  ]

-- The specification matches no device of the machine whose address is excluded.
abbrev pub RespectsExclusion :
    (Text → Option (Text → Bool)) → (Text → Bool) → List PciDevice → DeviceSpec → Type 0
RespectsExclusion compile excluded devices (not_dict t) = Unit
RespectsExclusion compile excluded devices (spec s) =
    All (λ d. excluded d.address ≡ true → whitelists compile s d ≡ false) devices

pub RespectsExclusion-weaken :
    (compile : Text → Option (Text → Bool)) (excluded fewer : Text → Bool)
    (devices : List PciDevice)
    → ((a : Text) → fewer a ≡ true → excluded a ≡ true)
    → (specs : List DeviceSpec) → All (RespectsExclusion compile excluded devices) specs
    → All (RespectsExclusion compile fewer devices) specs
RespectsExclusion-weaken compile excluded fewer devices f [] h = tt
RespectsExclusion-weaken compile excluded fewer devices f (not_dict t ∷ specs) (h, hs) =
    (tt, RespectsExclusion-weaken compile excluded fewer devices f specs hs)
RespectsExclusion-weaken compile excluded fewer devices f (spec s ∷ specs) (h, hs) =
    (each devices h, RespectsExclusion-weaken compile excluded fewer devices f specs hs)
  where
    each :
        (ds : List PciDevice)
        → All (λ d. excluded d.address ≡ true → whitelists compile s d ≡ false) ds
        → All (λ d. fewer d.address ≡ true → whitelists compile s d ≡ false) ds
    each [] k = tt
    each (d ∷ ds) (k, ks) = (λ e. k (f d.address e), each ds ks)

module _ (compile : Text → Option (Text → Bool)) (excluded : List Text) (devices : List PciDevice)
    (full : FullAddresses devices) where
  abbrev Respects : DeviceSpec → Type 0
  Respects s = RespectsExclusion compile (contains excluded) devices s

  none_matched :
      (m : PciDevice → Bool) (ds : List PciDevice)
      → any (λ d. m d && contains excluded d.address) ds ≡ false
      → All (λ d. contains excluded d.address ≡ true → m d ≡ false) ds
  none_matched m [] h = tt
  none_matched m (d ∷ ds) h = (λ e. ground (arith, h, e), none_matched m ds (ground (arith, h)))

  -- A narrowed specification matches the device that it names, which is not excluded.
  granular_spec-Respects :
      (s : Spec) (d : PciDevice)
      → IsFull d.address
      → contains excluded d.address ≡ false
      → (es : List PciDevice) → FullAddresses es
      → All
          (λ e.
            contains excluded e.address ≡ true → whitelists compile (granular_spec s d) e ≡ false)
          es
  granular_spec-Respects s d named kept [] others = tt
  granular_spec-Respects s d named kept (e ∷ es) (other, others) = (
    λ out. elim (Bool-cases (whitelists compile (granular_spec s d) e)) [
      | inr f ↦ f
      | inl t ↦
          let same : d.address ≡ e.address =
            whitelists-address compile (granular_spec s d) d.address named e other
              (granular_spec-address s d) t in
          cc (ap (contains excluded) same, kept, out)
    ],
    granular_spec-Respects s d named kept es others,
  )

  granular_specs-Respects :
      (s : Spec) (m : PciDevice → Bool) (ds : List PciDevice)
      → FullAddresses ds
      → All Respects (
          map spec
            (map (granular_spec s) (keep_if (λ d. m d && not (contains excluded d.address)) ds)))
  unfolding keep_if
  granular_specs-Respects s m [] h = tt
  granular_specs-Respects s m (d ∷ ds) (h, hs) =
      elim (Bool-cases (m d && not (contains excluded d.address))) [
        | inl t ↦ rw t (
          granular_spec-Respects s d h (and_not (m d) _ t) devices full,
          granular_specs-Respects s m ds hs,
        )
        | inr f ↦ rw f (granular_specs-Respects s m ds hs)
      ]

  narrow-Respects : (s : Spec) → All Respects (map spec (narrow compile excluded devices s))
  narrow-Respects s =
      elim (Bool-cases (any (λ d. whitelists compile s d && contains excluded d.address) devices)) [
        | inl t ↦ rw t (granular_specs-Respects s (whitelists compile s) devices full)
        | inr f ↦ rw f (none_matched (whitelists compile s) devices f, tt)
      ]

  narrow_all-Respects :
      (specs : List DeviceSpec) → All Respects (narrow_all compile excluded devices specs)
  narrow_all-Respects [] = tt
  narrow_all-Respects (spec s ∷ rest) =
      All-append Respects (map spec (narrow compile excluded devices s))
        (narrow_all compile excluded devices rest) (narrow-Respects s) (narrow_all-Respects rest)
  narrow_all-Respects (not_dict t ∷ rest) = (tt, narrow_all-Respects rest)

  -- If the devices of the machine have full addresses, no specification in a list that
  -- `apply_exclusion_list` returns matches a device whose address is excluded, by the device's own
  -- ids and address.
  pub apply_exclusion_list-RespectsExclusion :
      (specs : List DeviceSpec) {out : List DeviceSpec}
      → apply_exclusion_list compile specs excluded devices ≡ ok out
      → All (RespectsExclusion compile (contains excluded) devices) out
  apply_exclusion_list-RespectsExclusion specs h =
      rw (apply_exclusion_list-eq-narrow_all compile excluded devices specs h)
        (narrow_all-Respects specs)
