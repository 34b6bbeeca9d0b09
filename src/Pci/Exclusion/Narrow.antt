-- ===== src/Pci/Exclusion/Narrow.antt =====
-- `apply_exclusion_list` of openstack_hypervisor/pci.py beside a description of its result, device
-- by device.
use mathlib.Core.List.{append_assoc, append-nil, map-append}
use snap_openstack_hyperviso.Base.{
  ◌≡◌, refl, sym, ap, ◌∙◌, Bool, true, false, not, ◌&&◌, ◌||◌, inl, inr, Option, some, List, [],
  ◌∷◌, ◌++◌, map, arith, if◌then◌else◌, ==_of_eq, contains, text_eq, keep_if, any, Bool-cases,
  Result, ok, err, >>=-eq-ok, ok-injective,
}
use snap_openstack_hyperviso.Base.Dict.{lookup, lookup-insert}
use snap_openstack_hyperviso.Base.Text.{Text, str}
use snap_openstack_hyperviso.Pci.DevSpec.{Spec, text, PciDeviceSpec, pci_device_spec, device_match}
use snap_openstack_hyperviso.Pci.Sysfs.{PciDevice}
use snap_openstack_hyperviso.Pci.Exclusion.{
  DeviceSpec, spec, not_dict, dev_dict, granular_spec, Granular, add_device, no_granular,
  scan_devices, apply_to_spec, apply_to_specs, apply_exclusion_list,
}

abbrev pub holds : Result Bool → Bool
holds (ok b) = b
holds (err c) = false

abbrev pub parsed_match : Result PciDeviceSpec → PciDevice → Bool
parsed_match (ok pci_spec) device = holds (device_match pci_spec (dev_dict device))
parsed_match (err c) device = false

-- A narrowed specification names the device's address, whatever address the original had.
pub granular_spec-address :
    (s : Spec) (d : PciDevice) → lookup (str "address") (granular_spec s d) ≡ some (text d.address)
unfolding granular_spec
granular_spec-address s d =
    lookup-insert (str "address") (str "address") (text d.address) _
    ∙ rw (==_of_eq (str "address") (str "address") refl)

or_true : (b : Bool) → (b || true) ≡ true
or_true true = refl
or_true false = refl

or_false : (b : Bool) → (b || false) ≡ b
or_false true = refl
or_false false = refl

module _ (compile : Text → Option (Text → Bool)) where
  -- The specification is valid and matches the device.
  unfoldable pub whitelists : Spec → PciDevice → Bool
  whitelists s device = parsed_match (pci_device_spec compile s) device

module _ (compile : Text → Option (Text → Bool)) (excluded : List Text)
    (devices : List PciDevice) where
  abbrev pub narrow_by : (PciDevice → Bool) → Spec → List Spec
  narrow_by m s =
      if any (λ d. m d && contains excluded d.address) devices
      then map (granular_spec s) (keep_if (λ d. m d && not (contains excluded d.address)) devices)
      else s ∷ []

  -- A specification that matches an excluded device becomes one for each other device that it
  -- matches; any other stays.
  abbrev pub narrow : Spec → List Spec
  narrow s = narrow_by (whitelists compile s) s

  abbrev pub narrow_all : List DeviceSpec → List DeviceSpec
  narrow_all [] = []
  narrow_all (spec s ∷ rest) = map spec (narrow s) ++ narrow_all rest
  narrow_all (not_dict t ∷ rest) = not_dict t ∷ narrow_all rest

  scanned : Spec → (PciDevice → Bool) → Granular → List PciDevice → Granular
  scanned s m g ds = record {
    specs =
        g.specs
        ++ map (granular_spec s) (keep_if (λ d. m d && not (contains excluded d.address)) ds);
    matched_excluded_devices =
        g.matched_excluded_devices || any (λ d. m d && contains excluded d.address) ds;
  }

  scanned-step :
      (s : Spec) (m : PciDevice → Bool) (g : Granular) (d : PciDevice) (ds : List PciDevice)
      (b : Bool)
      → m d ≡ b
      → scanned s m (add_device excluded s g d b) ds ≡ scanned s m g (d ∷ ds)
  unfolding scanned keep_if
  scanned-step s m g d ds false e = rw e refl
  scanned-step s m g d ds true e = elim (Bool-cases (contains excluded d.address)) [
    | inl x ↦
        rw (e, x)
          (λ i. record {
            specs =
                g.specs
                ++ map (granular_spec s)
                    (keep_if (λ d'. m d' && not (contains excluded d'.address)) ds);
            matched_excluded_devices = sym (or_true g.matched_excluded_devices) i;
          })
    | inr x ↦
        rw (e, x)
          (λ i. record {
            specs =
                append_assoc g.specs (granular_spec s d ∷ [])
                  (map (granular_spec s)
                    (keep_if (λ d'. m d' && not (contains excluded d'.address)) ds))
                  i;
            matched_excluded_devices =
                g.matched_excluded_devices || any (λ d'. m d' && contains excluded d'.address) ds;
          })
  ]

  scanned-nil : (s : Spec) (m : PciDevice → Bool) (g : Granular) → scanned s m g [] ≡ g
  unfolding scanned keep_if
  scanned-nil s m g = λ i. record {
    specs = append-nil g.specs i;
    matched_excluded_devices = or_false g.matched_excluded_devices i;
  }

  scan_devices-eq-scanned :
      (s : Spec) (ps : PciDeviceSpec) (g : Granular) (ds : List PciDevice) {g' : Granular}
      → scan_devices excluded s ps g ds ≡ ok g'
      → g' ≡ scanned s (λ d. holds (device_match ps (dev_dict d))) g ds
  unfolding scan_devices
  scan_devices-eq-scanned s ps g [] h =
      sym (ok-injective h) ∙ sym (scanned-nil s (λ d. holds (device_match ps (dev_dict d))) g)
  scan_devices-eq-scanned s ps g (d ∷ ds) h =
      let (b, e, k) =
        >>=-eq-ok (device_match ps (dev_dict d))
          (λ match. scan_devices excluded s ps (add_device excluded s g d match) ds) h in
      scan_devices-eq-scanned s ps (add_device excluded s g d b) ds k
      ∙ scanned-step s (λ d'. holds (device_match ps (dev_dict d'))) g d ds b (ap holds e)

  apply_to_spec-eq-narrow :
      (s : Spec) {out : List Spec}
      → apply_to_spec compile excluded devices (spec s) ≡ ok out
      → out ≡ narrow s
  unfolding apply_to_spec whitelists scanned
  apply_to_spec-eq-narrow s h =
      let (ps, e, h') = >>=-eq-ok (pci_device_spec compile s) _ h in
      let (g, e', h'') = >>=-eq-ok (scan_devices excluded s ps no_granular devices) _ h' in
      sym (ok-injective h'')
      ∙ ap (λ (g : Granular). if g.matched_excluded_devices then g.specs else s ∷ [])
          (scan_devices-eq-scanned s ps no_granular devices e')
      ∙ ap (λ r. narrow_by (parsed_match r) s) (sym e)

  not_dict-ne-ok :
      (t : Text) (rest : List DeviceSpec) (updated : List Spec) {out : List Spec}
      → ¬ (apply_to_specs compile excluded devices updated (not_dict t ∷ rest) ≡ ok out)
  unfolding apply_to_specs apply_to_spec
  not_dict-ne-ok t rest updated h = cc

  apply_to_specs-eq-narrow_all :
      (specs : List DeviceSpec) (updated : List Spec) {out : List Spec}
      → apply_to_specs compile excluded devices updated specs ≡ ok out
      → map spec out ≡ map spec updated ++ narrow_all specs
  unfolding apply_to_specs
  apply_to_specs-eq-narrow_all [] updated h =
      ap (map spec) (sym (ok-injective h)) ∙ sym (append-nil (map spec updated))
  apply_to_specs-eq-narrow_all (not_dict t ∷ rest) updated h =
      absurd (not_dict-ne-ok t rest updated h)
  apply_to_specs-eq-narrow_all (spec s ∷ rest) updated h =
      let (more, e, k) = >>=-eq-ok (apply_to_spec compile excluded devices (spec s)) _ h in
      apply_to_specs-eq-narrow_all rest (updated ++ more) k
      ∙ rw (map-append, apply_to_spec-eq-narrow s e)
          (append_assoc (map spec updated) (map spec (narrow s)) (narrow_all rest))

any-false : (ds : List PciDevice) (m : PciDevice → Bool) → any (λ d. m d && false) ds ≡ false
any-false [] m = refl
any-false (d ∷ ds) m = ground (arith, any-false ds m)

narrow_all-nil :
    (compile : Text → Option (Text → Bool)) (devices : List PciDevice) (specs : List DeviceSpec)
    → narrow_all compile [] devices specs ≡ specs
narrow_all-nil compile devices [] = refl
narrow_all-nil compile devices (spec s ∷ rest) =
    rw (any-false devices (whitelists compile s))
      (ap (λ r. spec s ∷ r) (narrow_all-nil compile devices rest))
narrow_all-nil compile devices (not_dict t ∷ rest) =
    ap (λ r. not_dict t ∷ r) (narrow_all-nil compile devices rest)

-- A list that `apply_exclusion_list` returns is the given one with each specification that matches
-- an excluded device replaced, in its place, by one for each other device that it matches, in the
-- devices' order. All other specifications stay.
pub apply_exclusion_list-eq-narrow_all :
    (compile : Text → Option (Text → Bool)) (excluded : List Text) (devices : List PciDevice)
    (specs : List DeviceSpec) {out : List DeviceSpec}
    → apply_exclusion_list compile specs excluded devices ≡ ok out
    → out ≡ narrow_all compile excluded devices specs
unfolding apply_exclusion_list
apply_exclusion_list-eq-narrow_all compile [] devices specs h =
    sym (ok-injective h) ∙ sym (narrow_all-nil compile devices specs)
apply_exclusion_list-eq-narrow_all compile (e ∷ es) devices specs h =
    let (updated, k, h') = >>=-eq-ok (apply_to_specs compile (e ∷ es) devices [] specs) _ h in
    sym (ok-injective h') ∙ apply_to_specs-eq-narrow_all compile (e ∷ es) devices specs [] k
