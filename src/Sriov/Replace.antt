-- ===== src/Sriov/Replace.antt =====
-- What `process_whitelisted_sriov_pfs` excludes, and the whitelist of `_set_pci_context`
-- (openstack_hypervisor/hooks.py).
use snap_openstack_hyperviso.Base.{
  subst, eq_of_==, ◌≡◌, refl, sym, ap, ◌∙◌, Bool, true, false, not, ◌&&◌, ◌||◌, Option, none, some,
  List, [], ◌∷◌, ◌++◌, map, arith, if◌then◌else◌, ◌==◌, contains, contains-append, text_eq, any,
  All, Distinct, is_empty, Bool-cases, inl, inr, ok,
}
use snap_openstack_hyperviso.Base.Dict.{
  Dict, lookup, insert, lookup-insert, keys, contains-keys, is_some, insert-Distinct,
}
use snap_openstack_hyperviso.Base.Text.{Text, truthy}
use snap_openstack_hyperviso.Pci.Sysfs.{PciDevice}
use snap_openstack_hyperviso.Pci.Exclusion.{DeviceSpec}
use snap_openstack_hyperviso.Pci.Exclusion.Exact.{
  FullAddresses, RespectsExclusion-weaken, RespectsExclusion,
  apply_exclusion_list-RespectsExclusion,
}
use snap_openstack_hyperviso.Sriov.{
  Nic, Pf, find_pfs, append_vf, gather_vfs, vf_spec, Whitelist, replace_pfs,
  process_whitelisted_sriov_pfs, pci_whitelist,
}

-- The nic is a whitelisted physical function at the address; or a virtual function of it.
abbrev pub is_pf_at : Text → Nic → Bool
is_pf_at a nic =
    nic.pci_whitelisted && (nic.sriov_available && truthy nic.pci_address) && nic.pci_address == a

abbrev pub is_vf_of : Text → Nic → Bool
is_vf_of a nic = truthy nic.pf_pci_address && nic.pf_pci_address == a

abbrev has_vfs : Option Pf → Bool
has_vfs none = false
has_vfs (some pf) = not (is_empty pf.vfs)

-- What the first loop does with an interface.
abbrev found : Dict Text Pf → Nic → Dict Text Pf
found pfs nic =
    if nic.pci_whitelisted && (nic.sriov_available && truthy nic.pci_address)
    then insert nic.pci_address (record { physnet = nic.pci_physnet; vfs = [] }) pfs
    else pfs

lookup-found :
    (a : Text) (pfs : Dict Text Pf) (nic : Nic)
    → lookup a (found pfs nic) ≡ (
        if is_pf_at a nic
        then some (record { physnet = nic.pci_physnet; vfs = [] })
        else lookup a pfs)
lookup-found a pfs nic =
    ground
      (arith, lookup-insert a nic.pci_address (record { physnet = nic.pci_physnet; vfs = [] }) pfs)

is_some-find_pfs :
    (a : Text) (pfs : Dict Text Pf) (nics : List Nic)
    → is_some (lookup a (find_pfs pfs nics)) ≡ (is_some (lookup a pfs) || any (is_pf_at a) nics)
unfolding find_pfs
is_some-find_pfs a pfs [] = ground arith
is_some-find_pfs a pfs (nic ∷ rest) =
    is_some-find_pfs a (found pfs nic) rest
    ∙ ap (λ o. is_some o || any (is_pf_at a) rest) (lookup-found a pfs nic)
    ∙ ground arith

has_vfs-find_pfs :
    (a : Text) (pfs : Dict Text Pf) (nics : List Nic)
    → has_vfs (lookup a pfs) ≡ false
    → has_vfs (lookup a (find_pfs pfs nics)) ≡ false
unfolding find_pfs
has_vfs-find_pfs a pfs [] h = h
has_vfs-find_pfs a pfs (nic ∷ rest) h =
    has_vfs-find_pfs a (found pfs nic) rest
      (ap has_vfs (lookup-found a pfs nic) ∙ ground (arith, h))

keys-find_pfs :
    (pfs : Dict Text Pf) (nics : List Nic)
    → Distinct (keys pfs)
    → Distinct (keys (find_pfs pfs nics))
unfolding find_pfs
keys-find_pfs pfs [] h = h
keys-find_pfs pfs (nic ∷ rest) h = keys-find_pfs (found pfs nic) rest (
    ground (
      arith,
      h,
      insert-Distinct nic.pci_address (record { physnet = nic.pci_physnet; vfs = [] }) pfs h,
    ))

-- What the second loop does with an interface.
abbrev gathered : Dict Text Pf → Nic → Dict Text Pf
gathered pfs nic =
    if truthy nic.pf_pci_address then append_vf nic (lookup nic.pf_pci_address pfs) pfs else pfs

keys-append_vf :
    (nic : Nic) (o : Option Pf) (pfs : Dict Text Pf)
    → Distinct (keys pfs)
    → Distinct (keys (append_vf nic o pfs))
keys-append_vf nic none pfs h = h
keys-append_vf nic (some pf) pfs h = insert-Distinct nic.pf_pci_address _ pfs h

lookup-same : (j k : Text) (pfs : Dict Text Pf) → (k == j) ≡ true → lookup j pfs ≡ lookup k pfs
lookup-same j k pfs h = ap (λ x. lookup x pfs) (sym (eq_of_== k j h))

is_empty-snoc : (xs : List Nic) (x : Nic) → is_empty (xs ++ (x ∷ [])) ≡ false
is_empty-snoc [] x = refl
is_empty-snoc (y ∷ xs) x = refl

or_and : (x y p q : Bool) → ((x || (y && p)) || (y && q)) ≡ (x || (y && (p || q)))
or_and x y p q = ground arith

or_true : (b : Bool) → true ≡ (b || true)
or_true true = refl
or_true false = refl

has_vfs-append_vf :
    (a : Text) (nic : Nic) (o : Option Pf) (pfs : Dict Text Pf)
    → lookup nic.pf_pci_address pfs ≡ o
    → has_vfs (lookup a (append_vf nic o pfs))
      ≡ (has_vfs (lookup a pfs) || (is_some (lookup a pfs) && (nic.pf_pci_address == a)))
has_vfs-append_vf a nic none pfs h = elim (Bool-cases (nic.pf_pci_address == a)) [
  | inl t ↦ ground (arith, lookup-same a nic.pf_pci_address pfs t, h, t)
  | inr f ↦ ground (arith, f)
]
has_vfs-append_vf a nic (some pf) pfs h = elim (Bool-cases (nic.pf_pci_address == a)) [
  | inl t ↦
      rw
        (
          lookup-insert a nic.pf_pci_address (record pf { vfs = pf.vfs ++ (nic ∷ []) }) pfs,
          t,
          lookup-same a nic.pf_pci_address pfs t,
          h,
          is_empty-snoc pf.vfs nic,
        )
        (or_true (not (is_empty pf.vfs)))
  | inr f ↦
      ground (
        arith,
        f,
        lookup-insert a nic.pf_pci_address (record pf { vfs = pf.vfs ++ (nic ∷ []) }) pfs,
      )
]

is_some-append_vf :
    (a : Text) (nic : Nic) (o : Option Pf) (pfs : Dict Text Pf)
    → lookup nic.pf_pci_address pfs ≡ o
    → is_some (lookup a (append_vf nic o pfs)) ≡ is_some (lookup a pfs)
is_some-append_vf a nic none pfs h = refl
is_some-append_vf a nic (some pf) pfs h = elim (Bool-cases (nic.pf_pci_address == a)) [
  | inl t ↦
      rw
        (
          lookup-insert a nic.pf_pci_address (record pf { vfs = pf.vfs ++ (nic ∷ []) }) pfs,
          t,
          lookup-same a nic.pf_pci_address pfs t,
          h,
        )
        refl
  | inr f ↦
      ground (
        arith,
        f,
        lookup-insert a nic.pf_pci_address (record pf { vfs = pf.vfs ++ (nic ∷ []) }) pfs,
      )
]

has_vfs-gathered :
    (a : Text) (pfs : Dict Text Pf) (nic : Nic)
    → has_vfs (lookup a (gathered pfs nic))
      ≡ (has_vfs (lookup a pfs) || (is_some (lookup a pfs) && is_vf_of a nic))
has_vfs-gathered a pfs nic =
    ground (arith, has_vfs-append_vf a nic (lookup nic.pf_pci_address pfs) pfs refl)

is_some-gathered :
    (a : Text) (pfs : Dict Text Pf) (nic : Nic)
    → is_some (lookup a (gathered pfs nic)) ≡ is_some (lookup a pfs)
is_some-gathered a pfs nic =
    ground (arith, is_some-append_vf a nic (lookup nic.pf_pci_address pfs) pfs refl)

has_vfs-gather_vfs :
    (a : Text) (pfs : Dict Text Pf) (nics : List Nic)
    → has_vfs (lookup a (gather_vfs pfs nics))
      ≡ (has_vfs (lookup a pfs) || (is_some (lookup a pfs) && any (is_vf_of a) nics))
unfolding gather_vfs
has_vfs-gather_vfs a pfs [] = ground arith
has_vfs-gather_vfs a pfs (nic ∷ rest) =
    has_vfs-gather_vfs a (gathered pfs nic) rest
    ∙ (rw (has_vfs-gathered a pfs nic, is_some-gathered a pfs nic)
        (or_and (has_vfs (lookup a pfs)) (is_some (lookup a pfs)) (is_vf_of a nic)
          (any (is_vf_of a) rest)))

keys-gather_vfs :
    (pfs : Dict Text Pf) (nics : List Nic)
    → Distinct (keys pfs)
    → Distinct (keys (gather_vfs pfs nics))
unfolding gather_vfs
keys-gather_vfs pfs [] h = h
keys-gather_vfs pfs (nic ∷ rest) h =
    keys-gather_vfs (gathered pfs nic) rest
      (ground (arith, keys-append_vf nic (lookup nic.pf_pci_address pfs) pfs h, h))

-- The list of exclusions after an entry.
abbrev replaced : Whitelist → Text → Pf → Whitelist
replaced w address pf = if is_empty pf.vfs then w else record {
  specs = w.specs ++ map (vf_spec pf.physnet) pf.vfs;
  excluded = w.excluded ++ (address ∷ []);
}

excluded-replaced :
    (a : Text) (w : Whitelist) (address : Text) (pf : Pf)
    → contains (replaced w address pf).excluded a
      ≡ (contains w.excluded a || ((address == a) && not (is_empty pf.vfs)))
excluded-replaced a w address pf = ground (arith, contains-append w.excluded (address ∷ []) a)

has_vfs-fresh : (o : Option Pf) → is_some o ≡ false → has_vfs o ≡ false
has_vfs-fresh none h = refl
has_vfs-fresh (some pf) h = ground (arith, h)

excluded-replace_pfs :
    (a : Text) (w : Whitelist) (pfs : Dict Text Pf)
    → Distinct (keys pfs)
    → contains (replace_pfs w pfs).excluded a ≡ (contains w.excluded a || has_vfs (lookup a pfs))
unfolding replace_pfs lookup keys
excluded-replace_pfs a w [] h = ground arith
excluded-replace_pfs a w ((address, pf) ∷ rest) (fresh, h) =
    excluded-replace_pfs a (replaced w address pf) rest h
    ∙ ap (λ x. x || has_vfs (lookup a rest)) (excluded-replaced a w address pf)
    ∙ elim (Bool-cases (address == a)) [
      | inl t ↦ rw t (
          ground (
            arith,
            has_vfs-fresh (lookup a rest) (
                sym (contains-keys rest a)
                ∙ subst (λ x. contains (keys rest) x ≡ false) (eq_of_== address a t) fresh),
          ))
      | inr f ↦ ground (arith, f)
    ]

-- An address is excluded exactly if it was before, or if it is that of a whitelisted interface with
-- SR-IOV and some interface names it as the address of its physical function.
pub excluded-process_whitelisted_sriov_pfs :
    (a : Text) (nics : List Nic) (w : Whitelist)
    → contains (process_whitelisted_sriov_pfs nics w).excluded a
      ≡ (contains w.excluded a || (any (is_pf_at a) nics && any (is_vf_of a) nics))
unfolding process_whitelisted_sriov_pfs keys
excluded-process_whitelisted_sriov_pfs a nics w =
    let pfs = find_pfs [] nics in
    excluded-replace_pfs a w (gather_vfs pfs nics)
      (keys-gather_vfs pfs nics (keys-find_pfs [] nics tt))
    ∙ ap (λ x. contains w.excluded a || x)
        (has_vfs-gather_vfs a pfs nics
          ∙ rw (has_vfs-find_pfs a [] nics refl, is_some-find_pfs a [] nics) refl)

-- The address is to be kept from Nova: it was excluded, or it is that of a whitelisted interface with
-- SR-IOV which some interface names as its physical function.
abbrev pub to_exclude : List Nic → Whitelist → Text → Bool
to_exclude nics w a = contains w.excluded a || (any (is_pf_at a) nics && any (is_vf_of a) nics)

-- If the devices of the machine have full addresses, no specification of the whitelist that Nova is
-- given matches, by its own ids and address, a device whose address was excluded, or which is a
-- whitelisted interface with SR-IOV that some interface names as its physical function.
pub pci_whitelist-RespectsExclusion :
    (compile : Text → Option (Text → Bool)) (nics : List Nic) (devices : List PciDevice)
    (w : Whitelist) {out : List DeviceSpec}
    → FullAddresses devices
    → pci_whitelist compile nics devices w ≡ ok out
    → All (RespectsExclusion compile (to_exclude nics w) devices) out
unfolding pci_whitelist
pci_whitelist-RespectsExclusion compile nics devices w full h =
    let replaced = process_whitelisted_sriov_pfs nics w in
    RespectsExclusion-weaken compile (contains replaced.excluded) (to_exclude nics w) devices
      (λ a e. excluded-process_whitelisted_sriov_pfs a nics w ∙ e) _
      (apply_exclusion_list-RespectsExclusion compile replaced.excluded devices full replaced.specs
        h)
