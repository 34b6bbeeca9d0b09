-- ===== src/Dpdk/Settled.antt =====
-- Taking interfaces over from Netplan a second time (openstack_hypervisor/hooks.py).
use mathlib.Core.Bool.{true≢false}
use snap_openstack_hyperviso.Base.{
  eq_of_==, Option-cases, ◌≡◌, subst, refl, sym, ap, ◌∙◌, Bool, true, false, some, List, [], ◌∷◌,
  All, if◌then◌else◌, Bool-cases, ◌==◌, text_eq, inl, inr, ◌⊎◌, arith,
}
use snap_openstack_hyperviso.Base.Dict.{lookup, insert, is_some, lookup-insert}
use snap_openstack_hyperviso.Base.Text.{Text, truthy}
use snap_openstack_hyperviso.Netplan.{Network}
use snap_openstack_hyperviso.Pci.Sysfs.{Sysfs, get_pci_address}
use snap_openstack_hyperviso.Dpdk.{
  PortInfo, Mappings, Plan, skip, as_port, as_member, plan_of, carry_out, process_iface,
  process_ifaces, process_dpdk_netplan_config,
}

insert-fresh :
    (m : Mappings) (iface p : Text) (new : PortInfo) {info : PortInfo}
    → is_some (lookup iface m.ports) ≡ false
    → lookup p m.ports ≡ some info
    → lookup p (insert iface new m.ports) ≡ some info
insert-fresh m iface p new fresh h =
    lookup-insert p iface new m.ports ∙ elim (Bool-cases (iface == p)) [
      | inl t ↦ absurd (
          true≢false (
            sym (
              subst (λ x. is_some (lookup x m.ports) ≡ true) (sym (eq_of_== iface p t))
                (ap is_some h))
            ∙ fresh))
      | inr f ↦ rw f h
    ]

insert-present :
    (m : Mappings) (iface : Text) (info : PortInfo)
    → is_some (lookup iface (insert iface info m.ports)) ≡ true
insert-present m iface info = rw (lookup-insert iface iface info m.ports) (ground arith)

module _ (fs : Sysfs) (net : Network) where
  -- Nothing is left to do for the interface: it is a port, it has no PCI address, or Netplan has no
  -- place for it.
  abbrev pub IsSettled : Mappings → Text → Type 0
  IsSettled m iface =
      (is_some (lookup iface m.ports) ≡ true)
      ⊎ ((truthy (get_pci_address fs iface) ≡ false) ⊎ (plan_of net iface ≡ skip))

  carry_out-lookup :
      (m : Mappings) (changed : Bool) (iface p : Text) (plan : Plan) {info : PortInfo}
      → is_some (lookup iface m.ports) ≡ false
      → lookup p m.ports ≡ some info
      → lookup p (carry_out fs net m changed iface plan).0.ports ≡ some info
  carry_out-lookup m changed iface p skip fresh h = h
  carry_out-lookup m changed iface p (as_port bond bridge) {info} fresh h =
      insert-fresh m iface p _ fresh h
  carry_out-lookup m changed iface p (as_member bond config bridge) fresh h =
      insert-fresh m iface p _ fresh h

  process_iface-lookup :
      (m : Mappings) (changed : Bool) (iface p : Text) {info : PortInfo}
      → lookup p m.ports ≡ some info
      → lookup p (process_iface fs net m changed iface).0.ports ≡ some info
  unfolding process_iface
  process_iface-lookup m changed iface p h = elim (Bool-cases (is_some (lookup iface m.ports))) [
    | inl t ↦ rw t h
    | inr f ↦ rw f (elim (Bool-cases (truthy (get_pci_address fs iface))) [
      | inl t ↦ rw t (carry_out-lookup m changed iface p (plan_of net iface) f h)
      | inr g ↦ rw g h
    ])
  ]

  process_ifaces-lookup :
      (m : Mappings) (changed : Bool) (ifaces : List Text) (p : Text) {info : PortInfo}
      → lookup p m.ports ≡ some info
      → lookup p (process_ifaces fs net m changed ifaces).0.ports ≡ some info
  unfolding process_ifaces
  process_ifaces-lookup m changed [] p h = h
  process_ifaces-lookup m changed (iface ∷ rest) p h =
      process_ifaces-lookup (process_iface fs net m changed iface).0
        (process_iface fs net m changed iface).1 rest p (process_iface-lookup m changed iface p h)

  -- A port that is known keeps its entry, whatever the configuration of Netplan has become.
  pub lookup-process_dpdk_netplan_config :
      (m : Mappings) (dpdk_ifaces : List Text) (p : Text) (info : PortInfo)
      → lookup p m.ports ≡ some info
      → lookup p (process_dpdk_netplan_config fs net m dpdk_ifaces).0.ports ≡ some info
  unfolding process_dpdk_netplan_config
  lookup-process_dpdk_netplan_config m dpdk_ifaces p info h =
      process_ifaces-lookup m false dpdk_ifaces p h

  is_some-process_ifaces :
      (m : Mappings) (changed : Bool) (ifaces : List Text) (p : Text)
      → is_some (lookup p m.ports) ≡ true
      → is_some (lookup p (process_ifaces fs net m changed ifaces).0.ports) ≡ true
  is_some-process_ifaces m changed ifaces p h = elim (Option-cases (lookup p m.ports)) [
    | inl n ↦ absurd (true≢false (sym h ∙ ap is_some n))
    | inr (info, e) ↦ ap is_some (process_ifaces-lookup m changed ifaces p e)
  ]

  carry_out-IsSettled :
      (m : Mappings) (changed : Bool) (iface : Text) (plan : Plan)
      → plan_of net iface ≡ plan
      → IsSettled (carry_out fs net m changed iface plan).0 iface
  carry_out-IsSettled m changed iface skip e = inr (inr e)
  carry_out-IsSettled m changed iface (as_port bond bridge) e = inl (insert-present m iface _)
  carry_out-IsSettled m changed iface (as_member bond config bridge) e =
      inl (insert-present m iface _)

  process_iface-known :
      (m : Mappings) (changed : Bool) (iface : Text)
      → is_some (lookup iface m.ports) ≡ true
      → process_iface fs net m changed iface ≡ (m, changed)
  unfolding process_iface
  process_iface-known m changed iface h = rw h refl

  process_iface-no_device :
      (m : Mappings) (changed : Bool) (iface : Text)
      → is_some (lookup iface m.ports) ≡ false
      → truthy (get_pci_address fs iface) ≡ false
      → process_iface fs net m changed iface ≡ (m, changed)
  unfolding process_iface
  process_iface-no_device m changed iface h g = rw (h, g) refl

  process_iface-new :
      (m : Mappings) (changed : Bool) (iface : Text)
      → is_some (lookup iface m.ports) ≡ false
      → truthy (get_pci_address fs iface) ≡ true
      → process_iface fs net m changed iface ≡ carry_out fs net m changed iface (plan_of net iface)
  unfolding process_iface
  process_iface-new m changed iface h t =
      rw h (
        ap (λ b. if b then carry_out fs net m changed iface (plan_of net iface) else (m, changed))
          t)

  process_iface-IsSettled :
      (m : Mappings) (changed : Bool) (iface : Text)
      → IsSettled (process_iface fs net m changed iface).0 iface
  process_iface-IsSettled m changed iface = elim (Bool-cases (is_some (lookup iface m.ports))) [
    | inl t ↦ settles (process_iface-known m changed iface t) (inl t)
    | inr f ↦ elim (Bool-cases (truthy (get_pci_address fs iface))) [
      | inl t ↦
          settles (process_iface-new m changed iface f t)
            (carry_out-IsSettled m changed iface (plan_of net iface) refl)
      | inr g ↦ settles (process_iface-no_device m changed iface f g) (inr (inl g))
    ]
  ]
    where
      settles :
          {r : Mappings × Bool}
          → process_iface fs net m changed iface ≡ r
          → IsSettled r.0 iface
          → IsSettled (process_iface fs net m changed iface).0 iface
      settles e = subst (λ r. IsSettled r.0 iface) (sym e)

  IsSettled-process_ifaces :
      (m : Mappings) (changed : Bool) (ifaces : List Text) (p : Text)
      → IsSettled m p
      → IsSettled (process_ifaces fs net m changed ifaces).0 p
  IsSettled-process_ifaces m changed ifaces p (inl h) =
      inl (is_some-process_ifaces m changed ifaces p h)
  IsSettled-process_ifaces m changed ifaces p (inr h) = inr h

  process_ifaces-IsSettled :
      (m : Mappings) (changed : Bool) (ifaces : List Text)
      → All (IsSettled (process_ifaces fs net m changed ifaces).0) ifaces
  unfolding process_ifaces
  process_ifaces-IsSettled m changed [] = tt
  process_ifaces-IsSettled m changed (iface ∷ rest) =
      let m' = (process_iface fs net m changed iface).0 in
      let changed' = (process_iface fs net m changed iface).1 in
      (
        IsSettled-process_ifaces m' changed' rest iface (process_iface-IsSettled m changed iface),
        process_ifaces-IsSettled m' changed' rest,
      )

  process_iface-settled :
      (m : Mappings) (changed : Bool) (iface : Text)
      → IsSettled m iface
      → process_iface fs net m changed iface ≡ (m, changed)
  process_iface-settled m changed iface (inl h) = process_iface-known m changed iface h
  process_iface-settled m changed iface (inr h) =
      elim (Bool-cases (is_some (lookup iface m.ports))) [
        | inl t ↦ process_iface-known m changed iface t
        | inr f ↦ elim (Bool-cases (truthy (get_pci_address fs iface))) [
          | inl t ↦ process_iface-new m changed iface f t ∙ nothing t h
          | inr g ↦ process_iface-no_device m changed iface f g
        ]
      ]
    where
      nothing :
          truthy (get_pci_address fs iface) ≡ true
          → (truthy (get_pci_address fs iface) ≡ false) ⊎ (plan_of net iface ≡ skip)
          → carry_out fs net m changed iface (plan_of net iface) ≡ (m, changed)
      nothing t (inl n) = absurd (true≢false (sym t ∙ n))
      nothing t (inr s) = ap (carry_out fs net m changed iface) s

  process_ifaces-settled :
      (m : Mappings) (changed : Bool) (ifaces : List Text)
      → All (IsSettled m) ifaces
      → process_ifaces fs net m changed ifaces ≡ (m, changed)
  unfolding process_ifaces
  process_ifaces-settled m changed [] h = refl
  process_ifaces-settled m changed (iface ∷ rest) (h, hs) =
      rw (process_iface-settled m changed iface h) (process_ifaces-settled m changed rest hs)

  -- Taking the same interfaces over again, with Netplan as it was, finds the same mappings and asks
  -- for no change.
  pub process_dpdk_netplan_config-again :
      (m : Mappings) (dpdk_ifaces : List Text)
      → let once = (process_dpdk_netplan_config fs net m dpdk_ifaces).0 in
        process_dpdk_netplan_config fs net once dpdk_ifaces ≡ (once, false)
  unfolding process_dpdk_netplan_config
  process_dpdk_netplan_config-again m dpdk_ifaces =
      process_ifaces-settled (process_ifaces fs net m false dpdk_ifaces).0 false dpdk_ifaces
        (process_ifaces-IsSettled m false dpdk_ifaces)
