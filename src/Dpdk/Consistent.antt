-- ===== src/Dpdk/Consistent.antt =====
-- The mappings of DPDK ports and bonds (openstack_hypervisor/hooks.py) stay consistent: what the
-- loops that create ports and bonds look up is there.
use snap_openstack_hyperviso.Base.{
  ◌≡◌, refl, ap, Bool, true, false, ◌||◌, Option, none, some, List, [], ◌∷◌, All, All-append,
  contains, Bool-cases, text_eq, inl, inr, arith,
}
use snap_openstack_hyperviso.Base.Dict.{
  lookup, insert, is_some, AllValues, AllValues-weaken, AllValues-insert, AllValues-lookup,
  lookup-insert,
}
use snap_openstack_hyperviso.Base.Text.{Text, truthy, given}
use snap_openstack_hyperviso.Netplan.{Network, BondConfig}
use snap_openstack_hyperviso.Pci.Sysfs.{Sysfs, get_pci_address}
use snap_openstack_hyperviso.Dpdk.{
  PortInfo, BondInfo, Mappings, extend_unless, bond_keys, bond_of, place_of, Plan, skip, as_port,
  as_member, Place, nowhere, iface_on, bond_on, plan_of, plan_for, plan_port, plan_member,
  carry_out, process_iface, process_ifaces, process_dpdk_netplan_config, joined_bond, port_info,
}

-- The port has a bond, or a bridge.
abbrev pub IsPlaced : PortInfo → Type 0
IsPlaced info = (given info.bond || is_some info.bridge) ≡ true

abbrev pub HasPorts : Mappings → BondInfo → Type 0
HasPorts m info = All (λ p. is_some (lookup p m.ports) ≡ true) info.ports

-- Every port is to be attached somewhere, and every port of a bond is a port.
abbrev pub IsConsistent : Mappings → Type 0
IsConsistent m = AllValues IsPlaced m.ports × AllValues (HasPorts m) m.bonds

is_some-insert :
    (m : Mappings) (iface p : Text) (info : PortInfo)
    → is_some (lookup p m.ports) ≡ true
    → is_some (lookup p (insert iface info m.ports)) ≡ true
is_some-insert m iface p info h = rw (lookup-insert p iface info m.ports) (ground (arith, h))

All-present-insert :
    (m : Mappings) (iface : Text) (info : PortInfo) (ps : List Text)
    → All (λ p. is_some (lookup p m.ports) ≡ true) ps
    → All (λ p. is_some (lookup p (insert iface info m.ports)) ≡ true) ps
All-present-insert m iface info [] h = tt
All-present-insert m iface info (p ∷ ps) (h, hs) =
    (is_some-insert m iface p info h, All-present-insert m iface info ps hs)

present-insert :
    (m : Mappings) (iface : Text) (info : PortInfo)
    → is_some (lookup iface (insert iface info m.ports)) ≡ true
present-insert m iface info = rw (lookup-insert iface iface info m.ports) (ground arith)

||-true : (b : Bool) → (b || true) ≡ true
||-true true = refl
||-true false = refl

module _ (fs : Sysfs) (net : Network) where
  -- A plan for a port names a bridge, one for a port of a bond names the bond.
  abbrev IsSound : Plan → Type 0
  IsSound skip = Unit
  IsSound (as_port bond bridge) = Unit
  IsSound (as_member bond config bridge) = truthy bond ≡ true

  plan_port-IsSound : (bond : Option Text) (place : Place) → IsSound (plan_port bond place)
  plan_port-IsSound bond nowhere = tt
  plan_port-IsSound bond (iface_on bridge) = elim (Bool-cases (truthy bridge)) [
    | inl t ↦ rw t tt
    | inr f ↦ rw f tt
  ]
  plan_port-IsSound bond (bond_on bridge) = tt

  plan_member-IsSound :
      (bond : Text) (config : BondConfig) (place : Place)
      → truthy bond ≡ true
      → IsSound (plan_member bond config place)
  plan_member-IsSound bond config nowhere h = tt
  plan_member-IsSound bond config (iface_on bridge) h = tt
  plan_member-IsSound bond config (bond_on bridge) h = elim (Bool-cases (truthy bridge)) [
    | inl t ↦ rw t h
    | inr f ↦ rw f tt
  ]

  plan_for-IsSound :
      (bond : Option (Text × BondConfig)) (place : Place) → IsSound (plan_for bond place)
  plan_for-IsSound none place = plan_port-IsSound none place
  plan_for-IsSound (some (bond, config)) place = elim (Bool-cases (truthy bond)) [
    | inl t ↦ rw t (plan_member-IsSound bond config place t)
    | inr f ↦ rw f (plan_port-IsSound (some bond) place)
  ]

  plan_of-IsSound : (iface : Text) → IsSound (plan_of net iface)
  unfolding plan_of
  plan_of-IsSound iface =
      plan_for-IsSound (bond_of iface net.bonds)
        (place_of iface (bond_of iface net.bonds) net.bridges)

  joined_bond-HasPorts :
      (m : Mappings) (found : Option BondInfo) (config : BondConfig) (bond bridge iface : Text)
      (info : PortInfo)
      → AllValues (HasPorts m) m.bonds
      → lookup bond m.bonds ≡ found
      → All
          (λ p. is_some (lookup p (insert iface info m.ports)) ≡ true)
          (joined_bond found config bridge iface).ports
  joined_bond-HasPorts m none config bond bridge iface info h e = (present-insert m iface info, tt)
  joined_bond-HasPorts m (some b) config bond bridge iface info h e =
      extended (contains bond_keys iface)
        (All-present-insert m iface info b.ports (AllValues-lookup (HasPorts m) bond m.bonds h e))
    where
      extended :
          (listed : Bool)
          → All (λ p. is_some (lookup p (insert iface info m.ports)) ≡ true) b.ports
          → All
              (λ p. is_some (lookup p (insert iface info m.ports)) ≡ true)
              (extend_unless listed b iface).ports
      extended true ps = ps
      extended false ps = All-append _ b.ports (iface ∷ []) ps (present-insert m iface info, tt)

  carry_out-IsConsistent :
      (m : Mappings) (changed : Bool) (iface : Text) (plan : Plan)
      → IsSound plan
      → IsConsistent m
      → IsConsistent (carry_out fs net m changed iface plan).0
  carry_out-IsConsistent m changed iface skip s h = h
  carry_out-IsConsistent m changed iface (as_port bond bridge) s (placed, present) = (
    AllValues-insert IsPlaced iface (port_info fs net iface (some bridge) bond) m.ports
        (||-true (given bond)) placed,
    AllValues-weaken (HasPorts m) _ m.bonds
        (λ b. All-present-insert m iface (port_info fs net iface (some bridge) bond) b.ports)
        present,
  )
  carry_out-IsConsistent m changed iface (as_member bond config bridge) s (placed, present) =
      let info = port_info fs net iface none (some bond) in
      (
        AllValues-insert IsPlaced iface info m.ports (ap (λ b. b || false) s) placed,
        AllValues-insert _ bond (joined_bond (lookup bond m.bonds) config bridge iface) m.bonds
            (joined_bond-HasPorts m (lookup bond m.bonds) config bond bridge iface info present
              refl)
            (AllValues-weaken (HasPorts m) _ m.bonds (λ b. All-present-insert m iface info b.ports)
              present),
      )

  process_iface-IsConsistent :
      (m : Mappings) (changed : Bool) (iface : Text)
      → IsConsistent m
      → IsConsistent (process_iface fs net m changed iface).0
  unfolding process_iface
  process_iface-IsConsistent m changed iface h =
      elim (Bool-cases (is_some (lookup iface m.ports))) [
        | inl t ↦ rw t h
        | inr f ↦ rw f (elim (Bool-cases (truthy (get_pci_address fs iface))) [
          | inl t ↦
              rw t (
                carry_out-IsConsistent m changed iface (plan_of net iface) (plan_of-IsSound iface)
                  h)
          | inr g ↦ rw g h
        ])
      ]

  process_ifaces-IsConsistent :
      (m : Mappings) (changed : Bool) (ifaces : List Text)
      → IsConsistent m
      → IsConsistent (process_ifaces fs net m changed ifaces).0
  unfolding process_ifaces
  process_ifaces-IsConsistent m changed [] h = h
  process_ifaces-IsConsistent m changed (iface ∷ rest) h =
      process_ifaces-IsConsistent (process_iface fs net m changed iface).0
        (process_iface fs net m changed iface).1 rest (process_iface-IsConsistent m changed iface h)

  -- Taking interfaces over from Netplan keeps the mappings consistent, whatever Netplan has
  -- configured: every port has a bond or a bridge, and every port of a bond is among the ports.
  pub process_dpdk_netplan_config-IsConsistent :
      (m : Mappings) (dpdk_ifaces : List Text)
      → IsConsistent m
      → IsConsistent (process_dpdk_netplan_config fs net m dpdk_ifaces).0
  unfolding process_dpdk_netplan_config
  process_dpdk_netplan_config-IsConsistent m dpdk_ifaces h =
      process_ifaces-IsConsistent m false dpdk_ifaces h
