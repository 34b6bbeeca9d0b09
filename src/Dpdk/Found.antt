-- ===== src/Dpdk/Found.antt =====
-- What the tests of the ports and the bonds (openstack_hypervisor/hooks.py) found when they say yes.
use mathlib.Core.Bool.{true≢false}
use snap_openstack_hyperviso.Base.{
  ◌≡◌, sym, ap, ◌∙◌, Bool, true, false, Option, none, some, List, [], ◌∷◌, contains, if◌then◌else◌,
  text_eq, ◌==◌, eq_of_==, ok, ok-injective, ◌⊎◌, inl, inr, ◌++◌, any, map, arith, Bool-cases,
}
use snap_openstack_hyperviso.Base.Dict.{Dict, AllValues}
use snap_openstack_hyperviso.Base.Text.{Text, str, truthy, strip, strip_if, lower, char_eq}
use snap_openstack_hyperviso.Base.Effects.{pure, catch, ◌>>=◌, bind-eq-ok}
use snap_openstack_hyperviso.Ovs.{Outcome, Session}
use snap_openstack_hyperviso.Ovs.Queries.{
  query, list_bridge_interfaces, get_dpdk_initialized, or_on_command_error,
}
use snap_openstack_hyperviso.Dpdk.{PortInfo, BondInfo, Mappings}
use snap_openstack_hyperviso.Dpdk.Readiness.{
  bond_found, collect_all_ovs_interfaces, check_dpdk_ports_exist, check_dpdk_bond_exists,
  check_bonds, ready_among, expected_dpdk_ports_ready,
}
use snap_openstack_hyperviso.Dpdk.Answered.{or_right, if_else_false, if_pure-false, tested-eq-true}

check_dpdk_ports_exist-All :
    (ports : Dict Text PortInfo) (all_interfaces : List Text)
    → check_dpdk_ports_exist ports all_interfaces ≡ true
    → AllValues (λ info. contains all_interfaces info.dpdk_port_name ≡ true) ports
unfolding check_dpdk_ports_exist
check_dpdk_ports_exist-All [] all_interfaces h = tt
check_dpdk_ports_exist-All ((name, info) ∷ rest) all_interfaces h =
    let (e, hs) = if_else_false (contains all_interfaces info.dpdk_port_name) h in
    (e, check_dpdk_ports_exist-All rest all_interfaces hs)

module _ {W : Type 0} (run : List Text → W → Outcome × W) where
  -- Between the two sessions the switch said that DPDK is initialised.
  abbrev pub SaidInitialized : Session W → Session W → Type 0
  SaidInitialized s s' =
      (result : Text) × (query run
          (str "get" ∷ str "Open_vSwitch" ∷ str "." ∷ str "dpdk_initialized" ∷ []) s
        ≡ (ok result, s'))
      × (lower (strip_if (λ c. char_eq c b'"') (strip result)) ≡ str "true")

  pub get_dpdk_initialized-Said :
      (s : Session W) {s' : Session W}
      → get_dpdk_initialized run s ≡ (ok true, s')
      → SaidInitialized s s'
  unfolding get_dpdk_initialized
  get_dpdk_initialized-Said s h =
      let (result, e, t) =
        tested-eq-true
          (query run (str "get" ∷ str "Open_vSwitch" ∷ str "." ∷ str "dpdk_initialized" ∷ []))
          (λ result. lower (strip_if (λ c. char_eq c b'"') (strip result)) == str "true") s h in
      (result, e, eq_of_== _ (str "true") t)

  -- The bridge has the bond, or one of its ports under the name that DPDK gives it.
  abbrev pub IsOn : Text → BondInfo → List Text → Type 0
  IsOn name info bridge_ports =
      (contains bridge_ports name ≡ true)
      ⊎ ((p : Text) × (contains info.ports p ≡ true)
          × (contains bridge_ports (str "dpdk-" ++ p) ≡ true))

  -- The interfaces of the bond's bridge, if it has one, were listed, and the bond is on it.
  abbrev pub BondFound : Text → BondInfo → Session W → Session W → Type 0
  BondFound name info s s' =
      if truthy info.bridge
      then ((bridge_ports : List Text) × (list_bridge_interfaces run info.bridge s
            ≡ (ok bridge_ports, s'))
          × IsOn name info bridge_ports)
      else (s ≡ s')

  -- Each bond was looked for, one after the other, and found.
  abbrev pub BondsFound : Dict Text BondInfo → Session W → Session W → Type 0
  BondsFound [] s s' = s ≡ s'
  BondsFound ((name, info) ∷ rest) s s' =
      (s1 : Session W) × BondFound name info s s1 × BondsFound rest s1 s'

  bond_found-IsOn :
      (name : Text) (info : BondInfo) (bridge_ports : List Text)
      → bond_found name info.ports bridge_ports ≡ true
      → IsOn name info bridge_ports
  bond_found-IsOn name info bridge_ports h = elim (Bool-cases (contains bridge_ports name)) [
    | inl t ↦ inl t
    | inr f ↦ inr (some_port info.ports (or_right (contains bridge_ports name) _ f h))
  ]
    where
      some_port :
          (ports : List Text)
          → any (λ p. contains bridge_ports p) (map (λ p. str "dpdk-" ++ p) ports) ≡ true
          → (p : Text) × (contains ports p ≡ true)
            × (contains bridge_ports (str "dpdk-" ++ p) ≡ true)
      some_port [] h = absurd (true≢false (sym h))
      some_port (p ∷ ports) h = elim (Bool-cases (contains bridge_ports (str "dpdk-" ++ p))) [
        | inl t ↦ (p, ground arith, t)
        | inr f ↦
            let (q, i, e) =
              some_port ports (or_right (contains bridge_ports (str "dpdk-" ++ p)) _ f h) in
            (q, ground (arith, i), e)
      ]

  check_dpdk_bond_exists-Found :
      (name : Text) (info : BondInfo) (s s' : Session W)
      → check_dpdk_bond_exists run name info s ≡ (ok true, s')
      → BondFound name info s s'
  unfolding check_dpdk_bond_exists
  check_dpdk_bond_exists-Found name info s s' h = by_bridge (truthy info.bridge) h
    where
      by_bridge :
          (b : Bool)
          → (if b
                then catch
                    (list_bridge_interfaces run info.bridge >>= λ bridge_ports.
                      pure (bond_found name info.ports bridge_ports))
                    (or_on_command_error false)
                else pure true)
              s
            ≡ (ok true, s')
          → (if b
              then ((bridge_ports : List Text) × (list_bridge_interfaces run info.bridge s
                    ≡ (ok bridge_ports, s'))
                  × IsOn name info bridge_ports)
              else (s ≡ s'))
      by_bridge false h = ap (λ p. p.1) h
      by_bridge true h =
          let (bridge_ports, e, t) =
            tested-eq-true (list_bridge_interfaces run info.bridge) (bond_found name info.ports) s
              h in
          (bridge_ports, e, bond_found-IsOn name info bridge_ports t)

  check_bonds-BondsFound :
      (bonds : Dict Text BondInfo) (s : Session W) {s' : Session W}
      → check_bonds run bonds s ≡ (ok true, s')
      → BondsFound bonds s s'
  unfolding check_bonds
  check_bonds-BondsFound [] s h = ap (λ p. p.1) h
  check_bonds-BondsFound ((name, info) ∷ rest) s h =
      let (found, s1, e, f) = bind-eq-ok (check_dpdk_bond_exists run name info) _ s h in
      let (g, more) = if_pure-false found (check_bonds run rest) s1 f in
      (
        s1,
        check_dpdk_bond_exists-Found name info s s1 (e ∙ ap (λ b. (ok b, s1)) g),
        check_bonds-BondsFound rest s1 more,
      )

  -- All interfaces of the switch were listed, every port is among them, and every bond was found.
  abbrev pub PortsReady : Mappings → Session W → Session W → Type 0
  PortsReady m s s' =
      (all_interfaces : List Text) × (s1 : Session W) × (collect_all_ovs_interfaces run s
        ≡ (ok (some all_interfaces), s1))
      × AllValues (λ info. contains all_interfaces info.dpdk_port_name ≡ true) m.ports
      × BondsFound m.bonds s1 s'

  ready_among-PortsReady :
      (m : Mappings) (listed : Option (List Text)) (s s1 : Session W) {s' : Session W}
      → collect_all_ovs_interfaces run s ≡ (ok listed, s1)
      → ready_among run m listed s1 ≡ (ok true, s')
      → PortsReady m s s'
  ready_among-PortsReady m none s s1 e h =
      absurd (true≢false (sym (ok-injective (ap (λ p. p.0) h))))
  ready_among-PortsReady m (some all_interfaces) s s1 e h =
      let (ports, bonds) =
        if_pure-false (check_dpdk_ports_exist m.ports all_interfaces) (check_bonds run m.bonds) s1
          h in
      (
        all_interfaces,
        s1,
        e,
        check_dpdk_ports_exist-All m.ports all_interfaces ports,
        check_bonds-BondsFound m.bonds s1 bonds,
      )

  pub expected_dpdk_ports_ready-PortsReady :
      (m : Mappings) (s : Session W) {s' : Session W}
      → expected_dpdk_ports_ready run m s ≡ (ok true, s')
      → PortsReady m s s'
  unfolding expected_dpdk_ports_ready
  expected_dpdk_ports_ready-PortsReady m s h =
      let (listed, s1, e, f) = bind-eq-ok (collect_all_ovs_interfaces run) _ s h in
      ready_among-PortsReady m listed s s1 e f
