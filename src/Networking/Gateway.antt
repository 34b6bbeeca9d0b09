-- ===== src/Networking/Gateway.antt =====
-- External networking without an address (openstack_hypervisor/hooks.py): the steps of a run that
-- succeeds, and when it makes the chassis a gateway.
use snap_openstack_hyperviso.Base.{
  ℕ, ◌≡◌, refl, sym, ap, ◌∙◌, subst, Bool, true, false, ◌||◌, Option, none, some, List, [], ◌∷◌,
  any, if◌then◌else◌, Result, ok, err, ovs_command_error, err-ne-ok, ◌⊎◌, inl, inr, ok-injective,
  text_eq,
}
use snap_openstack_hyperviso.Base.Text.{Text, str, truthy, given, join, lower}
use snap_openstack_hyperviso.Base.Effects.{
  pure, lift, ◌>>=◌, ◌>>◌, bind-eq-ok, raise, on_error, continue,
}
use snap_openstack_hyperviso.Ovs.{Outcome, Session, vsctl}
use snap_openstack_hyperviso.Ovs.Tables.{Table}
use snap_openstack_hyperviso.Ovs.Ports.{
  del_external_nics_from_bridge, ensure_single_nic_on_bridge, enable_chassis_as_gateway,
  disable_chassis_as_gateway,
}
use snap_openstack_hyperviso.Ovs.Commands.{
  command, set, set_args, remove, no_such_key, false_on_no_such_key,
}
use snap_openstack_hyperviso.Bridge.Mapping.{BridgeMapping}
use snap_openstack_hyperviso.Networking.{
  Links, ensure_link_up, delete_ips_from_interface, delete_iptable_postrouting_rule,
}
use snap_openstack_hyperviso.Networking.Ovn.{set_external_ids}
use snap_openstack_hyperviso.Networking.External.{
  comment, mac_pairs, attach_nic, attach_nics, set_gateway, configure_external_nics,
}

-- Some mapping has an interface.
abbrev pub has_nic : List BridgeMapping → Bool
has_nic ms = any (λ m. given m.interface) ms

||-false : (b : Bool) → (b || false) ≡ b
||-false true = refl
||-false false = refl

enabled_by :
    (attached listed enable rest : Bool)
    → attached ≡ listed
    → ((if attached then true else enable) || rest) ≡ (enable || (listed || rest))
enabled_by true listed true rest h = refl
enabled_by true listed false rest h = ap (λ b. b || rest) h
enabled_by false listed true rest h = refl
enabled_by false listed false rest h = ap (λ b. b || rest) h

module _ {W : Type 0} (run : List Text → W → Outcome × W) where
  -- The command ran, or failed because there is nothing to remove.
  abbrev pub Removed : List Text → Session W → Session W → Type 0
  Removed words s s' =
      ((out : Text) × (vsctl run words true none false s ≡ (ok out, s')))
      ⊎ ((m : Text) × (vsctl run words true none false s ≡ (err (ovs_command_error m), s'))
          × (no_such_key run (lower m) ≡ true))

  handled :
      (known : Bool) (m : Text) (t : Session W) {b : Bool} {s' : Session W}
      → (if known then pure false else raise (ovs_command_error m)) t ≡ (ok b, s')
      → (known ≡ true) × (t ≡ s')
  handled true m t h = (refl, ap (λ p. p.1) h)
  handled false m t h = absurd (err-ne-ok (ap (λ p. p.0) h))

  ended :
      (r : Result Text) (t : Session W) {b : Bool} {s' : Session W}
      → on_error
          (continue r (λ _. pure true) t).0
          (false_on_no_such_key run)
          (continue r (λ _. pure true) t).1
        ≡ (ok b, s')
      → (t ≡ s')
        × (((out : Text) × (r ≡ ok out))
            ⊎ ((m : Text) × (r ≡ err (ovs_command_error m)) × (no_such_key run (lower m) ≡ true)))
  ended (ok out) t h = (ap (λ p. p.1) h, inl (out, refl))
  ended (err (ovs_command_error m)) t h =
      let (known, same) = handled (no_such_key run (lower m)) m t h in (same, inr (m, refl, known))
  ended (err _) t h = absurd (err-ne-ok (ap (λ p. p.0) h))

  remove-Removed :
      (table row column key : Text) (s : Session W) {b : Bool} {s' : Session W}
      → remove run table row column key s ≡ (ok b, s')
      → Removed (str "remove" ∷ table ∷ row ∷ column ∷ key ∷ []) s s'
  unfolding remove
  remove-Removed table row column key s h =
      let words = str "remove" ∷ table ∷ row ∷ column ∷ key ∷ [] in
      let m = vsctl run words true none false in
      let (same, how) = ended (m s).0 (m s).1 h in
      elim how [
        | inl (out, e) ↦ inl (out, λ i. (e i, same i))
        | inr (msg, e, known) ↦ inr (msg, (λ i. (e i, same i)), known)
      ]

module _ {W : Type 0} (run : List Text → W → Outcome × W) (links : Links W)
    (loads : Text → Result Table) where
  attach_nic-given :
      (bridge : Text) (interface : Option Text) (s : Session W) {attached : Bool} {s' : Session W}
      → attach_nic run links loads bridge interface s ≡ (ok attached, s')
      → attached ≡ given interface
  attach_nic-given bridge none s h =
      let (u, s1, e, f) =
        bind-eq-ok (del_external_nics_from_bridge run loads bridge) (λ u. pure false) s h in
      sym (ok-injective (ap (λ p. p.0) f))
  attach_nic-given bridge (some interface) s {attached} {s'} h = by_name (truthy interface) h
    where
      by_name :
          (b : Bool)
          → (if b
                then (ensure_single_nic_on_bridge run loads bridge interface >>= λ u.
                    ensure_link_up links interface >>= λ v. pure true)
                else (del_external_nics_from_bridge run loads bridge >> pure false))
              s
            ≡ (ok attached, s')
          → attached ≡ b
      by_name true h =
          let (u, s1, e, f) =
            bind-eq-ok (ensure_single_nic_on_bridge run loads bridge interface) _ s h in
          let (v, s2, g, k) = bind-eq-ok (ensure_link_up links interface) (λ v. pure true) s1 f in
          sym (ok-injective (ap (λ p. p.0) k))
      by_name false h =
          let (u, s1, e, f) =
            bind-eq-ok (del_external_nics_from_bridge run loads bridge) (λ u. pure false) s h in
          sym (ok-injective (ap (λ p. p.0) f))

  attach_nics-has_nic :
      (enable : Bool) (ms : List BridgeMapping) (s : Session W) {gateway : Bool} {s' : Session W}
      → attach_nics run links loads enable ms s ≡ (ok gateway, s')
      → gateway ≡ (enable || has_nic ms)
  unfolding attach_nics
  attach_nics-has_nic enable [] s h = sym (ok-injective (ap (λ p. p.0) h)) ∙ sym (||-false enable)
  attach_nics-has_nic enable (m ∷ ms) s h =
      let (u, s1, e, f) = bind-eq-ok (delete_ips_from_interface links m.bridge) _ s h in
      let (attached, s2, g, k) =
        bind-eq-ok (attach_nic run links loads m.bridge m.interface) _ s1 f in
      let more = attach_nics-has_nic (if attached then true else enable) ms s2 k in
      more
      ∙ enabled_by attached (given m.interface) enable (has_nic ms)
          (attach_nic-given m.bridge m.interface s1 g)

  module _ (network_of : Text → Result Text) (sha256 : Text → ℕ → ℕ) (machine_id : Text) where
    -- With a gateway the last command sets the option that says so; without one the option is
    -- removed, if it is there.
    abbrev pub Gateway : Bool → Session W → Session W → Type 0
    Gateway enabled s s' =
        if enabled
        then command run
            (str "set"
              ∷ str "open"
              ∷ str "."
              ∷ str "external_ids:ovn-cms-options=enable-chassis-as-gw"
              ∷ [])
            s
          ≡ (ok tt, s')
        else Removed run
            (str "remove" ∷ str "open" ∷ str "." ∷ str "external_ids" ∷ str "ovn-cms-options" ∷ [])
            s s'

    -- The steps of a run from `s` to `s'`, one from the end of the other.
    abbrev pub Steps : List BridgeMapping → Session W → Session W → Type 0
    Steps mappings s s' =
        (cleared : Session W) × (attached : Session W) × (described : Session W) × (pairs : List
          Text)
        × (delete_iptable_postrouting_rule run comment s ≡ (ok tt, cleared))
        × (attach_nics run links loads false mappings cleared ≡ (ok (has_nic mappings), attached))
        × (mac_pairs sha256 machine_id mappings ≡ ok pairs)
        × (set_external_ids run ((str "ovn-chassis-mac-mappings", join (str ",") pairs) ∷ [])
              attached
            ≡ (ok tt, described))
        × Gateway (has_nic mappings) described s'

    set_gateway-Gateway :
        (b : Bool) (s s' : Session W)
        → set_gateway run links loads b s ≡ (ok tt, s')
        → Gateway b s s'
    unfolding enable_chassis_as_gateway disable_chassis_as_gateway set set_args
    set_gateway-Gateway true s s' h = h
    set_gateway-Gateway false s s' h =
        let (removed, s1, e, f) =
          bind-eq-ok
            (remove run (str "open") (str ".") (str "external_ids") (str "ovn-cms-options"))
            (λ _. pure tt) s h in
        subst (Removed run _ s) (ap (λ p. p.1) f) (
          remove-Removed run (str "open") (str ".") (str "external_ids") (str "ovn-cms-options") s
            e)

    -- External networking without an address of its own that succeeds clears the rule of iptables,
    -- attaches the interfaces, describes the MAC addresses, and ends by setting the option that
    -- makes the chassis a gateway if some mapping has an interface, and by removing it otherwise.
    pub configure_external_nics-has_nic :
        (mappings : List BridgeMapping) (s s' : Session W)
        → configure_external_nics run links loads network_of sha256 machine_id mappings s
          ≡ (ok tt, s')
        → Steps mappings s s'
    unfolding configure_external_nics
    configure_external_nics-has_nic mappings s s' h =
        let (u, s1, e, f) = bind-eq-ok (delete_iptable_postrouting_rule run comment) _ s h in
        let (gateway, s2, g, k) = bind-eq-ok (attach_nics run links loads false mappings) _ s1 f in
        let (pairs, s3, i, j) = bind-eq-ok (lift (mac_pairs sha256 machine_id mappings)) _ s2 k in
        let (v, s4, l, m) =
          bind-eq-ok
            (set_external_ids run ((str "ovn-chassis-mac-mappings", join (str ",") pairs) ∷ []))
            (λ v. set_gateway run links loads gateway) s3 j in
        let has = attach_nics-has_nic false mappings s1 g in
        (
          s1,
          s2,
          s4,
          pairs,
          e,
          g ∙ ap (λ b. (ok b, s2)) has,
          ap (λ p. p.0) i,
          ap (set_external_ids run ((str "ovn-chassis-mac-mappings", join (str ",") pairs) ∷ []))
                (ap (λ p. p.1) i)
              ∙ l,
          subst (λ b. Gateway b s4 s') has (set_gateway-Gateway gateway s4 s' m),
        )
