-- ===== src/Ovs/Commands/Batches.antt =====
-- The calls that change the switch inside a transaction, and the tests of `set_ssl`
-- (openstack_hypervisor/bridge_datapath.py).
use snap_openstack_hyperviso.Base.{
  ◌≡◌, refl, ◌∙◌, Bool, true, false, ◌&&◌, ◌⊎◌, inl, inr, List, [], ◌∷◌, ◌++◌, all, Result, ok, err,
  Bool-cases, file_not_found_error,
}
use snap_openstack_hyperviso.Base.Text.{Text, str}
use snap_openstack_hyperviso.Base.Effects.{Exec, lift, ◌>>◌}
use snap_openstack_hyperviso.Ovs.{Outcome, Session, vsctl, transaction}
use snap_openstack_hyperviso.Ovs.Transaction.{
  collect, at_once, at_once-separated, with_commands, transaction-eq-at_once,
}
use snap_openstack_hyperviso.Ovs.Commands.{
  command, set, add_bridge, del_bridge, add_port, del_port, add_bond, Files, check_file, set_ssl,
}
use snap_openstack_hyperviso.Ovs.Commands.Requests.{
  Call, set_call, add_bridge_call, del_bridge_call, add_port_call, del_port_call, add_bond_call,
  commands_of, all_commands, all_requests, separated_all,
}

abbrev pub usable : Files → Text → Bool
usable files path = files.exists path && (files.is_file path && files.readable path)

module _ {W : Type 0} (run : List Text → W → Outcome × W) where
  abbrev pub perform : Call → Exec (Session W) (Unit {0})
  perform (set_call table row column settings) = set run table row column settings
  perform (add_bridge_call bridge datapath_type args) = add_bridge run bridge datapath_type args
  perform (del_bridge_call bridge) = del_bridge run bridge
  perform (add_port_call bridge port options) = add_port run bridge port options
  perform (del_port_call bridge port) = del_port run bridge port
  perform (add_bond_call bridge bond ports options) = add_bond run bridge bond ports options

  -- A block that makes the calls, and then returns or raises.
  unfoldable pub perform_all : {A : Type 0} → List Call → Result A → Exec (Session W) A
  perform_all [] r = lift r
  perform_all (c ∷ cs) r = perform c >> perform_all cs r

  perform-collect :
      {A : Type 0} (c : Call) (cs : List (List Text)) (r : Result A) (body : Exec (Session W) A)
      (before : List (List Text)) (s : Session W)
      → ((b : List (List Text))
          → body (with_commands run b s) ≡ collect run cs r (with_commands run b s))
      → (perform c >> body) (with_commands run before s)
        ≡ collect run (commands_of c ++ cs) r (with_commands run before s)
  unfolding set add_bridge del_bridge add_port del_port add_bond collect vsctl
  perform-collect (set_call table row column []) cs r body before s k = k before
  perform-collect (set_call table row column (x ∷ settings)) cs r body before s k = k _
  perform-collect (add_bridge_call bridge datapath_type args) cs r body before s k = k _
  perform-collect (del_bridge_call bridge) cs r body before s k = k _
  perform-collect (add_port_call bridge port options) cs r body before s k = k _
  perform-collect (del_port_call bridge port) cs r body before s k = k _
  perform-collect (add_bond_call bridge bond ports options) cs r body before s k = k _

  perform_all-collect :
      {A : Type 0} (cs : List Call) (r : Result A) (s : Session W) (before : List (List Text))
      → perform_all cs r (with_commands run before s)
        ≡ collect run (all_commands cs) r (with_commands run before s)
  unfolding perform_all collect
  perform_all-collect [] r s before = refl
  perform_all-collect (c ∷ cs) r s before =
      perform-collect c (all_commands cs) r (perform_all cs r) before s (perform_all-collect cs r s)

  -- Outside a transaction, let a block make calls that change the switch and then return or raise.
  -- If it raises, the world is as it was; if it returns, the requests of all the calls, in order and
  -- with `--` between two of them, run as one command line, or none if there are none.
  pub transaction-perform_all :
      {A : Type 0} (retry : Bool) (cs : List Call) (r : Result A) (s : Session W)
      → s.cli.in_transaction ≡ false
      → transaction run retry (perform_all cs r) s ≡ at_once run retry (all_requests cs) r s
  unfolding transaction
  transaction-perform_all retry cs r s h =
      rw h (rw (perform_all-collect cs r s []) refl)
      ∙ transaction-eq-at_once run retry (all_commands cs) r s h
      ∙ at_once-separated run retry (all_commands cs) (all_requests cs) r s (separated_all cs)

  check-cases :
      (files : Files) (t path : Text) (s : Session W)
      → ((usable files path ≡ true) × (check_file run files t path s ≡ (ok tt, s)))
        ⊎ ((usable files path ≡ false)
            × ((m : Text) × (check_file run files t path s ≡ (err (file_not_found_error m), s))))
  check-cases files t path s = elim (Bool-cases (files.exists path)) [
    | inr x ↦ rw x (inr (refl, (_, refl)))
    | inl x ↦ rw x (elim (Bool-cases (files.is_file path)) [
      | inr y ↦ rw y (inr (refl, (_, refl)))
      | inl y ↦ rw y (elim (Bool-cases (files.readable path)) [
        | inr z ↦ rw z (inr (refl, (_, refl)))
        | inl z ↦ rw z (inl (refl, refl))
      ])
    ])
  ]

  -- `set_ssl` either finds that all three files exist, are files and are readable, and then runs
  -- its command; or it raises `FileNotFoundError` and nothing is run or changed.
  pub set_ssl-cases :
      (files : Files) (key certificate ca : Text) (s : Session W)
      → ((all (usable files) (key ∷ certificate ∷ ca ∷ []) ≡ true)
          × (set_ssl run files key certificate ca s
              ≡ command run (str "set-ssl" ∷ key ∷ certificate ∷ ca ∷ []) s))
        ⊎ ((all (usable files) (key ∷ certificate ∷ ca ∷ []) ≡ false)
            × ((m : Text) × (set_ssl run files key certificate ca s
                  ≡ (err (file_not_found_error m), s))))
  unfolding set_ssl
  set_ssl-cases files key certificate ca s = elim (check-cases files (str "private key") key s) [
    | inr (u, (m, e)) ↦ rw (u, e) (inr (refl, (m, refl)))
    | inl (u, e) ↦
        rw (u, e)
          (elim (check-cases files (str "certificate") certificate s) [
            | inr (u', (m, e')) ↦ rw (u', e') (inr (refl, (m, refl)))
            | inl (u', e') ↦
                rw (u', e')
                  (elim (check-cases files (str "CA certificate") ca s) [
                    | inr (u'', (m, e'')) ↦ rw (u'', e'') (inr (refl, (m, refl)))
                    | inl (u'', e'') ↦ rw (u'', e'') (inl (refl, refl))
                  ])
          ])
  ]
