-- ===== src/Tests/Networking.antt =====
-- openstack_hypervisor/hooks.py: external networking at concrete inputs.
use snap_openstack_hyperviso.Base.{
  ℕ, ◌+◌, ◌≡◌, refl, false, none, some, List, [], ◌∷◌, ◌++◌, All, contains, text_eq, Result, ok,
  arith, if◌then◌else◌,
}
use snap_openstack_hyperviso.Base.Text.{Text, str, splitlines, leb}
use snap_openstack_hyperviso.Ovs.{Outcome, completed, Session, ovs_cli}
use snap_openstack_hyperviso.Ovs.Tables.{Table}
use snap_openstack_hyperviso.Ovs.Ports.{cells_at}
use snap_openstack_hyperviso.Bridge.Mapping.{BridgeMapping}
use snap_openstack_hyperviso.Bridge.Unique.{IsUnique, physnets, bridges, interfaces}
use snap_openstack_hyperviso.Bridge.Changes.{resolve_ovs_changes, update_mappings_from_rename}
use snap_openstack_hyperviso.Bridge.Changes.Kept.{removed_bridges-kept}
use snap_openstack_hyperviso.Networking.{
  Links, done, now, wait_rounds, wait_for_interface, line_numbers,
}
use snap_openstack_hyperviso.Networking.Waiting.{Ended, wait_for_interface-Ended}
use snap_openstack_hyperviso.Networking.External.{configure_external_nics}
use snap_openstack_hyperviso.Networking.Gateway.{Steps, configure_external_nics-has_nic}

-- The rule with the number 9 is deleted before that with the number 10.
line_numbers_test :
    line_numbers (str "rule") (str "10 rule\n9 rule\n2 rule") ≡ str "9" ∷ str "2" ∷ str "10" ∷ []
unfolding line_numbers text_eq
line_numbers_test = refl

-- The world is the time; br-ex appears after a second.
abbrev clock : Links ℕ
clock = record {
  link_lookup = λ interface time. if leb 1 time then 1 ∷ [] else [];
  add_address = λ dev address mask time. (done, time);
  flush_addresses = λ dev time. (done, time);
  set_up = λ dev time. (done, time);
  monotonic = λ time. time;
  sleep_one = λ time. time + 1000;
}

abbrev session : Session ℕ
session = record { cli = ovs_cli none none none; world = 0 }

wait_for_interface-Ended_example :
    (wait_rounds clock 40 (str "br-ex") (now clock session) session
      ≡ some (wait_for_interface clock (str "br-ex") session))
    × Ended clock
        (λ time. omega arith)
        (str "br-ex")
        (now clock session)
        (wait_for_interface clock (str "br-ex") session)
wait_for_interface-Ended_example =
    wait_for_interface-Ended clock (λ time. omega arith) (str "br-ex") session 40 (omega arith)

abbrev mapping : Text → BridgeMapping
mapping bridge = record { bridge = bridge; physnet = str "physnet1"; interface = some (str "eth0") }

one_mapping-IsUnique : IsUnique (mapping (str "br-new") ∷ [])
unfolding physnets bridges interfaces
one_mapping-IsUnique = record {
  physnets = (refl, tt);
  bridges = (refl, tt);
  interfaces = (refl, tt);
}

removed_bridges-kept_example :
    All
      (λ m.
        contains
          (resolve_ovs_changes
            (λ ps. ps)
            (mapping (str "br-old") ∷ [])
            (mapping (str "br-new") ∷ [])).removed_bridges
          m.bridge
        ≡ false)
      (update_mappings_from_rename
        (mapping (str "br-new") ∷ [])
        (resolve_ovs_changes
          (λ ps. ps)
          (mapping (str "br-old") ∷ [])
          (mapping (str "br-new") ∷ [])).renamed_bridges)
removed_bridges-kept_example =
    removed_bridges-kept (mapping (str "br-old") ∷ []) (mapping (str "br-new") ∷ []) (λ ps. ps)
      one_mapping-IsUnique

-- Every command succeeds and prints nothing.
abbrev obedient : List Text → ℕ → Outcome × ℕ
obedient args w = (completed [], w)

abbrev no_rows : Text → Result Table
no_rows output = ok (record { headings = str "name" ∷ []; rows = [] })

-- The world records the command lines. Every command succeeds and prints nothing.
abbrev recording : List Text → List (List Text) → Outcome × List (List Text)
recording args log = (completed [], log ++ (args ∷ []))

abbrev still : Links (List (List Text))
still = record {
  link_lookup = λ interface log. 1 ∷ [];
  add_address = λ dev address mask log. (done, log);
  flush_addresses = λ dev log. (done, log);
  set_up = λ dev log. (done, log);
  monotonic = λ log. 0;
  sleep_one = λ log. log;
}

abbrev fresh : Session (List (List Text))
fresh = record { cli = ovs_cli none none none; world = [] }

abbrev configured : Session (List (List Text))
configured =
    (configure_external_nics recording still no_rows ok (λ text i. i) (str "id")
      (mapping (str "br-ex") ∷ []) fresh).1

-- The last command.
abbrev last_of : List (List Text) → List Text
last_of [] = []
last_of (c ∷ []) = c
last_of (c ∷ d ∷ cs) = last_of (d ∷ cs)

external_test :
    last_of configured.world
    ≡ str "ovs-vsctl"
      ∷ str "--retry"
      ∷ str "set"
      ∷ str "open"
      ∷ str "."
      ∷ str "external_ids:ovn-cms-options=enable-chassis-as-gw"
      ∷ []
unfolding configure_external_nics text_eq cells_at splitlines
external_test = refl

configure_external_nics-has_nic_example :
    Steps recording still no_rows ok
      (λ text i. i)
      (str "id")
      (mapping (str "br-ex") ∷ [])
      fresh
      configured
unfolding configure_external_nics text_eq cells_at splitlines
configure_external_nics-has_nic_example =
    configure_external_nics-has_nic recording still no_rows ok (λ text i. i) (str "id")
      (mapping (str "br-ex") ∷ []) fresh configured refl
