-- ===== src/Tests/Datapath.antt =====
-- openstack_hypervisor/bridge_datapath.py at concrete inputs.
use snap_openstack_hyperviso.Base.{
  ℕ, ◌+◌, ◌⊎◌, ◌==◌, all, file_not_found_error, ◌≡◌, refl, ◌↔◌, Bool, true, false, none, some, List,
  [], ◌∷◌, All, map, text_eq, option_eq, contains, dedup, keep_if, ◌++◌, Result, ok, err,
  value_error, ovs_error,
}
use snap_openstack_hyperviso.Base.Dict.{lookup, insert, keys, values}
use snap_openstack_hyperviso.Base.Order.{sorted}
use snap_openstack_hyperviso.Base.Text.{split, Text, str, is_space}
use snap_openstack_hyperviso.Base.Effects.{Meets}
use snap_openstack_hyperviso.Bridge.Mapping.{BridgeMapping, resolve_bridge_mappings}
use snap_openstack_hyperviso.Bridge.Unique.{IsUnique, physnets, resolve_bridge_mappings-IsUnique}
use snap_openstack_hyperviso.Bridge.RoundTrip.{
  IsPrintable, print_mappings, resolve_bridge_mappings-print_mappings,
}
use snap_openstack_hyperviso.Bridge.Changes.{
  no_changes, resolve_ovs_changes, physnet_map, update_mappings_from_rename, renames, old_names,
  new_names, bridge_interfaces, interface_changes_onto,
}
use snap_openstack_hyperviso.Bridge.Changes.Unchanged.{resolve_ovs_changes_self}
use snap_openstack_hyperviso.Bridge.Changes.Removed.{
  IsDropped, removed_bridges_iff, added_bridges_iff,
}
use snap_openstack_hyperviso.Bridge.Changes.Renames.{
  keep_bridge, update_mappings_from_rename-eq-map,
}
use snap_openstack_hyperviso.Bridge.Detect.{detect_current_mappings}
use snap_openstack_hyperviso.Bridge.Detect.Contract.{Found, detect_current_mappings-AreDetected}
use snap_openstack_hyperviso.Ovs.{vsctl, Outcome, completed, Session, ovs_cli, transaction}
use snap_openstack_hyperviso.Ovs.Commands.{command, set, add_bridge, del_bridge, Files, set_ssl}
use snap_openstack_hyperviso.Ovs.Commands.Requests.{
  Call, set_call, add_bridge_call, del_bridge_call, all_requests,
}
use snap_openstack_hyperviso.Ovs.Commands.Batches.{
  usable, perform_all, transaction-perform_all, set_ssl-cases,
}
use snap_openstack_hyperviso.Bridge.StableMac.{octet, generate_stable_laa_mac}
use snap_openstack_hyperviso.Bridge.StableMac.Octets.{IsLocal, generate_stable_laa_mac-IsLocal}
use snap_openstack_hyperviso.Ovs.ReadOnly.{IsTimeout}
use snap_openstack_hyperviso.Ovs.Transaction.{
  collect, at_once, Idle, transaction-eq-at_once, transaction-Idle,
}

abbrev two_entries : Text
two_entries = str " br-a:net1:eth0 br-b:net2 "

abbrev bridge_a : BridgeMapping
bridge_a = record { bridge = str "br-a"; physnet = str "net1"; interface = some (str "eth0") }

abbrev bridge_b : BridgeMapping
bridge_b = record { bridge = str "br-b"; physnet = str "net2"; interface = none }

abbrev bridge_c : BridgeMapping
bridge_c = record { bridge = str "br-c"; physnet = str "net1"; interface = some (str "eth1") }

two_entries_test : resolve_bridge_mappings [] [] [] two_entries ≡ ok (bridge_a ∷ bridge_b ∷ [])
unfolding resolve_bridge_mappings text_eq
two_entries_test = refl

same_bridge_test :
    resolve_bridge_mappings [] [] [] (str "br-a:net1 br-a:net2")
    ≡ err (value_error (str "Duplicate bridge in mapping: br-a"))
unfolding resolve_bridge_mappings text_eq
same_bridge_test = refl

resolve_bridge_mappings-IsUnique_example : IsUnique (bridge_a ∷ bridge_b ∷ [])
resolve_bridge_mappings-IsUnique_example =
    resolve_bridge_mappings-IsUnique [] [] [] two_entries two_entries_test

two_entries-IsUnique : IsUnique (bridge_a ∷ bridge_b ∷ [])
two_entries-IsUnique = resolve_bridge_mappings-IsUnique [] [] [] two_entries two_entries_test

two_entries-IsPrintable : All IsPrintable (bridge_a ∷ bridge_b ∷ [])
unfolding is_space
two_entries-IsPrintable = (
  record {
    bridge = (refl, refl, (refl, refl, (refl, refl, (refl, refl, tt))));
    physnet = (refl, refl, (refl, refl, (refl, refl, (refl, refl, tt))));
    interface = (refl, (refl, refl, (refl, refl, (refl, refl, (refl, refl, tt)))));
  },
  (
    record {
      bridge = (refl, refl, (refl, refl, (refl, refl, (refl, refl, tt))));
      physnet = (refl, refl, (refl, refl, (refl, refl, (refl, refl, tt))));
      interface = tt;
    },
    tt,
  ),
)

resolve_bridge_mappings-print_mappings_example :
    resolve_bridge_mappings
      (str "br-ex")
      (str "physnet1")
      []
      (print_mappings (bridge_a ∷ bridge_b ∷ []))
    ≡ ok (bridge_a ∷ bridge_b ∷ [])
resolve_bridge_mappings-print_mappings_example =
    resolve_bridge_mappings-print_mappings (str "br-ex") (str "physnet1") [] bridge_a
      (bridge_b ∷ []) two_entries-IsUnique two_entries-IsPrintable

abbrev in_order : List Text → List Text
in_order xs = xs

-- br-a is renamed to br-c, and its interface changes; br-b goes.
changes_test : resolve_ovs_changes in_order (bridge_a ∷ bridge_b ∷ []) (bridge_c ∷ []) ≡ record {
  renamed_bridges = (str "br-a", str "br-c") ∷ [];
  added_bridges = [];
  removed_bridges = str "br-b" ∷ [];
  interface_changes =
      (str "br-a", record { removed = str "eth0" ∷ []; added = str "eth1" ∷ [] }) ∷ [];
}
unfolding resolve_ovs_changes text_eq physnet_map renames old_names new_names bridge_interfaces
    interface_changes_onto sorted dedup keep_if lookup insert keys values
changes_test = refl

resolve_ovs_changes_self_example :
    resolve_ovs_changes in_order (bridge_a ∷ bridge_b ∷ []) (bridge_a ∷ bridge_b ∷ []) ≡ no_changes
resolve_ovs_changes_self_example = resolve_ovs_changes_self in_order (bridge_a ∷ bridge_b ∷ [])

removed_bridges_iff_example :
    (contains
        (resolve_ovs_changes in_order (bridge_a ∷ bridge_b ∷ []) (bridge_c ∷ [])).removed_bridges
        (str "br-b")
      ≡ true)
    ↔ IsDropped (str "br-b") (bridge_a ∷ bridge_b ∷ []) (bridge_c ∷ [])
unfolding physnets text_eq
removed_bridges_iff_example =
    removed_bridges_iff in_order (λ xs x. refl) (bridge_a ∷ bridge_b ∷ []) (bridge_c ∷ [])
      (refl, (refl, tt)) (refl, tt) (str "br-b") refl

added_bridges_iff_example :
    (contains
        (resolve_ovs_changes in_order (bridge_c ∷ []) (bridge_a ∷ bridge_b ∷ [])).added_bridges
        (str "br-b")
      ≡ true)
    ↔ IsDropped (str "br-b") (bridge_a ∷ bridge_b ∷ []) (bridge_c ∷ [])
unfolding physnets text_eq
added_bridges_iff_example =
    added_bridges_iff in_order (λ xs x. refl) (bridge_c ∷ []) (bridge_a ∷ bridge_b ∷ []) (refl, tt)
      (refl, (refl, tt)) (str "br-b") refl

one_entry_test : resolve_bridge_mappings [] [] [] (str "br-c:net1:eth1") ≡ ok (bridge_c ∷ [])
unfolding resolve_bridge_mappings text_eq
one_entry_test = refl

one-IsUnique : IsUnique (bridge_c ∷ [])
one-IsUnique = resolve_bridge_mappings-IsUnique [] [] [] (str "br-c:net1:eth1") one_entry_test

update_mappings_from_rename-eq-map_example :
    update_mappings_from_rename
      (bridge_c ∷ [])
      (resolve_ovs_changes in_order (bridge_a ∷ bridge_b ∷ []) (bridge_c ∷ [])).renamed_bridges
    ≡ map (keep_bridge (bridge_a ∷ bridge_b ∷ [])) (bridge_c ∷ [])
update_mappings_from_rename-eq-map_example =
    update_mappings_from_rename-eq-map in_order (λ xs x. refl) (bridge_a ∷ bridge_b ∷ [])
      (bridge_c ∷ []) one-IsUnique (refl, tt)

-- A world that records the command lines. Every command answers with nothing.
abbrev recorded : List Text → List (List Text) → Outcome × List (List Text)
recorded command log = (completed [], log ++ (command ∷ []))

abbrev fresh : Session (List (List Text))
fresh = record { cli = ovs_cli none none none; world = [] }

abbrev two_commands : List (List Text)
two_commands = (str "add-br" ∷ str "br-a" ∷ []) ∷ (str "del-br" ∷ str "br-b" ∷ []) ∷ []

transaction-eq-at_once_example :
    transaction recorded false (collect recorded two_commands (ok true)) fresh
    ≡ at_once recorded false two_commands (ok true) fresh
transaction-eq-at_once_example =
    transaction-eq-at_once recorded false two_commands (ok true) fresh refl

abbrev failed : Result Bool
failed = err (ovs_error [])

transaction-Idle_example :
    Idle (transaction recorded true (collect recorded two_commands failed) fresh).1
transaction-Idle_example =
    transaction-Idle recorded true (collect recorded two_commands failed) fresh refl

detect_current_mappings-AreDetected_example :
    Meets Found IsTimeout (detect_current_mappings recorded fresh).0
    × ((detect_current_mappings recorded fresh).1.cli ≡ fresh.cli)
detect_current_mappings-AreDetected_example = detect_current_mappings-AreDetected recorded fresh

abbrev two_calls : List Call
two_calls =
    add_bridge_call (str "br-a") (str "system") []
    ∷ set_call (str "open") (str ".") (str "external_ids") []
    ∷ del_bridge_call (str "br-b")
    ∷ []

two_calls_test :
    (transaction recorded false (perform_all recorded two_calls (ok true)) fresh).1.world
    ≡ (str "ovs-vsctl"
        ∷ str "--may-exist"
        ∷ str "add-br"
        ∷ str "br-a"
        ∷ str "--"
        ∷ str "set"
        ∷ str "bridge"
        ∷ str "br-a"
        ∷ str "datapath_type=system"
        ∷ str "--"
        ∷ str "del-br"
        ∷ str "br-b"
        ∷ [])
      ∷ []
unfolding transaction perform_all set add_bridge del_bridge vsctl
two_calls_test = refl

transaction-perform_all_example :
    transaction recorded false (perform_all recorded two_calls (ok true)) fresh
    ≡ at_once recorded false (all_requests two_calls) (ok true) fresh
transaction-perform_all_example =
    transaction-perform_all recorded false two_calls (ok true) fresh refl

-- Only the path "key" can be read.
abbrev one_file : Files
one_file = record {
  exists = λ path. true;
  is_file = λ path. true;
  readable = λ path. path == str "key";
}

set_ssl-cases_example :
    ((all (usable one_file) (str "key" ∷ str "cert" ∷ str "ca" ∷ []) ≡ true)
      × (set_ssl recorded one_file (str "key") (str "cert") (str "ca") fresh
          ≡ command recorded (str "set-ssl" ∷ str "key" ∷ str "cert" ∷ str "ca" ∷ []) fresh))
    ⊎ ((all (usable one_file) (str "key" ∷ str "cert" ∷ str "ca" ∷ []) ≡ false)
        × ((m : Text) × (set_ssl recorded one_file (str "key") (str "cert") (str "ca") fresh
              ≡ (err (file_not_found_error m), fresh))))
set_ssl-cases_example = set_ssl-cases recorded one_file (str "key") (str "cert") (str "ca") fresh

abbrev some_digest : Text → ℕ → ℕ
some_digest [] i = i
some_digest (c ∷ s) i = c + i

mac_test :
    generate_stable_laa_mac some_digest (str "0a:c5") (str "net1") (str "machine")
    ≡ ok (str "0a:c5:6e:6d:6e:6f")
unfolding generate_stable_laa_mac
mac_test = refl

generate_stable_laa_mac-IsLocal_example :
    IsLocal some_digest (split b':' (str "0a:c5"))
    × (split b':' (str "0a:c5:6e:6d:6e:6f")
        ≡ split b':' (str "0a:c5")
          ++ (octet (some_digest (str "net1") 0)
              ∷ octet (some_digest (str "machine") 0)
              ∷ octet (some_digest (str "machine") 1)
              ∷ octet (some_digest (str "machine") 2)
              ∷ []))
generate_stable_laa_mac-IsLocal_example =
    generate_stable_laa_mac-IsLocal some_digest (str "0a:c5") (str "net1") (str "machine") mac_test
