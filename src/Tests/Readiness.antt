-- ===== src/Tests/Readiness.antt =====
-- openstack_hypervisor/hooks.py and openstack_hypervisor/bridge_datapath.py: settings that are read
-- from the switch, at concrete inputs.
use snap_openstack_hyperviso.Base.{
  ◌≡◌, refl, true, false, none, some, List, [], ◌∷◌, ◌&&◌, text_eq, keep_if, Result, ok,
}
use snap_openstack_hyperviso.Base.Dict.{Dict}
use snap_openstack_hyperviso.Base.Text.{Text, str, splitlines}
use snap_openstack_hyperviso.Ovs.{Outcome, completed, Session, ovs_cli}
use snap_openstack_hyperviso.Ovs.Json.{
  Json, string, array, nil, cons, Data, raw, uuid, set_of, map_of, no_items, item, end, entry,
  text_key, parse_ovsdb_data, put,
}
use snap_openstack_hyperviso.Ovs.Json.Encoding.{encode, IsColumn, parse_ovsdb_data-encode}
use snap_openstack_hyperviso.Ovs.Tables.{Table, column_of}
use snap_openstack_hyperviso.Ovs.SetCheck.{list_table, set_check, Answers, set_check-Answers}
use snap_openstack_hyperviso.Dpdk.{Mappings}
use snap_openstack_hyperviso.Dpdk.Readiness.{
  dpdk_supported, get_ovs_other_config, dpdk_config_is_ready,
}
use snap_openstack_hyperviso.Dpdk.Found.{SaidInitialized}
use snap_openstack_hyperviso.Dpdk.Ready.{IsReady, dpdk_config_is_ready-IsReady}
use snap_openstack_hyperviso.Dpdk.Settings.{
  OvsSettings, init_settings, with_masks, configure_ovs, OffloadSettled, TimedAlreadySet,
  configure_ovs-AlreadySet,
}

-- A set with a UUID, and a map.
abbrev column : Data
column = map_of (
    entry (text_key (str "ids")) (set_of (item (uuid (str "1234")) no_items))
      (entry (text_key (str "name")) (raw (string (str "br-ex"))) end))

column-IsColumn : IsColumn ok column
unfolding IsColumn text_eq
column-IsColumn = (tt, (refl, tt), refl, (tt, tt, refl, tt))

parse_ovsdb_data-encode_example : parse_ovsdb_data ok (encode column) ≡ ok column
parse_ovsdb_data-encode_example = parse_ovsdb_data-encode ok column column-IsColumn

abbrev pair : Json → Json → Json
pair key value = array (cons key (cons value nil))

-- Each command prints a table in which other_config has these two settings.
abbrev other_config : Json
other_config = pair (string (str "map")) (
    array (
      cons (pair (string (str "hw-offload")) (string (str "true")))
        (cons (pair (string (str "dpdk-init")) (string (str "try"))) nil)))

abbrev table : Text → Result Table
table output = ok (record { headings = str "other_config" ∷ []; rows = (other_config ∷ []) ∷ [] })

abbrev printed : Data → Text
printed d = []

-- Each command prints the next text.
abbrev scripted : List Text → List Text → Outcome × List Text
scripted args [] = (completed [], [])
scripted args (output ∷ rest) = (completed output, rest)

abbrev script : List Text → Session (List Text)
script outputs = record { cli = ovs_cli none none none; world = outputs }

abbrev offload : Dict Text Text
offload = (str "hw-offload", str "true") ∷ []

set_check_test :
    set_check scripted table ok printed
      (str "Open_vSwitch")
      (str ".")
      (str "other_config")
      offload
      (script [])
    ≡ (ok false, script [])
unfolding set_check text_eq put
set_check_test = refl

set_check-Answers_example :
    (parsed : Dict Text Data) × (s : Session (List Text)) × (list_table scripted table ok
        (str "Open_vSwitch")
        (str ".")
        (str "other_config" ∷ [])
        (script [])
      ≡ (ok parsed, s))
    × Answers scripted table ok printed
        (str "Open_vSwitch")
        (str ".")
        (str "other_config")
        offload
        false
        (column_of (str "other_config") parsed)
        s
        (script [])
set_check-Answers_example =
    set_check-Answers scripted table ok printed (str "Open_vSwitch") (str ".") (str "other_config")
      offload (script []) (script []) false set_check_test

abbrev network : OvsSettings
network = record {
  hw_offloading = true;
  ovs_dpdk_enabled = false;
  ovs_memory = none;
  ovs_pmd_cpu_mask = none;
  ovs_lcore_mask = none;
}

abbrev no_dpdk : Text → Result Table
no_dpdk output = ok (record {
  headings = str "other_config" ∷ [];
  rows =
      (pair (string (str "map")) (
          array (
            cons (pair (string (str "hw-offload")) (string (str "true")))
              (cons (pair (string (str "dpdk-init")) (string (str "false"))) nil)))
        ∷ [])
      ∷ [];
})

configure_ovs_test :
    configure_ovs scripted no_dpdk ok printed (str "x86_64") [] network (script [])
    ≡ (ok false, script [])
unfolding configure_ovs text_eq put
configure_ovs_test = refl

configure_ovs-AlreadySet_example :
    (settings : Dict Text Text) × (between : Session (List Text)) × (init_settings
        (network.ovs_dpdk_enabled && dpdk_supported (str "x86_64"))
        []
      ≡ ok settings)
    × OffloadSettled scripted no_dpdk ok printed network.hw_offloading (script []) between
    × TimedAlreadySet scripted no_dpdk ok printed (with_masks network settings) between (script [])
configure_ovs-AlreadySet_example =
    configure_ovs-AlreadySet scripted no_dpdk ok printed (str "x86_64") [] network (script [])
      (script []) configure_ovs_test

abbrev one_port : Mappings
one_port = record {
  ports =
      (
        str "eth0",
        record {
          pci_address = str "0000:00:19.0";
          mtu = none;
          bridge = some (str "br-ex");
          bond = none;
          dpdk_port_name = str "dpdk-eth0";
        },
      )
      ∷ [];
  bonds = [];
}

-- DPDK is initialised, then the table, the bridges, the interfaces of br-ex, and those of the switch.
abbrev outputs : List Text
outputs = str "true" ∷ str "{}" ∷ str "br-ex" ∷ str "dpdk-eth0" ∷ str "dpdk-eth0" ∷ []

ready_test :
    dpdk_config_is_ready scripted table ok (str "x86_64") one_port true false (script outputs)
    ≡ (ok true, script [])
unfolding dpdk_config_is_ready text_eq put keep_if splitlines
ready_test = refl

dpdk_config_is_ready-IsReady_example :
    (config : Data) × (s1 : Session (List Text)) × (s2 : Session (List Text)) × SaidInitialized
      scripted
      (script outputs)
      s1
    × (get_ovs_other_config scripted table ok s1 ≡ (ok config, s2))
    × IsReady scripted config (str "x86_64") one_port false s2 (script [])
dpdk_config_is_ready-IsReady_example =
    dpdk_config_is_ready-IsReady scripted table ok (str "x86_64") one_port false (script outputs)
      (script []) ready_test
