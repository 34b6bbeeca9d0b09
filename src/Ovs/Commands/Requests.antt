-- ===== src/Ovs/Commands/Requests.antt =====
-- The commands of ovs-vsctl that the methods of `OVSCli` ask for
-- (openstack_hypervisor/bridge_datapath.py), written out word by word, beside the argument lists that
-- the methods build.
use snap_openstack_hyperviso.Base.{
  ◌≡◌, refl, sym, ap, ◌∙◌, ℕ, zero, suc, Option, none, some, map, if◌then◌else◌, is_empty, arith,
  Bool, true, false, not, ◌||◌, List, [], ◌∷◌, ◌++◌,
}
use snap_openstack_hyperviso.Base.Dict.{Dict}
use snap_openstack_hyperviso.Base.Text.{Text, str, given}
use snap_openstack_hyperviso.Base.Decimal.{decimal}
use mathlib.Core.List.{append_assoc, append-nil}
use snap_openstack_hyperviso.Ovs.Transaction.{separated}
use snap_openstack_hyperviso.Ovs.Commands.{
  setting_args, flag, mtu_args, set_args, add_bridge_args, PortOptions, add_port_args, BondOptions,
  add_bond_args,
}

-- A call of a method that returns nothing.
pub data Call : Type 0 where
  set_call : (table row column : Text) → Dict Text Text → Call
  add_bridge_call : (bridge_name datapath_type : Text) → List Text → Call
  del_bridge_call : (bridge_name : Text) → Call
  add_port_call : (bridge_name port_name : Text) → PortOptions → Call
  del_port_call : (bridge_name port_name : Text) → Call
  add_bond_call : (bridge_name bond_name : Text) → List Text → BondOptions → Call

-- The commands that the call stands for: one, or none if there is nothing to set.
abbrev pub commands_of : Call → List (List Text)
commands_of (set_call table row column []) = []
commands_of (set_call table row column (s ∷ settings)) =
    set_args table row column (s ∷ settings) ∷ []
commands_of (add_bridge_call bridge datapath_type args) =
    add_bridge_args bridge datapath_type args ∷ []
commands_of (del_bridge_call bridge) = (str "del-br" ∷ bridge ∷ []) ∷ []
commands_of (add_port_call bridge port options) = add_port_args bridge port options ∷ []
commands_of (del_port_call bridge port) =
    (str "--if-exists" ∷ str "del-port" ∷ bridge ∷ port ∷ []) ∷ []
commands_of (add_bond_call bridge bond ports options) = add_bond_args bridge bond ports options ∷ []

abbrev pub all_commands : List Call → List (List Text)
all_commands [] = []
all_commands (c ∷ cs) = commands_of c ++ all_commands cs

-- The words of the option, if it has a value that is not empty.
abbrev pub for_given : Text → Option Text → List Text
for_given prefix none = []
for_given prefix (some []) = []
for_given prefix (some (c ∷ value)) = (prefix ++ (c ∷ value)) ∷ []

-- One command for these words, or none if there are no words.
abbrev pub unless_empty : List Text → List Text → List (List Text)
unless_empty words [] = []
unless_empty words (x ∷ xs) = (words ++ (x ∷ xs)) ∷ []

-- `column:key=value` for each entry.
abbrev pub assignments : Text → Dict Text Text → List Text
assignments column settings =
    map (λ (key, value). column ++ (str ":" ++ (key ++ (str "=" ++ value)))) settings

abbrev pub mtu_request : Text → Option ℕ → List (List Text)
mtu_request port none = []
mtu_request port (some zero) = []
mtu_request port (some (suc n)) =
    (str "set" ∷ str "Interface" ∷ port ∷ (str "mtu-request=" ++ decimal (suc n)) ∷ []) ∷ []

-- The commands of ovs-vsctl that the call asks for.
abbrev pub requests : Call → List (List Text)
requests (set_call table row column settings) =
    unless_empty (str "set" ∷ table ∷ row ∷ []) (assignments column settings)
requests (add_bridge_call bridge datapath_type args) =
    (str "--may-exist" ∷ str "add-br" ∷ bridge ∷ [])
    ∷ (str "set" ∷ str "bridge" ∷ bridge ∷ (str "datapath_type=" ++ datapath_type) ∷ args)
    ∷ []
requests (del_bridge_call bridge) = (str "del-br" ∷ bridge ∷ []) ∷ []
requests (add_port_call bridge port options) =
    (str "--may-exist" ∷ str "add-port" ∷ bridge ∷ port ∷ [])
    ∷ (unless_empty (str "set" ∷ str "Interface" ∷ port ∷ [])
          (for_given (str "type=") options.port_type)
        ++ (mtu_request port options.mtu
            ++ (unless_empty (str "set" ∷ str "Interface" ∷ port ∷ [])
                  (assignments (str "options") options.options)
                ++ unless_empty (str "set" ∷ str "Port" ∷ port ∷ [])
                    (assignments (str "external_ids") options.external_ids))))
requests (del_port_call bridge port) =
    (str "--if-exists" ∷ str "del-port" ∷ bridge ∷ port ∷ []) ∷ []
requests (add_bond_call bridge bond ports options) =
    (str "--may-exist" ∷ str "add-bond" ∷ bridge ∷ bond ∷ ports)
    ∷ unless_empty (str "set" ∷ str "port" ∷ bond ∷ []) (
        for_given (str "bond_mode=") options.bond_mode
        ++ (for_given (str "lacp=") options.lacp_mode
            ++ for_given (str "other-config:lacp-time=") options.lacp_time))

abbrev pub all_requests : List Call → List (List Text)
all_requests [] = []
all_requests (c ∷ cs) = requests c ++ all_requests cs

separated-append : (cs ds : List (List Text)) → separated (cs ++ ds) ≡ separated cs ++ separated ds
separated-append [] ds = refl
separated-append (c ∷ cs) ds =
    ap (λ r. str "--" ∷ (c ++ r)) (separated-append cs ds)
    ∙ ap (λ r. str "--" ∷ r) (sym (append_assoc c (separated cs) (separated ds)))

setting_args-assignments :
    (column : Text) (settings : Dict Text Text)
    → setting_args column settings ≡ assignments column settings
setting_args-assignments column [] = refl
setting_args-assignments column ((key, value) ∷ settings) =
    ap (λ r. (column ++ (str ":" ++ (key ++ (str "=" ++ value)))) ∷ r)
      (setting_args-assignments column settings)

-- The optional part of a command line that `set` of a column makes.
settings_part :
    (words : List Text) (column : Text) (settings : Dict Text Text)
    → (if is_empty settings then [] else (str "--" ∷ words) ++ setting_args column settings)
      ≡ separated (unless_empty words (assignments column settings))
settings_part words column [] = refl
settings_part words column (s ∷ settings) =
    ap (λ r. str "--" ∷ (words ++ r)) (setting_args-assignments column (s ∷ settings))
    ∙ sym (append-nil _)

type_part :
    (words : List Text) (port_type : Option Text)
    → (if given port_type then (str "--" ∷ words) ++ flag (str "type=") port_type else [])
      ≡ separated (unless_empty words (for_given (str "type=") port_type))
type_part words none = refl
type_part words (some []) = refl
type_part words (some (c ∷ s)) = sym (append-nil _)

mtu_part : (port : Text) (mtu : Option ℕ) → mtu_args port mtu ≡ separated (mtu_request port mtu)
mtu_part port none = refl
mtu_part port (some zero) = refl
mtu_part port (some (suc n)) = refl

flag-for_given : (prefix : Text) (o : Option Text) → flag prefix o ≡ for_given prefix o
flag-for_given prefix none = refl
flag-for_given prefix (some []) = refl
flag-for_given prefix (some (c ∷ s)) = refl

filled-for_given :
    (prefix : Text) (o : Option Text) (rest : List Text) (b : Bool)
    → is_empty rest ≡ not b
    → is_empty (for_given prefix o ++ rest) ≡ not (given o || b)
filled-for_given prefix none rest b h = h
filled-for_given prefix (some []) rest b h = h
filled-for_given prefix (some (c ∷ s)) rest b h = refl

words_part :
    (words : List Text) (b : Bool) (xs : List Text)
    → is_empty xs ≡ not b
    → (if b then (str "--" ∷ words) ++ xs else []) ≡ separated (unless_empty words xs)
words_part words true [] h = cc
words_part words true (x ∷ xs) h = sym (append-nil _)
words_part words false [] h = refl
words_part words false (x ∷ xs) h = cc

or_assoc : (a b c : Bool) → (a || (b || c)) ≡ ((a || b) || c)
or_assoc a b c = ground arith

bond_part :
    (words : List Text) (bond : BondOptions)
    → (if given bond.bond_mode || given bond.lacp_mode || given bond.lacp_time
        then (str "--" ∷ words)
          ++ (flag (str "bond_mode=") bond.bond_mode
              ++ (flag (str "lacp=") bond.lacp_mode
                  ++ flag (str "other-config:lacp-time=") bond.lacp_time))
        else [])
      ≡ separated (
          unless_empty words (
            for_given (str "bond_mode=") bond.bond_mode
            ++ (for_given (str "lacp=") bond.lacp_mode
                ++ for_given (str "other-config:lacp-time=") bond.lacp_time)))
bond_part words bond =
    rw
      (
        flag-for_given (str "bond_mode=") bond.bond_mode,
        flag-for_given (str "lacp=") bond.lacp_mode,
        flag-for_given (str "other-config:lacp-time=") bond.lacp_time,
      )
      (words_part words (given bond.bond_mode || given bond.lacp_mode || given bond.lacp_time) _ (
        filled-for_given (str "bond_mode=") bond.bond_mode _ _
          (filled-for_given (str "lacp=") bond.lacp_mode _ _ (filled-last bond.lacp_time))
        ∙ ap not (or_assoc (given bond.bond_mode) (given bond.lacp_mode) (given bond.lacp_time))))
  where
    filled-last :
        (o : Option Text) → is_empty (for_given (str "other-config:lacp-time=") o) ≡ not (given o)
    filled-last none = refl
    filled-last (some []) = refl
    filled-last (some (c ∷ s)) = refl

separated_commands : (c : Call) → separated (commands_of c) ≡ separated (requests c)
unfolding set_args add_bridge_args add_port_args add_bond_args
separated_commands (set_call table row column []) = refl
separated_commands (set_call table row column (s ∷ settings)) =
    ap (λ r. str "--" ∷ str "set" ∷ table ∷ row ∷ (r ++ []))
      (setting_args-assignments column (s ∷ settings))
separated_commands (add_bridge_call bridge datapath_type args) = refl
separated_commands (del_bridge_call bridge) = refl
separated_commands (add_port_call bridge port options) =
    append-nil _
    ∙ ap (λ r. str "--" ∷ str "--may-exist" ∷ str "add-port" ∷ bridge ∷ port ∷ r)
        (rw
          (
            type_part (str "set" ∷ str "Interface" ∷ port ∷ []) options.port_type,
            mtu_part port options.mtu,
            settings_part (str "set" ∷ str "Interface" ∷ port ∷ []) (str "options") options.options,
            settings_part (str "set" ∷ str "Port" ∷ port ∷ []) (str "external_ids")
                options.external_ids,
            separated-append,
            separated-append,
            separated-append,
          )
          refl)
separated_commands (del_port_call bridge port) = refl
separated_commands (add_bond_call bridge bond ports options) =
    append-nil _
    ∙ ap (λ r. str "--" ∷ str "--may-exist" ∷ str "add-bond" ∷ bridge ∷ bond ∷ (ports ++ r))
        (bond_part (str "set" ∷ str "port" ∷ bond ∷ []) options)

pub separated_all : (cs : List Call) → separated (all_commands cs) ≡ separated (all_requests cs)
separated_all [] = refl
separated_all (c ∷ cs) =
    separated-append (commands_of c) (all_commands cs)
    ∙ rw (separated_commands c, separated_all cs) refl
    ∙ sym (separated-append (requests c) (all_requests cs))
