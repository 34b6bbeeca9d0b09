-- ===== src/Ovs.antt =====
-- openstack_hypervisor/bridge_datapath.py: `OVSCli`, the client of ovs-vsctl. This file has its
-- state and the methods that run or collect commands; the children have the queries, the
-- commands that change the switch, and the proofs.
-- The operating system is the parameter `run`: it takes a command line and the state of the
-- world, which it may change, and says how the process ended.
pub mod Transaction
pub mod Queries
pub mod ReadOnly
pub mod Json
pub mod Tables
pub mod Commands
pub mod SetCheck
pub mod Ports
use snap_openstack_hyperviso.Base.{
  ℕ, zero, suc, Bool, true, false, not, ◌&&◌, Option, none, some, List, [], ◌∷◌, ◌++◌,
  if◌then◌else◌, is_empty, Result, ok, err, Exc, ovs_error, ovs_command_error, ovs_timeout_error,
}
use snap_openstack_hyperviso.Base.Text.{Text, str, truthy, or_none, given, strip, has_part}
use snap_openstack_hyperviso.Base.Dict.{or_default}
use snap_openstack_hyperviso.Base.Decimal.{decimal}
use snap_openstack_hyperviso.Base.Effects.{Exec, pure, raise, lift, finally, ◌>>=◌, ◌>>◌}

pub record OvsCli : Type 0 where
  pub db_sock : Option Text
  pub switchd_ctl_socket : Option Text
  pub in_transaction : Bool
  pub transaction_commands : List (List Text)
  pub timeout : Option ℕ

-- `OVSCli(db_sock, switchd_ctl_socket, timeout)`
abbrev pub ovs_cli : Option Text → Option Text → Option ℕ → OvsCli
ovs_cli db_sock switchd_ctl_socket timeout = record {
  db_sock = db_sock;
  switchd_ctl_socket = switchd_ctl_socket;
  in_transaction = false;
  transaction_commands = [];
  timeout = timeout;
}

-- How `subprocess.run(…, check=True)` ends. The exit code is the text that Python prints for it. That
-- the binary may not be executed, and that its output is not UTF-8, are left out.
pub data Outcome : Type 0 where
  completed : (stdout : Text) → Outcome
  binary_not_found : Outcome
  exited : (code stdout stderr : Text) → Outcome

-- The client and the world that its commands act on.
pub record Session (W : Type 0) : Type 0 where
  pub cli : OvsCli
  pub world : W

-- `a or b` of two optional numbers, of which 0 counts as missing.
abbrev pub or_number : Option ℕ → Option ℕ → Option ℕ
or_number none b = b
or_number (some zero) b = b
or_number (some (suc n)) b = some (suc n)

abbrev pub db_args : Option Text → List Text
db_args none = []
db_args (some sock) = if truthy sock then (str "--db=" ++ sock) ∷ [] else []

abbrev pub timeout_args : Option ℕ → List Text
timeout_args none = []
timeout_args (some n) = (str "--timeout=" ++ decimal n) ∷ []

-- The command line of `_execute_vsctl`.
unfoldable pub vsctl_command : OvsCli → List Text → Bool → Option ℕ → List Text
unfolding decimal
vsctl_command cli args retry timeout =
    str "ovs-vsctl"
    ∷ (db_args cli.db_sock
        ++ ((if retry then str "--retry" ∷ [] else [])
            ++ (timeout_args (or_number timeout cli.timeout) ++ args)))

-- `stderr or stdout or "Command failed …"`, both stripped.
unfoldable pub error_details : Text → Text → Text → Text
unfolding strip
error_details code stdout stderr =
    if truthy (strip stderr)
    then strip stderr
    else if truthy (strip stdout)
    then strip stdout
    else str "Command failed with exit code " ++ code

unfoldable pub vsctl_outcome : Outcome → Result Text
unfolding error_details has_part
vsctl_outcome (completed stdout) = ok stdout
vsctl_outcome binary_not_found = err (ovs_command_error (str "ovs-vsctl binary not found"))
vsctl_outcome (exited code stdout stderr) =
    let details = error_details code stdout stderr in
    if has_part (str "Alarm clock") details
    then err (ovs_timeout_error details)
    else err (ovs_command_error details)

unfoldable pub appctl_outcome : Outcome → Result Text
unfolding error_details
appctl_outcome (completed stdout) = ok stdout
appctl_outcome binary_not_found = err (ovs_command_error (str "ovs-appctl binary not found"))
appctl_outcome (exited code stdout stderr) =
    err (ovs_command_error (error_details code stdout stderr))

abbrev no_ctl_socket : Text
no_ctl_socket =
    str "switchd_ctl_socket is not configured. Cannot run appctl command. "
    ++ str "Ensure external OVS is properly connected."

-- The commands of a transaction, with `--` between them.
unfoldable pub batch_args : List (List Text) → List Text
batch_args [] = []
batch_args (c ∷ []) = c
batch_args (c ∷ d ∷ rest) = c ++ (str "--" ∷ batch_args (d ∷ rest))

abbrev pub reset_transaction : {W : Type 0} → Session W → Session W
reset_transaction s = record s {
  cli = record s.cli { in_transaction = false; transaction_commands = [] };
}

abbrev pub drop_commands : {W : Type 0} → Session W → Session W
drop_commands s = record s { cli = record s.cli { transaction_commands = [] } }

module _ {W : Type 0} (run : List Text → W → Outcome × W) where
  unfoldable pub execute_vsctl : List Text → Bool → Option ℕ → Exec (Session W) Text
  unfolding vsctl_command vsctl_outcome
  execute_vsctl args retry timeout s =
      let (outcome, world) = run (vsctl_command s.cli args retry timeout) s.world in
      (vsctl_outcome outcome, record s { world = world })

  unfoldable pub vsctl : List Text → Bool → Option ℕ → Bool → Exec (Session W) Text
  unfolding execute_vsctl
  vsctl args retry timeout skip_transaction s =
      if s.cli.in_transaction && not skip_transaction
      then (
        ok [],
        record s {
          cli = record s.cli { transaction_commands = s.cli.transaction_commands ++ (args ∷ []) };
        },
      )
      else execute_vsctl args retry timeout s

  unfoldable pub commit : Bool → Exec (Session W) Text
  unfolding execute_vsctl batch_args
  commit retry s =
      if is_empty s.cli.transaction_commands
      then (ok [], s)
      else finally (execute_vsctl (batch_args s.cli.transaction_commands) retry none) drop_commands
          s

  -- `with cli.transaction(retry): body`
  unfoldable pub transaction : {A : Type 0} → Bool → Exec (Session W) A → Exec (Session W) A
  unfolding commit
  transaction retry body s =
      if s.cli.in_transaction
      then (err (ovs_error (str "Nested transactions are not supported")), s)
      else finally (do a ← body; commit retry; pure a) reset_transaction
          (record s { cli = record s.cli { in_transaction = true; transaction_commands = [] } })

  -- `with cli.with_timeout(timeout): body`
  unfoldable pub with_timeout : {A : Type 0} → ℕ → Exec (Session W) A → Exec (Session W) A
  with_timeout timeout body s =
      finally body (λ t. record t { cli = record t.cli { timeout = s.cli.timeout } })
        (record s { cli = record s.cli { timeout = some timeout } })

  unfoldable pub appctl : List Text → Exec (Session W) Text
  unfolding appctl_outcome
  appctl args s =
      if given s.cli.switchd_ctl_socket
      then (let (outcome, world) =
            run (str "ovs-appctl" ∷ str "--target" ∷ or_default [] s.cli.switchd_ctl_socket ∷ args)
              s.world in
          (appctl_outcome outcome, record s { world = world }))
      else (err (ovs_command_error no_ctl_socket), s)
