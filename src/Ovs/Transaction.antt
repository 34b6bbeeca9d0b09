-- ===== src/Ovs/Transaction.antt =====
-- `OVSCli.transaction` of openstack_hypervisor/bridge_datapath.py around a block that collects
-- commands.
use snap_openstack_hyperviso.Base.{
  ◌≡◌, refl, sym, ap, ◌∙◌, Bool, true, false, none, some, Option, ℕ, if◌then◌else◌, List, [], ◌∷◌,
  ◌++◌, Result, ok, err, Result-cases, inl, inr,
}
use snap_openstack_hyperviso.Base.Text.{Text, str}
use snap_openstack_hyperviso.Base.Decimal.{decimal}
use snap_openstack_hyperviso.Base.Effects.{Exec, pure, continue, ◌>>=◌, ◌>>◌}
use mathlib.Core.List.{append_assoc, append-nil}
use snap_openstack_hyperviso.Ovs.{
  Outcome, Session, OvsCli, or_number, db_args, timeout_args, vsctl_command, vsctl_outcome,
  batch_args, reset_transaction, execute_vsctl, vsctl, commit, transaction,
}

-- The clean-up reads the client's other fields, which `commit` leaves alone.
abbrev pub Idle : {W : Type 0} → Session W → Type 0
Idle s = (s.cli.in_transaction ≡ false) × (s.cli.transaction_commands ≡ [])

abbrev rest_of : List Text → List Text
rest_of [] = []
rest_of (x ∷ xs) = xs

nil-ne-cons : {x : Text} {xs : List Text} → [] ≡ x ∷ xs → ⊥
nil-ne-cons h = cc

-- The commands of a command line, each behind the separator of ovs-vsctl.
abbrev pub separated : List (List Text) → List Text
separated [] = []
separated (c ∷ cs) = str "--" ∷ (c ++ separated cs)

batch_args-separated :
    (c : List Text) (cs : List (List Text)) → batch_args (c ∷ cs) ≡ c ++ separated cs
unfolding batch_args
batch_args-separated c [] = sym (append-nil c)
batch_args-separated c (d ∷ cs) = ap (λ r. c ++ (str "--" ∷ r)) (batch_args-separated d cs)

-- The words for an optional text, an optional number and a flag.
abbrev text_option : Text → Option Text → List Text
text_option prefix none = []
text_option prefix (some []) = []
text_option prefix (some (c ∷ value)) = (prefix ++ (c ∷ value)) ∷ []

abbrev number_option : Text → Option ℕ → List Text
number_option prefix none = []
number_option prefix (some n) = (prefix ++ decimal n) ∷ []

abbrev flag_option : Text → Bool → List Text
flag_option word false = []
flag_option word true = word ∷ []

-- The command line that runs these commands: the client's socket, the flag and the client's time-out
-- stand in front of them.
abbrev pub line_of : OvsCli → Bool → List Text → List Text
line_of cli retry commands =
    str "ovs-vsctl"
    ∷ (text_option (str "--db=") cli.db_sock
        ++ (flag_option (str "--retry") retry
            ++ (number_option (str "--timeout=") cli.timeout ++ commands)))

db_option : (o : Option Text) → db_args o ≡ text_option (str "--db=") o
db_option none = refl
db_option (some []) = refl
db_option (some (c ∷ s)) = refl

timeout_option :
    (o : Option ℕ) → timeout_args (or_number none o) ≡ number_option (str "--timeout=") o
timeout_option none = refl
timeout_option (some n) = refl

retry_option : (b : Bool) → (if b then str "--retry" ∷ [] else []) ≡ flag_option (str "--retry") b
retry_option true = refl
retry_option false = refl

vsctl_command-line :
    (cli : OvsCli) (args : List Text) (retry : Bool)
    → vsctl_command cli args retry none ≡ line_of cli retry args
unfolding vsctl_command
vsctl_command-line cli args retry =
    rw (db_option cli.db_sock, retry_option retry, timeout_option cli.timeout) refl

module _ {W : Type 0} (run : List Text → W → Outcome × W) where
  -- A block of statements that collects the commands, and then returns or raises.
  unfoldable pub collect : {A : Type 0} → List (List Text) → Result A → Exec (Session W) A
  unfolding vsctl
  collect [] r s = (r, s)
  collect (c ∷ rest) r s = (vsctl run c true none false >>= λ _. collect rest r) s

  abbrev pub with_commands : List (List Text) → Session W → Session W
  with_commands cs s = record s {
    cli = record s.cli { in_transaction = true; transaction_commands = cs };
  }

  collect_lem :
      {A : Type 0} (cs : List (List Text)) (r : Result A) (before : List (List Text))
      (s : Session W)
      → collect cs r (with_commands before s) ≡ (r, with_commands (before ++ cs) s)
  unfolding collect
  collect_lem [] r before s = rw append-nil
  collect_lem (c ∷ rest) r before s = collect_lem rest r (before ++ c ∷ []) s ∙ rw append_assoc

  abbrev after_run : {A : Type 0} → A → Session W → Outcome × W → Result A × Session W
  after_run a s (outcome, world) = (
    (continue (vsctl_outcome outcome) (λ _. pure a) s).0,
    record (reset_transaction s) { world = world },
  )

  -- The whole block, run at once or not at all: the commands follow one another in one command line.
  abbrev pub at_once :
      {A : Type 0} → Bool → List (List Text) → Result A → Session W → Result A × Session W
  at_once retry cs (err c) s = (err c, reset_transaction s)
  at_once retry [] (ok a) s = (ok a, reset_transaction s)
  at_once retry (c ∷ cs) (ok a) s =
      after_run a s (run (line_of s.cli retry (c ++ separated cs)) s.world)

  -- The end of the `with` statement, from the result of the block.
  abbrev ending : {A : Type 0} → Bool → Result A → Session W → Result A × Session W
  ending retry r t =
      let (r', t') = continue r (λ a. commit run retry >> pure a) t in (r', reset_transaction t')

  continue-pure :
      {A : Type 0} (o : Result Text) (a : A) (t : Session W)
      → continue o (λ _. pure a) t ≡ ((continue o (λ _. pure a) t).0, t)
  continue-pure (ok _) a t = refl
  continue-pure (err c) a t = refl

  ending-at_once :
      {A : Type 0} (retry : Bool) (cs : List (List Text)) (r : Result A) (s : Session W)
      → ending retry r (with_commands cs s) ≡ at_once retry cs r s
  unfolding commit execute_vsctl
  ending-at_once retry cs (err c) s = refl
  ending-at_once retry [] (ok a) s = refl
  ending-at_once retry (c ∷ cs) (ok a) s =
      rw (batch_args-separated c cs, vsctl_command-line s.cli (c ++ separated cs) retry)
        (let (outcome, world) = run (line_of s.cli retry (c ++ separated cs)) s.world in
          elim (Result-cases (vsctl_outcome outcome)) [ inl (out, e) ↦ rw e | inr (c, e) ↦ rw e ])

  -- Two lists of commands that make the same command line are run in the same way.
  pub at_once-separated :
      {A : Type 0} (retry : Bool) (cs ds : List (List Text)) (r : Result A) (s : Session W)
      → separated cs ≡ separated ds
      → at_once retry cs r s ≡ at_once retry ds r s
  at_once-separated retry cs ds (err c) s h = refl
  at_once-separated retry [] [] (ok a) s h = refl
  at_once-separated retry [] (d ∷ ds) (ok a) s h = absurd (nil-ne-cons h)
  at_once-separated retry (c ∷ cs) [] (ok a) s h = absurd (nil-ne-cons (sym h))
  at_once-separated retry (c ∷ cs) (d ∷ ds) (ok a) s h =
      ap (λ line. after_run a s (run (line_of s.cli retry (rest_of line)) s.world)) h

  -- Outside a transaction, let a block collect commands and then return or raise. If it raises,
  -- the world is as it was; if it returns, all its commands run, in order and with `--` between two
  -- of them, as one command line, or none if there are none. The error of that run is the block's. In each case the transaction is over.
  pub transaction-eq-at_once :
      {A : Type 0} (retry : Bool) (cs : List (List Text)) (r : Result A) (s : Session W)
      → s.cli.in_transaction ≡ false
      → transaction run retry (collect cs r) s ≡ at_once retry cs r s
  unfolding transaction
  transaction-eq-at_once retry cs r s h = rw h (
      rw (collect_lem cs r [] s) (
        ending-at_once retry cs r s ∙ λ i.
        at_once retry cs r (record s { cli = record s.cli { in_transaction = h i } })))

  -- Whatever a block does, a transaction that was opened is over after it, with no command left
  -- for the next one.
  pub transaction-Idle :
      {A : Type 0} (retry : Bool) (body : Exec (Session W) A) (s : Session W)
      → s.cli.in_transaction ≡ false
      → Idle (transaction run retry body s).1
  unfolding transaction
  transaction-Idle retry body s h = rw h (refl, refl)
