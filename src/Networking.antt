-- ===== src/Networking.antt =====
-- openstack_hypervisor/hooks.py: the network interfaces of the host, by pyroute2, and the rules of
-- iptables. The parameter `links` is pyroute2's `IPRoute` and the clock, which counts milliseconds.
pub mod Waiting
pub mod Ovn
pub mod External
pub mod Gateway
use snap_openstack_hyperviso.Base.{
  ℕ, zero, suc, ◌-◌, Bool, true, false, Option, none, some, List, [], ◌∷◌, ◌++◌, map, keep_if,
  if◌then◌else◌, ◌==◌, Result, ok, err, Exc, timeout_error, index_error, netlink_error,
  called_process_error, file_not_found_error,
}
use snap_openstack_hyperviso.Base.Text.{Text, str, truthy, split, strip, leb, char_eq, has_part}
use snap_openstack_hyperviso.Base.Hex.{Signed}
use snap_openstack_hyperviso.Base.Integer.{int}
use snap_openstack_hyperviso.Base.Order.{sorted}
use snap_openstack_hyperviso.Base.Decimal.{decimal}
use snap_openstack_hyperviso.Base.Effects.{Exec, pure, raise, lift, catch, ◌>>=◌, ◌>>◌}
use snap_openstack_hyperviso.Ovs.{Outcome, completed, binary_not_found, exited, Session}
use snap_openstack_hyperviso.Host.{check_output, check_call}

-- How a call of pyroute2 ends.
pub data LinkOutcome : Type 0 where
  done : LinkOutcome
  failed : (code : ℕ) → LinkOutcome

pub record Links (W : Type 0) : Type 0 where
  pub link_lookup : Text → W → List ℕ
  pub add_address : ℕ → Text → Signed → W → LinkOutcome × W
  pub flush_addresses : ℕ → W → LinkOutcome × W
  pub set_up : ℕ → W → LinkOutcome × W
  pub monotonic : W → ℕ
  pub sleep_one : W → W

-- `errno.EEXIST`
abbrev pub eexist : ℕ
eexist = 17

abbrev pub link_result : LinkOutcome → Result (Unit {0})
link_result done = ok tt
link_result (failed code) = err (netlink_error (decimal code))

-- `except NetlinkError as e: if e.code != errno.EEXIST: raise e`
abbrev pub unless_exists : LinkOutcome → Result (Unit {0})
unless_exists done = ok tt
unless_exists (failed code) =
    if char_eq code eexist then ok tt else err (netlink_error (decimal code))

abbrev first_link : List ℕ → Result ℕ
first_link [] = err (index_error (str "list index out of range"))
first_link (dev ∷ rest) = ok dev

-- `ip_mask[1]`; `split` gives one piece at least.
abbrev pub address_and_mask : List Text → Result (Text × Text)
address_and_mask (address ∷ mask ∷ rest) = ok (address, mask)
address_and_mask pieces = err (index_error (str "list index out of range"))

module _ {W : Type 0} (links : Links W) where
  -- An action of pyroute2.
  abbrev pub act :
      (LinkOutcome → Result (Unit {0})) → (W → LinkOutcome × W) → Exec (Session W) (Unit {0})
  act result action s =
      let (outcome, world) = action s.world in (result outcome, record s { world = world })

  abbrev pub lookup_link : Text → Exec (Session W) ℕ
  lookup_link interface s = (first_link (links.link_lookup interface s.world), s)

  abbrev pub now : Session W → ℕ
  now s = links.monotonic s.world

  abbrev pub is_there : Text → Session W → Bool
  is_there interface s = elim (links.link_lookup interface s.world) [ [] ↦ false | ◌∷◌ d ds ↦ true ]

  abbrev pub asleep : Session W → Session W
  asleep s = record s { world = links.sleep_one s.world }

  -- The loop of `_wait_for_interface`, with the time at its start, for so many rounds at most.
  unfoldable pub wait_rounds : ℕ → Text → ℕ → Session W → Option (Result (Unit {0}) × Session W)
  wait_rounds zero interface start s = none
  wait_rounds (suc rounds) interface start s =
      let more = wait_rounds rounds interface start (asleep s) in
      if is_there interface s
      then some (ok tt, s)
      else if leb (now s - start) 30000
      then more
      else some (
        err (timeout_error (str "Timed out waiting for " ++ (interface ++ str " to be created"))),
        s,
      )

  -- The value that is given when the rounds do not suffice is never used.
  abbrev pub waited :
      Session W → Option (Result (Unit {0}) × Session W) → Result (Unit {0}) × Session W
  waited s none = (err (timeout_error []), s)
  waited s (some r) = r

  -- 32 rounds are enough, since each sleeps for a second.
  unfoldable pub wait_for_interface : Text → Exec (Session W) (Unit {0})
  unfolding wait_rounds
  wait_for_interface interface s = waited s (wait_rounds 32 interface (now s) s)

  unfoldable pub add_ip_to_interface : Text → Text → Exec (Session W) (Unit {0})
  unfolding split int decimal
  add_ip_to_interface interface cidr = do
    dev ← lookup_link interface
    ip_mask ← lift (address_and_mask (split b'/' cidr))
    mask ← lift (int ip_mask.1)
    act unless_exists (links.add_address dev ip_mask.0 mask)
    act link_result (links.set_up dev)

  unfoldable pub delete_ips_from_interface : Text → Exec (Session W) (Unit {0})
  unfolding decimal
  delete_ips_from_interface interface = do
    dev ← lookup_link interface
    act link_result (links.flush_addresses dev)

  unfoldable pub ensure_link_up : Text → Exec (Session W) (Unit {0})
  unfolding decimal
  ensure_link_up interface = do dev ← lookup_link interface; act link_result (links.set_up dev)

unfoldable pub rule_def : Text → Text → List Text
rule_def cidr comment =
    str "POSTROUTING"
    ∷ str "-w"
    ∷ str "-t"
    ∷ str "nat"
    ∷ str "-s"
    ∷ cidr
    ∷ str "-j"
    ∷ str "MASQUERADE"
    ∷ str "-m"
    ∷ str "comment"
    ∷ str "--comment"
    ∷ comment
    ∷ []

abbrev first_piece : List Text → Text
first_piece [] = []
first_piece (w ∷ ws) = w

abbrev pub reversed : List Text → List Text
reversed [] = []
reversed (w ∷ ws) = reversed ws ++ (w ∷ [])

-- The numbers of the rules with the comment, in the order in which they are deleted: that of texts,
-- reversed.
unfoldable pub line_numbers : Text → Text → List Text
unfolding strip split sorted keep_if has_part
line_numbers comment listed = reversed (
    sorted (
      map (λ line. first_piece (split b' ' line))
        (keep_if (has_part comment) (split b'\n' (strip listed)))))

module _ {W : Type 0} (run : List Text → W → Outcome × W) where
  -- The handler of both commands: a process that failed is only logged.
  abbrev ignore_failure : Exc → Exec (Session W) (Unit {0})
  ignore_failure (called_process_error m) = pure tt
  ignore_failure c = raise c

  abbrev false_on_failure : Exc → Exec (Session W) Bool
  false_on_failure (called_process_error m) = pure false
  false_on_failure c = raise c

  unfoldable pub add_iptable_postrouting_rule : Text → Text → Exec (Session W) (Unit {0})
  unfolding check_output check_call rule_def
  add_iptable_postrouting_rule cidr comment = do
    found ←
        catch
          (do
            out ← check_output run (str "iptables-legacy" ∷ str "--check" ∷ rule_def cidr comment)
            pure true)
          false_on_failure
    (if found
        then pure tt
        else check_call run (str "iptables-legacy" ∷ str "--append" ∷ rule_def cidr comment))

  -- The loop over the numbers.
  unfoldable pub delete_rules : List Text → Exec (Session W) (Unit {0})
  unfolding check_call
  delete_rules [] = pure tt
  delete_rules (number ∷ rest) = do
    check_call run
        (str "iptables-legacy" ∷ str "-t" ∷ str "nat" ∷ str "-D" ∷ str "POSTROUTING" ∷ number ∷ [])
    delete_rules rest

  unfoldable pub delete_iptable_postrouting_rule : Text → Exec (Session W) (Unit {0})
  unfolding check_output delete_rules line_numbers
  delete_iptable_postrouting_rule comment =
      if truthy comment
      then catch
          (do
            out ← check_output run (
                str "iptables-legacy"
                ∷ str "-t"
                ∷ str "nat"
                ∷ str "-n"
                ∷ str "-v"
                ∷ str "-L"
                ∷ str "POSTROUTING"
                ∷ str "--line-numbers"
                ∷ [])
            delete_rules (line_numbers comment out))
          ignore_failure
      else pure tt
