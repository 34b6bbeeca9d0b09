-- ===== src/Networking/Waiting.antt =====
-- The loop of `_wait_for_interface` (openstack_hypervisor/hooks.py) ends.
use mathlib.Core.Option.{none-ne-some}
use snap_openstack_hyperviso.Base.{
  ℕ, zero, suc, ◌+◌, ◌-◌, ◌*◌, ◌≤◌, ◌<◌, ◌≡◌, refl, sym, ap, subst, ◌∙◌, true, false, some,
  Bool-cases, if_true, if_false, inl, inr, ◌⊎◌, Result, ok, err, timeout_error, ◌++◌, arith,
}
use snap_openstack_hyperviso.Base.Text.{Text, str, leb}
use snap_openstack_hyperviso.Ovs.{Session}
use snap_openstack_hyperviso.Networking.{
  Links, now, is_there, asleep, waited, wait_rounds, wait_for_interface,
}

later :
    (start k now next : ℕ)
    → (start + k * 1000) ≤ now
    → (now + 1000) ≤ next
    → (start + suc k * 1000) ≤ next
later start k now next h g = omega arith

early : (start k now : ℕ) → (start + k * 1000) ≤ now → leb (now - start) 30000 ≡ true → suc k ≤ 31
early start k now h t = ground arith

passed : (d : ℕ) → leb d 30000 ≡ false → 30000 < d
passed d h = ground arith

module _ {W : Type 0} (links : Links W)
    (advances : (w : W) → (links.monotonic w + 1000) ≤ links.monotonic (links.sleep_one w))
    (interface : Text) where
  -- The interface is there, or it is not, and half a minute has passed.
  abbrev pub Ended : ℕ → Result (Unit {0}) × Session W → Type 0
  Ended start (r, s) =
      ((r ≡ ok tt) × (is_there links interface s ≡ true))
      ⊎ ((r
            ≡ err (
                timeout_error
                  (str "Timed out waiting for " ++ (interface ++ str " to be created"))))
          × (is_there links interface s ≡ false)
          × (30000 < (now links s - start)))

  abbrev Finds : ℕ → ℕ → Session W → Type 0
  Finds rounds start s =
      (p : Result (Unit {0}) × Session W) × (wait_rounds links rounds interface start s ≡ some p)
      × Ended start p

  timed_out : Result (Unit {0})
  timed_out =
      err (timeout_error (str "Timed out waiting for " ++ (interface ++ str " to be created")))

  round-there :
      (rounds start : ℕ) (s : Session W)
      → is_there links interface s ≡ true
      → wait_rounds links (suc rounds) interface start s ≡ some (ok tt, s)
  unfolding wait_rounds
  round-there rounds start s t = if_true _ _ _ t

  round-again :
      (rounds start : ℕ) (s : Session W)
      → is_there links interface s ≡ false
      → leb (now links s - start) 30000 ≡ true
      → wait_rounds links (suc rounds) interface start s
        ≡ wait_rounds links rounds interface start (asleep links s)
  unfolding wait_rounds
  round-again rounds start s f t = if_false _ _ _ f ∙ if_true _ _ _ t

  round-late :
      (rounds start : ℕ) (s : Session W)
      → is_there links interface s ≡ false
      → leb (now links s - start) 30000 ≡ false
      → wait_rounds links (suc rounds) interface start s ≡ some (timed_out, s)
  unfolding wait_rounds timed_out
  round-late rounds start s f g = if_false _ _ _ f ∙ if_false _ _ _ g

  rounds-Finds :
      (rounds k start : ℕ) (s : Session W)
      → (start + k * 1000) ≤ now links s
      → k ≤ 31
      → 32 ≤ (rounds + k)
      → Finds rounds start s
  unfolding timed_out
  rounds-Finds zero k start s late small enough = absurd (omega arith)
  rounds-Finds (suc rounds) k start s late small enough =
      elim (Bool-cases (is_there links interface s)) [
        | inl t ↦ ((ok tt, s), round-there rounds start s t, inl (refl, t))
        | inr f ↦ elim (Bool-cases (leb (now links s - start) 30000)) [
          | inl t ↦
              let (p, e, q) =
                rounds-Finds rounds (suc k) start (asleep links s)
                  (later start k _ _ late (advances s.world)) (early start k _ late t)
                  (omega arith) in
              (p, round-again rounds start s f t ∙ e, q)
          | inr g ↦ ((timed_out, s), round-late rounds start s f g, inr (refl, f, passed _ g))
        ]
      ]

  no_rounds :
      (start : ℕ) (s : Session W) (p : Result (Unit {0}) × Session W)
      → wait_rounds links 0 interface start s ≡ some p
      → ⊥
  unfolding wait_rounds
  no_rounds start s p h = none-ne-some _ h

  wait_rounds-more :
      (rounds more start : ℕ) (s : Session W) (p : Result (Unit {0}) × Session W)
      → rounds ≤ more
      → wait_rounds links rounds interface start s ≡ some p
      → wait_rounds links more interface start s ≡ some p
  wait_rounds-more zero more start s p le h = absurd (no_rounds start s p h)
  wait_rounds-more (suc rounds) zero start s p le h = absurd (omega arith)
  wait_rounds-more (suc rounds) (suc more) start s p le h =
      elim (Bool-cases (is_there links interface s)) [
        | inl t ↦ round-there more start s t ∙ sym (round-there rounds start s t) ∙ h
        | inr f ↦ elim (Bool-cases (leb (now links s - start) 30000)) [
          | inl t ↦
              round-again more start s f t
              ∙ wait_rounds-more rounds more start (asleep links s) p (omega arith)
                  (sym (round-again rounds start s f t) ∙ h)
          | inr g ↦ round-late more start s f g ∙ sym (round-late rounds start s f g) ∙ h
        ]
      ]

  -- Waiting for an interface ends within 32 rounds, if the clock goes on by a second at least in each
  -- sleep: with more rounds the loop ends in the same way. Then the interface is there, or a
  -- time-out is raised, half a minute has passed, and the interface is not there.
  pub wait_for_interface-Ended :
      (s : Session W) (rounds : ℕ)
      → 32 ≤ rounds
      → (wait_rounds links rounds interface (now links s) s
          ≡ some (wait_for_interface links interface s))
        × Ended (now links s) (wait_for_interface links interface s)
  unfolding wait_for_interface
  wait_for_interface-Ended s rounds enough =
      let (p, e, q) = rounds-Finds 32 0 (now links s) s (omega arith) (omega arith) (omega arith) in
      (
        wait_rounds-more 32 rounds (now links s) s p enough e
            ∙ ap some (sym (ap (waited links s) e)),
        subst (Ended (now links s)) (sym (ap (waited links s) e)) q,
      )
