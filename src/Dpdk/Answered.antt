-- ===== src/Dpdk/Answered.antt =====
-- Tests of openstack_hypervisor/hooks.py that say yes: what they rest on, where a test is asked for
-- only sometimes, or says no after a command that failed.
use mathlib.Core.Bool.{true≢false}
use snap_openstack_hyperviso.Base.{
  ◌≡◌, refl, sym, ap, ◌∙◌, Bool, true, false, if◌then◌else◌, text_eq, Result, ok, err, err-ne-ok,
  ok-injective, Exc, ovs_command_error, ◌||◌, arith,
}
use snap_openstack_hyperviso.Base.Effects.{Exec, pure, catch, on_error, ◌>>=◌, bind-eq-ok}
use snap_openstack_hyperviso.Ovs.{Session}
use snap_openstack_hyperviso.Ovs.Queries.{or_on_command_error}

pub or_right : (a b : Bool) → a ≡ false → (a || b) ≡ true → b ≡ true
or_right a b f h = ground (arith, f, h)

pub if_else_false :
    (b : Bool) {c : Bool} → (if b then c else false) ≡ true → (b ≡ true) × (c ≡ true)
if_else_false true h = (refl, h)
if_else_false false h = absurd (true≢false (sym h))

module _ {S : Type 0} where
  pub if_pure-false :
      (b : Bool) (m : Exec S Bool) (s : S) {s' : S}
      → (if b then m else pure false) s ≡ (ok true, s')
      → (b ≡ true) × (m s ≡ (ok true, s'))
  if_pure-false true m s h = (refl, h)
  if_pure-false false m s h = absurd (true≢false (sym (ok-injective (ap (λ p. p.0) h))))

  pub if_first :
      (b : Bool) (m n : Exec S Bool)
      → b ≡ true
      → (s : S) {r : Result Bool × S} → (if b then m else n) s ≡ r
      → m s ≡ r
  if_first true m n h s e = e
  if_first false m n h s e = absurd (true≢false (sym h))

  -- A test that was asked for said yes, and so did what follows.
  pub asked-eq-true :
      (asked : Bool) (check : Exec S Bool) (next : Exec S Bool) (s : S) {s' : S}
      → (if asked then (check >>= λ ready. if ready then next else pure false) else next) s
        ≡ (ok true, s')
      → (s1 : S) × (asked ≡ true → check s ≡ (ok true, s1)) × (next s1 ≡ (ok true, s'))
  asked-eq-true false check next s h = (s, (λ e. absurd (true≢false (sym e))), h)
  asked-eq-true true check next s h =
      let (ready, s1, e, f) = bind-eq-ok check _ s h in
      let (g, rest) = if_pure-false ready next s1 f in (s1, (λ a. e ∙ ap (λ b. (ok b, s1)) g), rest)

module _ {W : Type 0} where
  no_yes :
      (s : Session W) (c : Exc) {s' : Session W} → or_on_command_error false c s ≡ (ok true, s') → ⊥
  no_yes s (ovs_command_error m) h = true≢false (sym (ok-injective (ap (λ p. p.0) h)))
  no_yes s _ h = err-ne-ok (ap (λ p. p.0) h)

  on_error-eq-true :
      (r : Result Bool) (s : Session W) {s' : Session W}
      → on_error r (or_on_command_error false) s ≡ (ok true, s')
      → ◌≡◌ {A = Result Bool × Session W} (r, s) (ok true, s')
  on_error-eq-true (ok b) s h = h
  on_error-eq-true (err c) s h = absurd (no_yes s c h)

  -- A yes of a test that says no after a failed command comes from the test itself.
  pub tested-eq-true :
      {A : Type 0} (m : Exec (Session W) A) (test : A → Bool) (s : Session W) {s' : Session W}
      → catch (m >>= λ a. pure (test a)) (or_on_command_error false) s ≡ (ok true, s')
      → (a : A) × (m s ≡ (ok a, s')) × (test a ≡ true)
  tested-eq-true m test s h =
      let whole = m >>= λ a. pure (test a) in
      let (a, s1, e, f) =
        bind-eq-ok m (λ a. pure (test a)) s (on_error-eq-true (whole s).0 (whole s).1 h) in
      (a, e ∙ ap (λ t. (ok a, t)) (ap (λ p. p.1) f), ok-injective (ap (λ p. p.0) f))
