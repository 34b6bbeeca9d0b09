-- ===== src/Base/Decimal.antt =====
-- `str(n)` of a number that is not negative.
use Prim.Native.Nat.{ℕ, zero, suc, ◌+◌, ◌-◌, ◌*◌, ◌/◌, ◌%◌, ◌<◌}
use mathlib.Core.Path.{◌≡◌, ◌∙◌, ap}
use mathlib.Core.List.{[], ◌∷◌}
use mathlib.Core.Logic.{inl, inr}
use native.Mathlib.Omega.{arith}
use snap_openstack_hyperviso.Base.Equality.{if◌then◌else◌, Bool-cases}
use snap_openstack_hyperviso.Base.Text.{Text, leb}

-- The fuel is more than the number, which is more than enough: each round drops a digit.
decimal_onto : ℕ → ℕ → Text → Text
decimal_onto zero n acc = acc
decimal_onto (suc fuel) n acc =
    let rest = decimal_onto fuel (n / 10) ((48 + n % 10) ∷ acc) in
    if leb n 9 then (48 + n) ∷ acc else rest

unfoldable pub decimal : ℕ → Text
unfolding decimal_onto
decimal n = decimal_onto (n + 1) n []

-- The number that a text of digits stands for, after `n`.
abbrev pub read_onto : ℕ → Text → ℕ
read_onto n [] = n
read_onto n (c ∷ s) = read_onto (n * 10 + (c - 48)) s

read-decimal_onto :
    (fuel n : ℕ) (acc : Text) → n < fuel → read_onto 0 (decimal_onto fuel n acc) ≡ read_onto n acc
unfolding decimal_onto
read-decimal_onto zero n acc h = elim h [ ]
read-decimal_onto (suc fuel) n acc h = elim (Bool-cases (leb n 9)) [
  | inl small ↦ rw small (ap (λ k. read_onto k acc) (omega arith))
  | inr big ↦ rw big (
      read-decimal_onto fuel (n / 10) ((48 + n % 10) ∷ acc) (ground arith)
      ∙ ap (λ k. read_onto k acc) (omega arith))
]

-- The text names the number.
pub read-decimal : (n : ℕ) → read_onto 0 (decimal n) ≡ n
unfolding decimal
read-decimal n = read-decimal_onto (n + 1) n [] (omega arith)
