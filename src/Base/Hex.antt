-- ===== src/Base/Hex.antt =====
-- `int(s, 16)` and the format `%0<width>x`. Of the digits that Python knows, the model has the
-- ASCII ones.
use Prim.Native.Nat.{ℕ, zero, suc, ◌+◌, ◌-◌, ◌*◌, ◌/◌, ◌%◌}
use mathlib.Core.Path.{◌≡◌, refl}
use native.Mathlib.Omega.{arith}
use mathlib.Core.Bool.{Bool, true, false, ◌&&◌, ◌||◌}
use mathlib.Core.Option.{Option, none, some}
use mathlib.Core.List.{[], ◌∷◌, ◌++◌}
use snap_openstack_hyperviso.Base.Equality.{if◌then◌else◌}
use snap_openstack_hyperviso.Base.Lists.{length}
use snap_openstack_hyperviso.Base.Text.{Text, leb, char_eq, strip, has_char}

unfoldable pub hex_value : ℕ → Option ℕ
hex_value c =
    if leb b'0' c && leb c b'9'
    then some (c - 48)
    else if leb b'a' c && leb c b'f'
    then some (c - 87)
    else if leb b'A' c && leb c b'F'
    then some (c - 55)
    else none

-- The digits after `n`; the flag says that an underscore may stand here.
unfoldable pub digits_onto : Bool → ℕ → Text → Option ℕ
unfolding hex_value
digits_onto separator n [] = if separator then some n else none
digits_onto separator n (c ∷ s) = elim (hex_value c) [
  | some d ↦ digits_onto true (n * 16 + d) s
  | none ↦ if char_eq c b'_' && separator then digits_onto false n s else none
]

-- An underscore may stand between digits, and between the prefix and the first digit.
abbrev after_prefix : Text → Option ℕ
after_prefix (a ∷ b ∷ s) =
    if char_eq a b'0' && (char_eq b b'x' || char_eq b b'X')
    then digits_onto_start true s
    else digits_onto_start false (a ∷ b ∷ s)
  where
    digits_onto_start : Bool → Text → Option ℕ
    digits_onto_start p [] = none
    digits_onto_start p (c ∷ s) =
        if char_eq c b'_' && p then digits_onto false 0 s else digits_onto false 0 (c ∷ s)
after_prefix s = digits_onto false 0 s

-- A number with its sign.
pub record Signed : Type 0 where
  pub negative : Bool
  pub magnitude : ℕ

abbrev with_sign : Bool → Option ℕ → Option Signed
with_sign negative none = none
with_sign negative (some n) = some (record { negative = negative; magnitude = n })

abbrev after_sign : Text → Option Signed
after_sign [] = none
after_sign (c ∷ s) =
    if char_eq c b'-'
    then with_sign true (after_prefix s)
    else if char_eq c b'+'
    then with_sign false (after_prefix s)
    else with_sign false (after_prefix (c ∷ s))

-- `int(s, 16)`; `none` is a `ValueError`.
unfoldable pub parse_int16 : Text → Option Signed
unfolding strip digits_onto
parse_int16 s = after_sign (strip s)

abbrev hex_digit : ℕ → ℕ
hex_digit d = if leb d 9 then 48 + d else 87 + d

-- The fuel is more than the number, which is more than enough: each round drops a digit.
hex_onto : ℕ → ℕ → Text → Text
hex_onto zero n acc = acc
hex_onto (suc fuel) n acc =
    let rest = hex_onto fuel (n / 16) (hex_digit (n % 16) ∷ acc) in
    if leb n 15 then hex_digit n ∷ acc else rest

unfoldable pub hex : ℕ → Text
unfolding hex_onto
hex n = hex_onto (n + 1) n []

unfoldable pub zeros : ℕ → Text
zeros zero = []
zeros (suc n) = b'0' ∷ zeros n

abbrev pad : ℕ → Text → Text
pad width s = zeros (width - length s) ++ s

-- `"%0<width>x" % n`: the sign counts as a character.
unfoldable pub format_hex : ℕ → Signed → Text
unfolding hex zeros
format_hex width n =
    if n.negative && leb 1 n.magnitude
    then b'-' ∷ pad (width - 1) (hex n.magnitude)
    else pad width (hex n.magnitude)

zeros-no_colon : (n : ℕ) (s : Text) → has_char b':' s ≡ false → has_char b':' (zeros n ++ s) ≡ false
unfolding zeros
zeros-no_colon zero s h = h
zeros-no_colon (suc n) s h = zeros-no_colon n s h

hex_digit-no_colon :
    (d : ℕ) (acc : Text) → has_char b':' acc ≡ false → has_char b':' (hex_digit d ∷ acc) ≡ false
hex_digit-no_colon d acc h = ground (arith, h)

hex_onto-no_colon :
    (fuel n : ℕ) (acc : Text)
    → has_char b':' acc ≡ false
    → has_char b':' (hex_onto fuel n acc) ≡ false
unfolding hex_onto
hex_onto-no_colon zero n acc h = h
hex_onto-no_colon (suc fuel) n acc h =
    let rest =
      hex_onto-no_colon fuel (n / 16) (hex_digit (n % 16) ∷ acc)
        (hex_digit-no_colon (n % 16) acc h) in
    ground (arith, rest, hex_digit-no_colon n acc h)

-- A number that is not negative is written without a colon.
pub has_char-format_hex :
    (width n : ℕ)
    → has_char b':' (format_hex width (record { negative = false; magnitude = n })) ≡ false
unfolding format_hex hex
has_char-format_hex width n =
    zeros-no_colon (width - length (hex n)) (hex n) (hex_onto-no_colon (n + 1) n [] refl)
