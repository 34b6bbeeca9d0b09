-- ===== src/Base/Integer.antt =====
-- `int(text)`: white space around the number, a sign, and digits with single underscores between.
use Prim.Native.Nat.{ℕ, ◌+◌, ◌-◌, ◌*◌}
use mathlib.Core.Bool.{Bool, true, false, ◌&&◌}
use mathlib.Core.Option.{Option, none, some}
use mathlib.Core.List.{[], ◌∷◌}
use snap_openstack_hyperviso.Base.Equality.{if◌then◌else◌}
use snap_openstack_hyperviso.Base.Text.{Text, str, leb, char_eq, strip}
use snap_openstack_hyperviso.Base.Hex.{Signed}
use snap_openstack_hyperviso.Base.Exceptions.{Result, ok, err, value_error}

-- The digits after `n`; the flag says that an underscore may stand here.
unfoldable pub decimal_digits_onto : Bool → ℕ → Text → Option ℕ
decimal_digits_onto separator n [] = if separator then some n else none
decimal_digits_onto separator n (c ∷ s) =
    let digit = decimal_digits_onto true (n * 10 + (c - 48)) s in
    let after_separator = decimal_digits_onto false n s in
    if leb b'0' c && leb c b'9'
    then digit
    else if char_eq c b'_' && separator
    then after_separator
    else none

abbrev with_sign : Bool → Option ℕ → Result Signed
with_sign negative none = err (value_error (str "invalid literal for int() with base 10"))
with_sign negative (some n) = ok (record { negative = negative; magnitude = n })

abbrev after_sign : Text → Result Signed
after_sign [] = with_sign false none
after_sign (c ∷ s) =
    if char_eq c b'-'
    then with_sign true (decimal_digits_onto false 0 s)
    else if char_eq c b'+'
    then with_sign false (decimal_digits_onto false 0 s)
    else with_sign false (decimal_digits_onto false 0 (c ∷ s))

unfoldable pub int : Text → Result Signed
unfolding strip decimal_digits_onto
int s = after_sign (strip s)
