-- ===== src/Base/Text.antt =====
-- Python's `str` as a list of code points, with the methods of `str` that the code calls.
use Prim.Native.Nat.{ℕ, ◌+◌, compare, Ordering}
use Prim.Native.Char.{code}
use Prim.Native.String.{String}
use mathlib.Core.Path.{◌≡◌, refl, ap, ◌∙◌}
use mathlib.Core.Bool.{Bool, true, false, ◌&&◌, ◌||◌}
use mathlib.Core.Option.{Option, none, some}
use mathlib.Core.Logic.{inl, inr}
use mathlib.Core.List.{List, [], ◌∷◌, ◌++◌, reverse, reverse-append, reverse-reverse}
use native.Mathlib.Omega.{arith}
use snap_openstack_hyperviso.Base.Equality.{if◌then◌else◌, text_eq, Bool-cases}
use snap_openstack_hyperviso.Base.Lists.{is_empty, All}

abbrev pub Text : Type 0
Text = List ℕ

-- A text literal.
abbrev pub str : String → Text
str String.[] = []
str (String.◌∷◌ c s) = code c ∷ str s

abbrev pub char_eq : ℕ → ℕ → Bool
char_eq a b = elim (compare a b) [ Ordering.eq ↦ true | _ ↦ false ]

abbrev pub leb : ℕ → ℕ → Bool
leb a b = elim (compare a b) [ Ordering.gt ↦ false | _ ↦ true ]

pub char_eq→eq : (a b : ℕ) → char_eq a b ≡ true → a ≡ b
char_eq→eq a b h = ground arith

pub char_eq_refl : (a : ℕ) → char_eq a a ≡ true
char_eq_refl a = ground arith

-- `c in s` for one character
abbrev pub has_char : ℕ → Text → Bool
has_char c [] = false
has_char c (x ∷ s) = char_eq x c || has_char c s

-- The characters that `str.isspace` knows, which `str.strip` removes.
unfoldable pub is_space : ℕ → Bool
is_space c =
    (leb 9 c && leb c 13)
    || (leb 28 c && leb c 32)
    || char_eq c 133
    || char_eq c 160
    || char_eq c 5760
    || (leb 8192 c && leb c 8202)
    || char_eq c 8232
    || char_eq c 8233
    || char_eq c 8239
    || char_eq c 8287
    || char_eq c 12288

unfoldable pub lstrip_if : (ℕ → Bool) → Text → Text
lstrip_if p [] = []
lstrip_if p (c ∷ s) = let rest = lstrip_if p s in if p c then rest else c ∷ s

-- `s.strip()`, and `s.strip(c)` for one character
unfoldable pub strip_if : (ℕ → Bool) → Text → Text
unfolding lstrip_if
strip_if p s = reverse (lstrip_if p (reverse (lstrip_if p s)))

unfoldable pub strip : Text → Text
unfolding strip_if is_space
strip s = strip_if is_space s

abbrev pub onto_head : ℕ → List Text → List Text
onto_head c [] = (c ∷ []) ∷ []
onto_head c (w ∷ ws) = (c ∷ w) ∷ ws

-- `s.split(sep)` for a separator of one character: at least one piece, pieces may be empty.
unfoldable pub split : ℕ → Text → List Text
split sep [] = [] ∷ []
split sep (c ∷ s) = let rest = split sep s in if char_eq c sep then [] ∷ rest else onto_head c rest

-- `sep.join(ws)`
unfoldable pub join : Text → List Text → Text
join sep [] = []
join sep (w ∷ []) = w
join sep (w ∷ v ∷ ws) = w ++ (sep ++ join sep (v ∷ ws))

-- `s.split(sep, 1)` and `s.partition(sep)`: the parts around the first separator, if there is one.
unfoldable pub split_once : ℕ → Text → Option (Text × Text)
split_once sep [] = none
split_once sep (c ∷ s) =
    let rest = split_once sep s in
    if char_eq c sep
    then some ([], s)
    else elim rest [ none ↦ none | some (a, b) ↦ some (c ∷ a, b) ]

unfoldable pub starts_with : Text → Text → Bool
starts_with s [] = true
starts_with [] (p ∷ ps) = false
starts_with (c ∷ s) (p ∷ ps) = char_eq c p && starts_with s ps

-- `part in s`
unfoldable pub has_part : Text → Text → Bool
unfolding starts_with
has_part part [] = starts_with [] part
has_part part (c ∷ s) = starts_with (c ∷ s) part || has_part part s

-- `s.lower()` on the ASCII letters
unfoldable pub lower : Text → Text
lower [] = []
lower (c ∷ s) = (if leb b'A' c && leb c b'Z' then c + 32 else c) ∷ lower s

-- The boundaries of `str.splitlines`; a carriage return with a line feed is one boundary.
abbrev is_line_end : ℕ → Bool
is_line_end c =
    (leb 10 c && leb c 13)
    || (leb 28 c && leb c 30)
    || char_eq c 133
    || char_eq c 8232
    || char_eq c 8233

-- The flag says that the character before was a carriage return, which ended a line.
unfoldable pub lines_from : Bool → Text → Text → List Text
lines_from cr line [] = if is_empty line then [] else reverse line ∷ []
lines_from cr line (c ∷ s) =
    let skip = lines_from false [] s in
    let ended = reverse line ∷ lines_from (char_eq c 13) [] s in
    let more = lines_from false (c ∷ line) s in
    if cr && char_eq c 10 && is_empty line then skip else if is_line_end c then ended else more

unfoldable pub splitlines : Text → List Text
unfolding lines_from
splitlines s = lines_from false [] s

pub has_char-append : (c : ℕ) (s t : Text) → has_char c (s ++ t) ≡ (has_char c s || has_char c t)
has_char-append c [] t = refl
has_char-append c (x ∷ s) t = ground (arith, has_char-append c s t)

-- A text with no separator is one piece, also in front of a separator.
pub split_free : (sep : ℕ) (w : Text) → has_char sep w ≡ false → split sep w ≡ w ∷ []
unfolding split
split_free sep [] h = refl
split_free sep (c ∷ w) h = ground (arith, split_free sep w)

pub split-append :
    (sep : ℕ) (w s : Text) → has_char sep w ≡ false → split sep (w ++ (sep ∷ s)) ≡ w ∷ split sep s
unfolding split
split-append sep [] s h = ground (arith, char_eq_refl sep)
split-append sep (c ∷ w) s h = ground (arith, split-append sep w s)

-- Joining pieces without the separator and splitting again gives them back.
pub split-join :
    (sep : ℕ) (w : Text) (ws : List Text)
    → All (λ v. has_char sep v ≡ false) (w ∷ ws)
    → split sep (join (sep ∷ []) (w ∷ ws)) ≡ w ∷ ws
unfolding join
split-join sep w [] (h, hs) = split_free sep w h
split-join sep w (v ∷ ws) (h, hs) =
    split-append sep w (join (sep ∷ []) (v ∷ ws)) h ∙ ap (λ r. w ∷ r) (split-join sep v ws hs)

onto_head-nonempty : (c : ℕ) (ws : List Text) → is_empty (onto_head c ws) ≡ false
onto_head-nonempty c [] = refl
onto_head-nonempty c (w ∷ ws) = refl

pub split-nonempty : (sep : ℕ) (s : Text) → is_empty (split sep s) ≡ false
unfolding split
split-nonempty sep [] = refl
split-nonempty sep (c ∷ s) = ground (arith, onto_head-nonempty c (split sep s))

onto_head-append :
    (c : ℕ) (ws vs : List Text)
    → is_empty ws ≡ false
    → onto_head c (ws ++ vs) ≡ onto_head c ws ++ vs
onto_head-append c [] vs h = cc
onto_head-append c (w ∷ ws) vs h = refl

-- A separator between two texts separates their pieces.
pub split-append_text :
    (sep : ℕ) (s t : Text) → split sep (s ++ (sep ∷ t)) ≡ split sep s ++ split sep t
unfolding split
split-append_text sep [] t = ground (arith, char_eq_refl sep)
split-append_text sep (c ∷ s) t = elim (Bool-cases (char_eq c sep)) [
  | inl e ↦ rw e (ap (λ r. [] ∷ r) (split-append_text sep s t))
  | inr e ↦ rw e (
      ap (onto_head c) (split-append_text sep s t)
      ∙ onto_head-append c (split sep s) (split sep t) (split-nonempty sep s))
]

-- `bool(s)`, and `s or None`
abbrev pub truthy : Text → Bool
truthy [] = false
truthy (c ∷ s) = true

abbrev pub or_none : Text → Option Text
or_none [] = none
or_none (c ∷ s) = some (c ∷ s)

-- `bool(o)` of a text or `None`
abbrev pub given : Option Text → Bool
given none = false
given (some s) = truthy s

lstrip_if_keep : (p : ℕ → Bool) (c : ℕ) (s : Text) → p c ≡ false → lstrip_if p (c ∷ s) ≡ c ∷ s
unfolding lstrip_if
lstrip_if_keep p c s h = rw h

abbrev pub last_char : ℕ → Text → ℕ
last_char c [] = c
last_char c (d ∷ s) = last_char d s

reverse-last_char : (c : ℕ) (s : Text) → (t : Text) × (reverse (c ∷ s) ≡ last_char c s ∷ t)
reverse-last_char c [] = ([], reverse-append (c ∷ []) [])
reverse-last_char c (d ∷ s) =
    let (t, e) = reverse-last_char d s in
    (t ++ reverse (c ∷ []), reverse-append (c ∷ []) (d ∷ s) ∙ ap (λ r. r ++ reverse (c ∷ [])) e)

pub last_char-append : (c d : ℕ) (s t : Text) → last_char c (s ++ (d ∷ t)) ≡ last_char d t
last_char-append c d [] t = refl
last_char-append c d (x ∷ s) t = last_char-append x d s t

-- A text whose first and last characters stay is left as it is.
pub strip_if_keep :
    (p : ℕ → Bool) (c : ℕ) (s : Text)
    → p c ≡ false
    → p (last_char c s) ≡ false
    → strip_if p (c ∷ s) ≡ c ∷ s
unfolding strip_if
strip_if_keep p c s h k =
    let (t, e) = reverse-last_char c s in
    rw (lstrip_if_keep p c s h, e, lstrip_if_keep p (last_char c s) t k, ← e)
      (reverse-reverse (c ∷ s))
