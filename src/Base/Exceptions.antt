-- ===== src/Base/Exceptions.antt =====
-- Python's exceptions as values: a pure function that may raise returns a `Result`.
use Prim.Native.Nat.{ℕ}
use mathlib.Core.Path.{◌≡◌, refl}
use mathlib.Core.Logic.{◌⊎◌, inl, inr}
use mathlib.Core.List.{List}

-- The classes of exceptions that the code raises or catches, with the message.
-- `OVSTimeoutError` and `OVSCommandError` are both subclasses of `OVSError`, and neither is a
-- subclass of the other.
pub data Exc : Type 0 where
  value_error key_error index_error attribute_error file_not_found_error exception timeout_error :
      List ℕ → Exc
  ovs_error ovs_command_error ovs_timeout_error type_error called_process_error netlink_error :
      List ℕ → Exc

pub data Result {ℓ} (A : Type ℓ) : Type ℓ where
  ok : A → Result A
  err : Exc → Result A

infixl 10 ◌>>=◌ ◌>>◌
abbrev pub ◌>>=◌ {ℓ κ} : {A : Type ℓ} {B : Type κ} → Result A → (A → Result B) → Result B
ok a >>= f = f a
err c >>= f = err c

abbrev pub ◌>>◌ {ℓ κ} : {A : Type ℓ} {B : Type κ} → Result A → Result B → Result B
m >> n = m >>= λ _. n

-- A sequence that ends well had a first part that ended well.
pub >>=-eq-ok {ℓ κ} :
    {A : Type ℓ} {B : Type κ} (first : Result A) (next : A → Result B) {out : B}
    → (first >>= next) ≡ ok out
    → (value : A) × (first ≡ ok value) × (next value ≡ ok out)
>>=-eq-ok (ok value) next e = (value, refl, e)
>>=-eq-ok (err c) next e = cc

pub err-ne-ok {ℓ} : {A : Type ℓ} {c : Exc} {a : A} → ◌≡◌ {A = Result A} (err c) (ok a) → ⊥
err-ne-ok h = cc

pub ok-injective {ℓ} : {A : Type ℓ} {a b : A} → ok a ≡ ok b → a ≡ b
ok-injective h = cc

pub Result-cases {ℓ} :
    {A : Type ℓ} (r : Result A) → ((a : A) × (r ≡ ok a)) ⊎ ((c : Exc) × (r ≡ err c))
Result-cases (ok a) = inl (a, refl)
Result-cases (err c) = inr (c, refl)
