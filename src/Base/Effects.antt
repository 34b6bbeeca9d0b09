-- ===== src/Base/Effects.antt =====
-- Statements that change an object of type `S` and may raise: `return`, `raise`, sequencing,
-- `try`/`except` and `try`/`finally`. The state comes back beside an error too: what was written
-- before a raise stays written.
use mathlib.Core.Path.{◌≡◌, refl, ap}
use snap_openstack_hyperviso.Base.Exceptions.{Exc, Result, ok, err, err-ne-ok}

abbrev pub Exec {ℓ} : Type ℓ → Type ℓ → Type ℓ
Exec S A = S → Result A × S

module _ {ℓ} {S A : Type ℓ} where
  abbrev pub pure : A → Exec S A
  pure a s = (ok a, s)

  abbrev pub raise : Exc → Exec S A
  raise c s = (err c, s)

  -- A pure computation that may raise.
  abbrev pub lift : Result A → Exec S A
  lift r s = (r, s)

  abbrev pub on_error : Result A → (Exc → Exec S A) → Exec S A
  on_error (ok a) h s = (ok a, s)
  on_error (err c) h s = h c s

  -- `try: m except …: h`. A handler raises again what it does not catch.
  abbrev pub catch : Exec S A → (Exc → Exec S A) → Exec S A
  catch m h s = let (r, s') = m s in on_error r h s'

  -- `try: m finally: f`, for a clean-up that assigns fields.
  abbrev pub finally : Exec S A → (S → S) → Exec S A
  finally m f s = let (r, s') = m s in (r, f s')

module _ {ℓ} {S A B : Type ℓ} where
  abbrev pub continue : Result A → (A → Exec S B) → Exec S B
  continue (ok a) f s = f a s
  continue (err c) f s = (err c, s)

  infixl 10 ◌>>=◌ ◌>>◌
  abbrev pub ◌>>=◌ : Exec S A → (A → Exec S B) → Exec S B
  ◌>>=◌ m f s = let (r, s') = m s in continue r f s'

  continue-eq-ok :
      (r : Result A) (s : S) (f : A → Exec S B) {b : B} {s'' : S}
      → continue r f s ≡ (ok b, s'')
      → (a : A) × (r ≡ ok a) × (f a s ≡ (ok b, s''))
  continue-eq-ok (ok a) s f h = (a, refl, h)
  continue-eq-ok (err c) s f h = absurd (err-ne-ok (ap (λ p. p.0) h))

  -- A sequence that ends well had a first part that ended well.
  pub bind-eq-ok :
      (m : Exec S A) (f : A → Exec S B) (s : S) {b : B} {s'' : S}
      → (m >>= f) s ≡ (ok b, s'')
      → (a : A) × (s' : S) × (m s ≡ (ok a, s')) × (f a s' ≡ (ok b, s''))
  bind-eq-ok m f s h =
      let (a, e, rest) = continue-eq-ok (m s).0 (m s).1 f h in
      (a, (m s).1, ap (λ r. (r, (m s).1)) e, rest)

  abbrev pub ◌>>◌ : Exec S A → Exec S B → Exec S B
  ◌>>◌ m n s = let (r, s') = m s in continue r (λ _. n) s'

abbrev pub Meets {ℓ κ} : {A : Type ℓ} → (A → Type κ) → (Exc → Type κ) → Result A → Type κ
Meets Q E (ok a) = Q a
Meets Q E (err c) = E c

-- From a state with `P` the action ends in a state with `P`; a value that it returns has `Q`, and
-- an exception that it raises has `E`.
pub record Contract {ℓ κ} {S A : Type ℓ} (P : S → Type κ) (Q : A → Type κ) (E : Exc → Type κ)
    (m : Exec S A) : Type (ℓ ⊔ κ) where
  pub keeps : (s : S) → P s → P (m s).1
  pub meets : (s : S) → P s → Meets Q E (m s).0

module _ {ℓ κ} {S A : Type ℓ} {P : S → Type κ} (Q : A → Type κ) (E : Exc → Type κ) where
  pub Contract-pure : (a : A) → Q a → Contract P Q E (pure a)
  Contract-pure a q = record { keeps = λ s h. h; meets = λ s h. q }

  pub Contract-raise : (c : Exc) → E c → Contract P Q E (raise c)
  Contract-raise c e = record { keeps = λ s h. h; meets = λ s h. e }

  pub Contract-weaken :
      (R : A → Type κ)
      → (m : Exec S A) → ((a : A) → Q a → R a)
      → Contract P Q E m
      → Contract P R E m
  Contract-weaken R m f c = record { keeps = c.keeps; meets = λ s p. weaker (m s).0 (c.meets s p) }
    where
      weaker : (r : Result A) → Meets Q E r → Meets R E r
      weaker (ok a) q = f a q
      weaker (err x) e = e

  on_error-keeps :
      (F : Exc → Type κ) (r : Result A) (h : Exc → Exec S A) (s : S)
      → P s
      → Meets Q F r
      → ((c : Exc) → F c → Contract P Q E (h c))
      → P (on_error r h s).1 × Meets Q E (on_error r h s).0
  on_error-keeps F (ok a) h s p q k = (p, q)
  on_error-keeps F (err c) h s p q k = ((k c q).keeps s p, (k c q).meets s p)

  pub Contract-catch :
      (F : Exc → Type κ) (m : Exec S A) (h : Exc → Exec S A)
      → Contract P Q F m
      → ((c : Exc) → F c → Contract P Q E (h c))
      → Contract P Q E (catch m h)
  Contract-catch F m h cm k = record {
    keeps = λ s p. (on_error-keeps F (m s).0 h (m s).1 (cm.keeps s p) (cm.meets s p) k).0;
    meets = λ s p. (on_error-keeps F (m s).0 h (m s).1 (cm.keeps s p) (cm.meets s p) k).1;
  }

module _ {ℓ κ} {S A B : Type ℓ} {P : S → Type κ} (R : A → Type κ) (Q : B → Type κ)
    (E : Exc → Type κ) where
  continue-keeps :
      (r : Result A) (f : A → Exec S B) (s : S)
      → P s
      → Meets R E r
      → ((a : A) → R a → Contract P Q E (f a))
      → P (continue r f s).1 × Meets Q E (continue r f s).0
  continue-keeps (ok a) f s p q k = ((k a q).keeps s p, (k a q).meets s p)
  continue-keeps (err c) f s p q k = (p, q)

  pub Contract-bind :
      (m : Exec S A) (f : A → Exec S B)
      → Contract P R E m
      → ((a : A) → R a → Contract P Q E (f a))
      → Contract P Q E (m >>= f)
  Contract-bind m f cm k = record {
    keeps = λ s p. (continue-keeps (m s).0 f (m s).1 (cm.keeps s p) (cm.meets s p) k).0;
    meets = λ s p. (continue-keeps (m s).0 f (m s).1 (cm.keeps s p) (cm.meets s p) k).1;
  }
