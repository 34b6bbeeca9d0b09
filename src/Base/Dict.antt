-- ===== src/Base/Dict.antt =====
-- Dicts in insertion order. Proofs elsewhere go by the laws; tests unfold the operations.
use snap_openstack_hyperviso.Base.Equality.{Eq, ◌==◌, contains, if◌then◌else◌, Bool-cases}
use snap_openstack_hyperviso.Base.Lists.{Distinct, All}
use mathlib.Core.Path.{◌≡◌, refl, sym, ap, subst, ◌∙◌}
use mathlib.Core.Bool.{Bool, true, false}
use mathlib.Core.Option.{Option, none, some, none-ne-some, some-injective}
use mathlib.Core.Logic.{inl, inr}
use mathlib.Core.List.{List, [], ◌∷◌}
use native.Mathlib.Omega.{arith}

abbrev pub Dict {ℓ κ} : Type ℓ → Type κ → Type (ℓ ⊔ κ)
Dict K V = List (K × V)

abbrev pub is_some {ℓ} : {A : Type ℓ} → Option A → Bool
is_some none = false
is_some (some a) = true

-- `d.get(k, default)`
abbrev pub or_default {ℓ} : {A : Type ℓ} → A → Option A → A
or_default d none = d
or_default d (some a) = a

module _ {ℓ κ} {K : Type ℓ} {V : Type κ} where
  unfoldable pub keys : Dict K V → List K
  keys [] = []
  keys ((k, v) ∷ d) = k ∷ keys d

  unfoldable pub values : Dict K V → List V
  values [] = []
  values ((k, v) ∷ d) = v ∷ values d

  -- Every value has `P`.
  abbrev pub AllValues {μ} : (V → Type μ) → Dict K V → Type μ
  AllValues P d = All (λ e. P e.1) d

  pub AllValues-weaken {μ} :
      (P Q : V → Type μ) (d : Dict K V) → ((v : V) → P v → Q v) → AllValues P d → AllValues Q d
  AllValues-weaken P Q [] f h = tt
  AllValues-weaken P Q ((k, v) ∷ d) f (h, hs) = (f v h, AllValues-weaken P Q d f hs)

module _ {ℓ κ} {K : Type ℓ} {V : Type κ} ⦃e : Eq K⦄ where
  -- `d.get(k)`
  unfoldable pub lookup : K → Dict K V → Option V
  lookup k [] = none
  lookup k ((j, v) ∷ d) = if j == k then some v else lookup k d

  -- `d[k] = v`
  unfoldable pub insert : K → V → Dict K V → Dict K V
  insert k v [] = (k, v) ∷ []
  insert k v ((j, w) ∷ d) = if j == k then (j, v) ∷ d else (j, w) ∷ insert k v d

  pub lookup-insert :
      (j k : K) (v : V) (d : Dict K V)
      → lookup j (insert k v d) ≡ (if k == j then some v else lookup j d)
  unfolding insert lookup
  lookup-insert j k v [] = refl
  lookup-insert j k v (_ ∷ d) = ground (arith, lookup-insert j k v d)

  pub contains-keys : (d : Dict K V) (k : K) → contains (keys d) k ≡ is_some (lookup k d)
  unfolding keys lookup
  contains-keys [] k = refl
  contains-keys (_ ∷ d) k = ground (arith, contains-keys d k)

  pub contains-keys-insert :
      (j k : K) (v : V) (d : Dict K V)
      → contains (keys (insert k v d)) j ≡ (if k == j then true else contains (keys d) j)
  unfolding keys insert
  contains-keys-insert j k v [] = ground arith
  contains-keys-insert j k v (_ ∷ d) = ground (arith, contains-keys-insert j k v d)

  -- A dict never lists a key twice.
  pub insert-Distinct :
      (k : K) (v : V) (d : Dict K V) → Distinct (keys d) → Distinct (keys (insert k v d))
  unfolding keys insert
  insert-Distinct k v [] h = (refl, tt)
  insert-Distinct k v ((j, w) ∷ d) (fresh, h) =
      ground (arith, insert-Distinct k v d h, contains-keys-insert j k v d)

  pub AllValues-insert {μ} :
      (P : V → Type μ) (k : K) (v : V) (d : Dict K V)
      → P v
      → AllValues P d
      → AllValues P (insert k v d)
  unfolding insert
  AllValues-insert P k v [] p h = (p, tt)
  AllValues-insert P k v ((j, w) ∷ d) p (h, hs) = elim (Bool-cases (j == k)) [
    | inl t ↦ rw t (p, hs)
    | inr f ↦ rw f (h, AllValues-insert P k v d p hs)
  ]

  pub AllValues-lookup {μ} :
      (P : V → Type μ) (k : K) {v : V} (d : Dict K V) → AllValues P d → lookup k d ≡ some v → P v
  unfolding lookup
  AllValues-lookup P k [] h e = absurd (none-ne-some _ e)
  AllValues-lookup P k ((j, w) ∷ d) (h, hs) e = elim (Bool-cases (j == k)) [
    | inl t ↦
        subst P (some-injective _ _ (sym (ap (λ b. if b then some w else lookup k d) t) ∙ e)) h
    | inr f ↦ AllValues-lookup P k d hs (sym (ap (λ b. if b then some w else lookup k d) f) ∙ e)
  ]
