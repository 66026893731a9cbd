-- ===== src/Base/Outcome.antt =====
-- Code that throws: what holds of the value, and what of the error.
use mathlib.Core.Path.{◌≡◌, refl, subst}
use mathlib.Core.Bool.{Bool, true, false}
use package.adi.Base.Result.{Result, ok, err, ◌>>=◌, ◌>>◌, guard, Ensures, holds, rejected}

-- `P` holds of the value that is returned, `Q` of the error that is thrown.
pub data Outcome {ℓ κ μ ν} {E : Type ℓ} {A : Type κ} (P : A → Type μ) (Q : E → Type ν)
    : Result E A → Type (ℓ ⊔ κ ⊔ μ ⊔ ν) where
  returns : {a : A} → P a → Outcome P Q (ok a)
  throws : {e : E} → Q e → Outcome P Q (err e)

module _ {ℓ κ μ ν ℓ' κ'} {E : Type ℓ} {A : Type κ} {P : A → Type μ} {Q : E → Type ν} {B : Type ℓ'}
    {P' : B → Type κ'} where
  pub Outcome-bind :
      {r : Result E A} {f : A → Result E B}
      → Outcome P Q r
      → ((a : A) → P a → Outcome P' Q (f a))
      → Outcome P' Q (r >>= f)
  Outcome-bind (returns {a} h) k = k a h
  Outcome-bind (throws h) k = throws h

module _ {ℓ κ μ ν} {E : Type ℓ} {A : Type κ} {P : A → Type μ} {Q : E → Type ν} where
  pub Outcome-guard :
      (b : Bool) (e : E) {k : Result E A}
      → Q e
      → (b ≡ true → Outcome P Q k)
      → Outcome P Q (guard b e >> k)
  Outcome-guard true e q h = h refl
  Outcome-guard false e q h = throws q

  pub Outcome-map {μ'} :
      {P' : A → Type μ'} {r : Result E A} → Outcome P Q r → ((a : A) → P a → P' a) → Outcome P' Q r
  Outcome-map (returns {a} h) k = returns (k a h)
  Outcome-map (throws h) k = throws h

  pub Outcome-rethrow {ν'} :
      {Q' : E → Type ν'} {r : Result E A} → Outcome P Q r → ((e : E) → Q e → Q' e) → Outcome P Q' r
  Outcome-rethrow (returns h) k = returns h
  Outcome-rethrow (throws {e} h) k = throws (k e h)

  -- The value is the one that is returned.
  pub Outcome-with : {r : Result E A} → Outcome P Q r → Outcome (λ a. P a × (r ≡ ok a)) Q r
  Outcome-with (returns h) = returns (h, refl)
  Outcome-with (throws h) = throws h

  pub Outcome-Ensures : {r : Result E A} → Outcome P Q r → Ensures P r
  Outcome-Ensures (returns h) = holds h
  Outcome-Ensures (throws h) = rejected

  -- An error that is thrown satisfies `Q`.
  pub Outcome-err : {r : Result E A} {e : E} → Outcome P Q r → r ≡ err e → Q e
  Outcome-err (returns h) q = cc
  Outcome-err (throws h) q = subst Q (cc) h

  pub Outcome-ok : {r : Result E A} {a : A} → Outcome P Q r → r ≡ ok a → P a
  Outcome-ok (returns h) q = subst P (cc) h
  Outcome-ok (throws h) q = cc
