-- ===== src/Base/Result.antt =====
-- Code that throws: a value, or the error that it throws.
use mathlib.Core.Path.{◌≡◌, refl, subst}
use mathlib.Core.Bool.{Bool, true, false}
use mathlib.Core.Logic.{◌⊎◌, inl, inr}

pub data Result {ℓ κ} (E : Type ℓ) (A : Type κ) : Type (ℓ ⊔ κ) where
  ok : A → Result E A
  err : E → Result E A

module _ {ℓ κ} {E : Type ℓ} {B : Type κ} where
  infixl 5 ◌>>=◌ ◌>>◌
  abbrev pub ◌>>=◌ {μ} : {A : Type μ} (step : Result E A) (next : A → Result E B) → Result E B
  err thrown >>= next = err thrown
  ok value >>= next = next value

  -- A step without a value of its own.
  abbrev pub ◌>>◌ : (step : Result E (Unit {0})) (next : Result E B) → Result E B
  step >> next = step >>= λ done. next

-- `if (!test) throw problem;`
abbrev pub guard {ℓ} : {E : Type ℓ} (test : Bool) (problem : E) → Result E (Unit {0})
guard false problem = err problem
guard true problem = ok tt

pub guard-eq-ok {ℓ} : {E : Type ℓ} (b : Bool) (e : E) {u : Unit {0}} → guard b e ≡ ok u → b ≡ true
guard-eq-ok true e h = refl
guard-eq-ok false e h = cc

pub Result-cases {ℓ κ} :
    {E : Type ℓ} {A : Type κ} (r : Result E A) → ((a : A) × (r ≡ ok a)) ⊎ ((e : E) × (r ≡ err e))
Result-cases (ok a) = inl (a, refl)
Result-cases (err e) = inr (e, refl)

-- If the result is a value, `P` holds of it.
pub data Ensures {ℓ κ μ} {E : Type ℓ} {A : Type κ} (P : A → Type μ)
    : Result E A → Type (ℓ ⊔ κ ⊔ μ) where
  holds : {a : A} → P a → Ensures P (ok a)
  rejected : {e : E} → Ensures P (err e)

module _ {ℓ κ μ} {E : Type ℓ} {A : Type κ} {P : A → Type μ} where
  pub Ensures-ok : {r : Result E A} {a : A} → Ensures P r → r ≡ ok a → P a
  Ensures-ok (holds h) e = subst P (cc) h
  Ensures-ok rejected e = cc

  pub Ensures-of : (r : Result E A) → ((a : A) → r ≡ ok a → P a) → Ensures P r
  Ensures-of (ok a) h = holds (h a refl)
  Ensures-of (err e) h = rejected

  pub Ensures-map {ν} :
      {P' : A → Type ν} {r : Result E A} → Ensures P r → ((a : A) → P a → P' a) → Ensures P' r
  Ensures-map (holds {a} h) k = holds (k a h)
  Ensures-map rejected k = rejected

  pub Ensures-bind {ℓ' κ'} :
      {B : Type ℓ'} {Q : B → Type κ'} {r : Result E A} {f : A → Result E B}
      → Ensures P r
      → ((a : A) → P a → Ensures Q (f a))
      → Ensures Q (r >>= f)
  Ensures-bind (holds {a} h) k = k a h
  Ensures-bind rejected k = rejected

module _ {ℓ κ μ} {E : Type ℓ} {A : Type κ} {P : A → Type μ} where
  -- A guard's test holds in what follows it.
  pub Ensures-guard :
      (b : Bool) (e : E) {k : Result E A} → (b ≡ true → Ensures P k) → Ensures P (guard b e >> k)
  Ensures-guard true e h = h refl
  Ensures-guard false e h = rejected

  -- A step whose result is not needed.
  pub Ensures-after {ν} :
      {B : Type ν} (r : Result E B) {f : B → Result E A}
      → ((b : B) → Ensures P (f b))
      → Ensures P (r >>= f)
  Ensures-after (ok b) k = k b
  Ensures-after (err e) k = rejected

-- What holds of either branch of a split on a result holds of the branch taken.
pub result-either {ℓ κ μ ν} :
    {E : Type ℓ} {A : Type κ} {B : Type μ} (P : B → Type ν) (r : Result E A) {f : E → B} {g : A → B}
    → ((e : E) → r ≡ err e → P (f e))
    → ((a : A) → r ≡ ok a → P (g a))
    → P (elim r [ err e ↦ f e | ok a ↦ g a ])
result-either P (ok a) h k = k a refl
result-either P (err e) h k = h e refl
