-- ===== src/Base/Text.antt =====
-- Quoted text as the list of its codes, and lists of distinct texts.
use Prim.Native.Char.{code}
use Prim.Native.String.{String}
use Prim.Native.Nat.{ℕ}
use mathlib.Core.Path.{sym}
use mathlib.Core.Logic.{◌≢◌}
use mathlib.Core.List.{List, [], ◌∷◌, ◌++◌}
use package.adi.Base.Lists.{All}

-- The bytes of an ASCII literal.
abbrev pub codes : String → List ℕ
codes String.[] = []
codes (String.◌∷◌ c s) = code c ∷ codes s

abbrev pub NotIn {ℓ} : {A : Type ℓ} → A → List A → Type ℓ
NotIn a xs = All (λ x. x ≢ a) xs

abbrev pub Distinct {ℓ} : {A : Type ℓ} → List A → Type ℓ
Distinct [] = Unit
Distinct (x ∷ xs) = NotIn x xs × Distinct xs

NotIn-snoc {ℓ} : {A : Type ℓ} (x a : A) (xs : List A) → NotIn x xs → a ≢ x → NotIn x (xs ++ a ∷ [])
NotIn-snoc x a [] h e = (e, tt)
NotIn-snoc x a (y ∷ xs) (p, h) e = (p, NotIn-snoc x a xs h e)

pub Distinct-snoc {ℓ} :
    {A : Type ℓ} (a : A) (xs : List A) → Distinct xs → NotIn a xs → Distinct (xs ++ a ∷ [])
Distinct-snoc a [] d n = (tt, tt)
Distinct-snoc a (x ∷ xs) (h, d) (p, n) =
    (NotIn-snoc x a xs h (λ e. p (sym e)), Distinct-snoc a xs d n)
