-- ===== src/Utf8/Repair.antt =====
-- src/utf8.cpp: `valid_utf8`, `sanitize_utf8` and `append_utf8` against the description of encoded
-- text.
use adi.Base.{
  ℕ, zero, suc, ◌≡◌, refl, ap, subst, sym, ◌∙◌, inl, inr, true, List, [], ◌∷◌, ◌++◌, arith, length,
  All, ◌↔◌, take, drop, append_assoc, append-nil, take-append, drop-append,
}
use adi.Base.Result.{ok, Result-cases}
use adi.Utf8.{
  Bytes, IsByte, Utf8Status, Utf8Scan, valid, incomplete, invalid, scan_from, scan_utf8, valid_utf8,
  encode_utf8, is_valid, replacement, append_utf8, sanitize_loop, sanitize_utf8,
}
use adi.Utf8.Sequence.{IsScalar}
use adi.Utf8.Text.{Encodes, end, next, encode-IsScalar, scan_from-Encodes}
use adi.Utf8.Scan.{Scanned, scan_utf8-Scanned}

Status-cases : (s : Utf8Status) → is_valid s ≡ true → s ≡ valid
Status-cases valid e = refl
Status-cases incomplete e = cc
Status-cases invalid e = cc

pub Encodes-valid : {cs : List ℕ} {s : Bytes} → Encodes cs s → valid_utf8 s ≡ true
unfolding valid_utf8 scan_utf8 scan_from
Encodes-valid {cs} {s} t =
    let passed = scan_from-Encodes [] 0 t in ap (λ r. is_valid r.status) (rw append-nil at passed)

valid-Encodes : (s : Bytes) → All IsByte s → valid_utf8 s ≡ true → (cs : List ℕ) × Encodes cs s
unfolding valid_utf8
valid-Encodes s b e =
    let r = scan_utf8-Scanned s b in
    let whole =
      r.splits ∙ (ap (λ t. r.prefix ++ t) (r.ends (Status-cases _ e)) ∙ append-nil r.prefix) in
    (r.codepoints, subst (λ t. Encodes r.codepoints t) (sym whole) r.encodes)

-- A byte string is valid UTF-8 for the scanner exactly when it is the concatenation of what
-- `append_utf8` writes for some list of code points.
pub valid_utf8_iff :
    (s : Bytes) → All IsByte s → (valid_utf8 s ≡ true) ↔ ((cs : List ℕ) × Encodes cs s)
valid_utf8_iff s b = (valid-Encodes s b, λ (cs, e). Encodes-valid e)

-- `append_utf8` succeeds exactly on the Unicode scalar values.
pub append_utf8_iff :
    (output : Bytes) (c : ℕ) → ((r : Bytes) × (append_utf8 output c ≡ ok r)) ↔ IsScalar c
unfolding append_utf8
append_utf8_iff output c = (appended, appends)
  where
    appended : (r : Bytes) × (append_utf8 output c ≡ ok r) → IsScalar c
    appended (r, e) = elim (Result-cases (encode_utf8 c)) [
      | inl (bs, q) ↦ encode-IsScalar c q
      | inr (x, q) ↦ absurd (ground arith)
    ]

    appends : IsScalar c → (r : Bytes) × (append_utf8 output c ≡ ok r)
    appends s = elim (Result-cases (encode_utf8 c)) [
      | inl (bs, e) ↦ (output ++ bs, rw (e, append_utf8))
      | inr (x, e) ↦ absurd (unfold encode_utf8 in ground arith)
    ]

replacement-Encodes : Encodes (0xFFFD ∷ []) replacement
unfolding encode_utf8
replacement-Encodes = next {bs = replacement} refl refl end

pub Encodes-append :
    {cs ds : List ℕ} {s t : Bytes} → Encodes cs s → Encodes ds t → Encodes (cs ++ ds) (s ++ t)
Encodes-append end h = h
Encodes-append {t = u} (next {bs = bs} {t = t} e q r) h =
    next e (ap (λ x. x ++ u) q ∙ append_assoc bs t u) (Encodes-append r h)

pub IsByte-drop : (n : ℕ) (s : Bytes) → All IsByte s → All IsByte (drop n s)
IsByte-drop zero s h = h
IsByte-drop (suc n) [] h = h
IsByte-drop (suc n) (b ∷ s) h = IsByte-drop n s h.1

-- What a round of the repair appends behind the valid prefix.
abbrev pub repaired : ℕ → Utf8Scan → Bytes → Bytes
repaired fuel scan rest = elim scan.status [
  | valid ↦ []
  | incomplete ↦ replacement
  | invalid ↦ replacement ++ sanitize_loop fuel (drop scan.error_length rest)
]

pub prefix_of :
    (s : Bytes) (r : Scanned 0 s (scan_utf8 s))
    → (take (scan_utf8 s).valid_prefix s ≡ r.prefix) × (drop (scan_utf8 s).valid_prefix s ≡ r.rest)
prefix_of s r =
    let n : (scan_utf8 s).valid_prefix ≡ length r.prefix = omega (arith, r.counts) in
    (
      ap (λ k. take k s) n
          ∙ (ap (λ t. take (length r.prefix) t) r.splits ∙ take-append r.prefix r.rest),
      ap (λ k. drop k s) n
          ∙ (ap (λ t. drop (length r.prefix) t) r.splits ∙ drop-append r.prefix r.rest),
    )

sanitize_step :
    (fuel b : ℕ) (bs : Bytes) (r : Scanned 0 (b ∷ bs) (scan_utf8 (b ∷ bs)))
    → sanitize_loop (suc fuel) (b ∷ bs) ≡ r.prefix ++ repaired fuel (scan_utf8 (b ∷ bs)) r.rest
unfolding sanitize_loop
sanitize_step fuel b bs r =
    let (front, back) = prefix_of (b ∷ bs) r in
    ap
      (λ t.
        t ++ repaired fuel (scan_utf8 (b ∷ bs)) (drop (scan_utf8 (b ∷ bs)).valid_prefix (b ∷ bs)))
      front
    ∙ ap (λ t. r.prefix ++ repaired fuel (scan_utf8 (b ∷ bs)) t) back

pub rest_IsByte : (s : Bytes) (r : Scanned 0 s (scan_utf8 s)) → All IsByte s → All IsByte r.rest
rest_IsByte s r b =
    subst (λ t. All IsByte t) (prefix_of s r).1 (IsByte-drop (scan_utf8 s).valid_prefix s b)

repaired-Encodes :
    (fuel : ℕ) (scan : Utf8Scan) (rest : Bytes)
    → All IsByte rest
    → ((s : Bytes) → All IsByte s → (cs : List ℕ) × Encodes cs (sanitize_loop fuel s))
    → (cs : List ℕ) × Encodes cs (repaired fuel scan rest)
repaired-Encodes fuel scan rest b again = go scan.status
  where
    go :
        (t : Utf8Status)
        → (cs : List ℕ) × Encodes cs (elim t as (λ _. Bytes) [
          | valid ↦ []
          | incomplete ↦ replacement
          | invalid ↦ replacement ++ sanitize_loop fuel (drop scan.error_length rest)
        ])
    go valid = ([], end)
    go incomplete = (0xFFFD ∷ [], replacement-Encodes)
    go invalid =
        let (cs, e) = again (drop scan.error_length rest) (IsByte-drop scan.error_length rest b) in
        (0xFFFD ∷ cs, Encodes-append replacement-Encodes e)

sanitize_loop-Encodes :
    (fuel : ℕ) (s : Bytes) → All IsByte s → (cs : List ℕ) × Encodes cs (sanitize_loop fuel s)
sanitize_loop-Encodes zero s b = ([], unfold sanitize_loop in end)
sanitize_loop-Encodes (suc fuel) [] b = ([], unfold sanitize_loop in end)
sanitize_loop-Encodes (suc fuel) (x ∷ s) b =
    let r = scan_utf8-Scanned (x ∷ s) b in
    let (cs, e) =
      repaired-Encodes fuel (scan_utf8 (x ∷ s)) r.rest (rest_IsByte (x ∷ s) r b)
        (sanitize_loop-Encodes fuel) in
    (r.codepoints ++ cs, rw (sanitize_step fuel x s r) (Encodes-append r.encodes e))

-- The repair of any byte string is valid UTF-8.
pub sanitize_utf8-valid : (s : Bytes) → All IsByte s → valid_utf8 (sanitize_utf8 s) ≡ true
unfolding sanitize_utf8
sanitize_utf8-valid s b = Encodes-valid (sanitize_loop-Encodes (length s) s b).1
