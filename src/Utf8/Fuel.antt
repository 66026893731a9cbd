-- ===== src/Utf8/Fuel.antt =====
-- src/utf8.cpp: the rounds that `sanitize_utf8` is given are enough, and the repair works on the
-- parts of a text independently.
use adi.Base.{
  ℕ, zero, suc, ◌+◌, ◌-◌, ◌≤◌, ◌<◌, ◌≡◌, refl, ap, sym, ◌∙◌, List, [], ◌∷◌, ◌++◌, arith, length,
  All, take, drop, append_assoc, length-append, length-drop,
}
use native.Mathlib.Nat.{add_assoc}
use adi.Utf8.{
  Bytes, IsByte, Utf8Status, Utf8Scan, valid, incomplete, invalid, Round, advance, stop, scan_round,
  scan_from, scan_utf8, replacement, sanitize_loop, sanitize_utf8,
}
use adi.Utf8.Text.{Encodes, scan_from-Encodes}
use adi.Utf8.Scan.{Scanned, scan_utf8-Scanned, bytes_of_rest}
use adi.Utf8.Repair.{repaired, IsByte-drop}

-- One round, on any text.
round_of :
    (fuel : ℕ) (s : Bytes)
    → sanitize_loop (suc fuel) s
      ≡ take (scan_utf8 s).valid_prefix s
        ++ repaired fuel (scan_utf8 s) (drop (scan_utf8 s).valid_prefix s)
unfolding sanitize_loop scan_utf8 scan_from
round_of fuel [] = refl
round_of fuel (b ∷ s) = refl

-- Two amounts of fuel that agree on the shorter texts agree on the round.
repaired-cong :
    (f g : ℕ) (scan : Utf8Scan) (rest : Bytes)
    → (scan.status ≡ invalid
        → sanitize_loop f (drop scan.error_length rest)
          ≡ sanitize_loop g (drop scan.error_length rest))
    → repaired f scan rest ≡ repaired g scan rest
repaired-cong f g scan rest h = go scan.status refl
  where
    go :
        (t : Utf8Status)
        → scan.status ≡ t
        → elim t as (λ _. Bytes) [
          | valid ↦ []
          | incomplete ↦ replacement
          | invalid ↦ replacement ++ sanitize_loop f (drop scan.error_length rest)
        ]
          ≡ elim t as (λ _. Bytes) [
            | valid ↦ []
            | incomplete ↦ replacement
            | invalid ↦ replacement ++ sanitize_loop g (drop scan.error_length rest)
          ]
    go valid e = refl
    go incomplete e = refl
    go invalid e = ap (λ t. replacement ++ t) (h e)

sanitize_fuel :
    (f g : ℕ) (s : Bytes)
    → All IsByte s
    → length s ≤ f
    → length s ≤ g
    → sanitize_loop f s ≡ sanitize_loop g s
sanitize_fuel zero zero s b hf hg = refl
sanitize_fuel zero (suc g) [] b hf hg = unfold sanitize_loop in refl
sanitize_fuel zero (suc g) (x ∷ s) b hf hg = absurd (omega arith)
sanitize_fuel (suc f) zero [] b hf hg = unfold sanitize_loop in refl
sanitize_fuel (suc f) zero (x ∷ s) b hf hg = absurd (omega arith)
sanitize_fuel (suc f) (suc g) s b hf hg =
    round_of f s
    ∙ (ap (λ t. take (scan_utf8 s).valid_prefix s ++ t)
          (repaired-cong f g (scan_utf8 s) (drop (scan_utf8 s).valid_prefix s)
            λ e. shorter e (sanitize_fuel f g))
        ∙ sym (round_of g s))
  where
    r : Scanned 0 s (scan_utf8 s)
    r = scan_utf8-Scanned s b

    left : Bytes
    left = drop (scan_utf8 s).error_length (drop (scan_utf8 s).valid_prefix s)

    shorter :
        (scan_utf8 s).status ≡ invalid
        → ((t : Bytes)
            → All IsByte t
            → length t ≤ f
            → length t ≤ g
            → sanitize_loop f t ≡ sanitize_loop g t)
        → sanitize_loop f left ≡ sanitize_loop g left
    shorter e again =
        again left
          (IsByte-drop (scan_utf8 s).error_length (drop (scan_utf8 s).valid_prefix s)
            (IsByte-drop (scan_utf8 s).valid_prefix s b))
          (omega (arith, less)) (omega (arith, less))
      where
        less : length left < length s
        less = omega (
          arith,
          length-drop (scan_utf8 s).error_length (drop (scan_utf8 s).valid_prefix s),
          length-drop (scan_utf8 s).valid_prefix s,
          r.counts,
          ap length r.splits,
          length-append r.prefix r.rest,
          r.within,
          r.stops (λ v. cc),
        )

-- The scan after a round, at a position.
abbrev resume : Round → ℕ → Bytes → Utf8Scan
resume round position t = elim round [
  | advance length ↦ scan_from (length - 1) (position + length) t
  | stop status error_length ↦ record {
    status = status;
    valid_prefix = position;
    error_length = error_length;
  }
]

abbrev moved : ℕ → Utf8Scan → Utf8Scan
moved by scan = record scan { valid_prefix = by + scan.valid_prefix }

-- The position that a scan starts from is added to its result.
shifted :
    (skip position by : ℕ) (t : Bytes)
    → scan_from skip (by + position) t ≡ moved by (scan_from skip position t)
unfolding scan_from
shifted skip position by [] = refl
shifted (suc skip) position by (b ∷ t) = shifted skip position by t
shifted zero position by (b ∷ t) = go (scan_round b t) (λ n. shifted (n - 1) (position + n) by t)
  where
    go :
        (r : Round)
        → ((n : ℕ)
            → scan_from (n - 1) (by + (position + n)) t
              ≡ moved by (scan_from (n - 1) (position + n) t))
        → resume r (by + position) t ≡ moved by (resume r position t)
    go (advance n) ih = rw (add_assoc by position n) (ih n)
    go (stop status n) ih = refl

scan-append :
    {cs : List ℕ} {v : Bytes} (t : Bytes)
    → Encodes cs v
    → scan_utf8 (v ++ t) ≡ moved (length v) (scan_utf8 t)
unfolding scan_utf8
scan-append {cs} {v} t e =
    scan_from-Encodes t 0 e ∙ (ap (λ p. scan_from 0 p t) (omega arith) ∙ shifted 0 0 (length v) t)

take-past : (v t : Bytes) (n : ℕ) → take (length v + n) (v ++ t) ≡ v ++ take n t
take-past [] t n = ap (λ k. take k t) (omega arith)
take-past (x ∷ v) t n =
    let e : suc (length v) + n ≡ suc (length v + n) = omega arith in
    ap (λ k. take k (x ∷ v ++ t)) e ∙ ap (λ u. x ∷ u) (take-past v t n)

drop-past : (v t : Bytes) (n : ℕ) → drop (length v + n) (v ++ t) ≡ drop n t
drop-past [] t n = ap (λ k. drop k t) (omega arith)
drop-past (x ∷ v) t n =
    let e : suc (length v) + n ≡ suc (length v + n) = omega arith in
    ap (λ k. drop k (x ∷ v ++ t)) e ∙ drop-past v t n

-- One round, as a function of what the scan reported.
abbrev round : ℕ → Bytes → Utf8Scan → Bytes
round fuel s scan = take scan.valid_prefix s ++ repaired fuel scan (drop scan.valid_prefix s)

round-append :
    (fuel : ℕ) (v t : Bytes) (scan : Utf8Scan)
    → round fuel (v ++ t) (moved (length v) scan) ≡ v ++ round fuel t scan
round-append fuel v t scan =
    ap (λ u. u ++ repaired fuel scan (drop (length v + scan.valid_prefix) (v ++ t)))
      (take-past v t scan.valid_prefix)
    ∙ (ap (λ u. (v ++ take scan.valid_prefix t) ++ repaired fuel scan u)
          (drop-past v t scan.valid_prefix)
        ∙ append_assoc v (take scan.valid_prefix t) (repaired fuel scan (drop scan.valid_prefix t)))

-- Encoded text at the front is kept as it is, and what follows is repaired as if it stood alone.
-- With nothing behind it: the repair of valid text is that text.
pub sanitize_utf8-append :
    (cs : List ℕ) (v t : Bytes)
    → Encodes cs v
    → All IsByte (v ++ t)
    → sanitize_utf8 (v ++ t) ≡ v ++ sanitize_utf8 t
unfolding sanitize_utf8
sanitize_utf8-append cs v t e b =
    let f : ℕ = length (v ++ t) in
    sanitize_fuel f (suc f) (v ++ t) b (omega arith) (omega arith)
    ∙ (round_of f (v ++ t)
        ∙ (ap (round f (v ++ t)) (scan-append t e)
            ∙ (round-append f v t (scan_utf8 t)
                ∙ ap (λ u. v ++ u)
                    (sym (round_of f t)
                      ∙ sanitize_fuel (suc f) (length t) t (bytes_of_rest v t b)
                          (omega (arith, length-append v t)) (omega arith)))))
