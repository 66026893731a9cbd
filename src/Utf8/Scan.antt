-- ===== src/Utf8/Scan.antt =====
-- src/utf8.cpp: what `scan_utf8` reports on any byte string.
use adi.Base.{
  ℕ, zero, suc, ◌+◌, ◌≤◌, ◌<◌, ◌≡◌, ◌≢◌, refl, ap, subst, sym, ◌∙◌, ◌⊎◌, inl, inr, List, [], ◌∷◌,
  ◌++◌, arith, length, All, append_assoc, length-append,
}
use adi.Utf8.{
  Bytes, IsByte, Utf8Status, Utf8Scan, valid, Round, advance, stop, scan_round, scan_sequence,
  lead_of, scan_from, scan_utf8,
}
use adi.Utf8.Text.{Encodes, end, next, Form, one, two, three, four, encode-Form, scan-encode}
use adi.Utf8.Sound.{Steps, scan_round_sound}

-- The result of a scan from `position` on: the valid prefix is encoded text, and the status says
-- what follows it.
pub record Scanned (position : ℕ) (input : Bytes) (r : Utf8Scan) : Type 0 where
  pub codepoints : List ℕ
  pub prefix : Bytes
  pub rest : Bytes
  pub encodes : Encodes codepoints prefix
  pub splits : input ≡ prefix ++ rest
  pub counts : r.valid_prefix ≡ position + length prefix
  pub ends : r.status ≡ valid → rest ≡ []
  pub stops : r.status ≢ valid → 0 < r.error_length
  pub within : r.error_length ≤ length rest

-- A round that stops reports a fault, and at least a byte of what is left.
stop_facts :
    (first : ℕ) (rest : Bytes) (status : Utf8Status) (n : ℕ)
    → scan_round first rest ≡ stop status n
    → (status ≢ valid) × (0 < n) × (n ≤ suc (length rest))
unfolding scan_round scan_sequence lead_of
stop_facts first rest status n e = (λ v. ground arith, ground arith, ground arith)

Form-length : {c : ℕ} {bs : Bytes} → Form c bs → 0 < length bs
Form-length (one h e) = omega (arith, ap length e)
Form-length (two lo hi e) = omega (arith, ap length e)
Form-length (three lo hi s e) = omega (arith, ap length e)
Form-length (four lo hi e) = omega (arith, ap length e)

pub bytes_of_rest : (xs ys : Bytes) → All IsByte (xs ++ ys) → All IsByte ys
bytes_of_rest [] ys h = h
bytes_of_rest (x ∷ xs) ys h = bytes_of_rest xs ys h.1

Round-cases :
    (r : Round) → ((n : ℕ) × (r ≡ advance n)) ⊎ ((s : Utf8Status) × (n : ℕ) × (r ≡ stop s n))
Round-cases (advance n) = inl (n, refl)
Round-cases (stop s n) = inr (s, n, refl)

scan_stops :
    (first : ℕ) (rest : Bytes) (position : ℕ) (status : Utf8Status) (n : ℕ)
    → scan_round first rest ≡ stop status n
    → Scanned position (first ∷ rest) (scan_from 0 position (first ∷ rest))
unfolding scan_from
scan_stops first rest position status n e =
    let (bad, least, most) = stop_facts first rest status n e in
    rw (e, scan_from)
      (record {
        codepoints = [];
        prefix = [];
        rest = first ∷ rest;
        encodes = end;
        splits = refl;
        counts = omega arith;
        ends = λ v. absurd (bad v);
        stops = λ _. least;
        within = most;
      })

scan_goes_on :
    {input : Bytes} {n position : ℕ} {r : Utf8Scan} (s : Steps n input)
    → Scanned (position + length s.bytes) s.tail r
    → Scanned position input r
scan_goes_on s more = record {
  codepoints = s.codepoint ∷ more.codepoints;
  prefix = s.bytes ++ more.prefix;
  rest = more.rest;
  encodes = next s.encodes refl more.encodes;
  splits =
      s.splits
      ∙ (ap (λ t. s.bytes ++ t) more.splits ∙ sym (append_assoc s.bytes more.prefix more.rest));
  counts = omega (arith, more.counts, length-append s.bytes more.prefix);
  ends = more.ends;
  stops = more.stops;
  within = more.within;
}

step_over :
    (position first : ℕ) (rest : Bytes) (k n : ℕ)
    → length rest ≤ k
    → All IsByte (first ∷ rest)
    → Steps n (first ∷ rest)
    → ((position : ℕ) (input : Bytes)
        → length input ≤ k
        → All IsByte input
        → Scanned position input (scan_from 0 position input))
    → Scanned position (first ∷ rest) (scan_from 0 position (first ∷ rest))
step_over position first rest k n h b s again =
    subst (λ r. Scanned position (first ∷ rest) r) (sym moves)
      (scan_goes_on s (again (position + length s.bytes) s.tail shorter bytes))
  where
    form : Form s.codepoint s.bytes
    form = encode-Form s.codepoint s.bytes s.encodes

    moves : scan_from 0 position (first ∷ rest) ≡ scan_from 0 (position + length s.bytes) s.tail
    moves =
        ap (scan_from 0 position) s.splits ∙ scan-encode s.codepoint s.bytes s.tail position form

    shorter : length s.tail ≤ k
    shorter = omega (arith, ap length s.splits, length-append s.bytes s.tail, Form-length form)

    bytes : All IsByte s.tail
    bytes = bytes_of_rest s.bytes s.tail (subst (λ t. All IsByte t) s.splits b)

scan_from-Scanned :
    (k position : ℕ) (input : Bytes)
    → length input ≤ k
    → All IsByte input
    → Scanned position input (scan_from 0 position input)
scan_from-Scanned k position [] h b =
    unfold scan_from in
    record {
      codepoints = [];
      prefix = [];
      rest = [];
      encodes = end;
      splits = refl;
      counts = omega arith;
      ends = λ _. refl;
      stops = λ bad. absurd (bad refl);
      within = omega arith;
    }
scan_from-Scanned zero position (first ∷ rest) h b = absurd (omega arith)
scan_from-Scanned (suc k) position (first ∷ rest) h b = elim (Round-cases (scan_round first rest)) [
  | inl (n, e) ↦
      step_over position first rest k n (omega arith) b (scan_round_sound first rest n b.1 e)
        (scan_from-Scanned k)
  | inr (status, n, e) ↦ scan_stops first rest position status n e
]

-- Scanning a byte string: the valid prefix is encoded text, a fault is reported exactly where
-- something is left, and the reported bytes lie within the input.
pub scan_utf8-Scanned : (input : Bytes) → All IsByte input → Scanned 0 input (scan_utf8 input)
unfolding scan_utf8
scan_utf8-Scanned input b = scan_from-Scanned (length input) 0 input (omega arith) b
