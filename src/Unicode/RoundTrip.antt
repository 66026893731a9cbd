-- ===== src/Unicode/RoundTrip.antt =====
-- src/unicode.cpp: `utf8_codepoints` and `codepoints_utf8` undo one another.
use adi.Base.{
  ℕ, suc, ◌+◌, ◌*◌, ◌/◌, ◌%◌, ◌<◌, ◌≡◌, refl, ap, subst, sym, ◌∙◌, inl, inr, true, List, [], ◌∷◌,
  ◌++◌, arith, All, ◌↔◌, append_assoc, append-nil, bit_and, bit_or,
}
use adi.Base.Bits.{bit_and-mask, bit_or-disjoint}
use adi.Base.Result.{ok, Result-cases}
use adi.Utf8.{Bytes, IsByte, valid_utf8, encode_utf8, append_utf8}
use adi.Utf8.Sequence.{mask_six}
use adi.Utf8.Text.{Encodes, end, next, Form, one, two, three, four, encode-Form}
use adi.Utf8.Repair.{valid_utf8_iff}
use adi.Unicode.{
  continuation_count, first_bits, decode_from, utf8_codepoints, append_all, codepoints_utf8,
}

decode_lead :
    (a n p : ℕ) (t : Bytes)
    → 0x7F < a
    → continuation_count a ≡ n
    → first_bits a ≡ p
    → decode_from 0 0 (a ∷ t) ≡ decode_from n p t
unfolding decode_from
decode_lead a n p t h e f =
    let goes : decode_from 0 0 (a ∷ t) ≡ decode_from (continuation_count a) (first_bits a) t =
      ground arith in
    goes ∙ rw (e, f)

trail_bits : (p b : ℕ) → bit_or (p * 64) (bit_and b 0x3F) ≡ p * 64 + b % 64
trail_bits p b = rw (mask_six b) (bit_or-disjoint 6 p (b % 64) (omega arith))

decode_more :
    (n p b : ℕ) (t : Bytes)
    → decode_from (suc (suc n)) p (b ∷ t) ≡ decode_from (suc n) (p * 64 + b % 64) t
unfolding decode_from
decode_more n p b t = ap (λ q. decode_from (suc n) q t) (trail_bits p b)

decode_last :
    (p b c : ℕ) (t : Bytes) → p * 64 + b % 64 ≡ c → decode_from 1 p (b ∷ t) ≡ c ∷ decode_from 0 0 t
unfolding decode_from
decode_last p b c t e = ap (λ q. q ∷ decode_from 0 0 t) (trail_bits p b ∙ e)

decode-encode :
    (c : ℕ) (bs t : Bytes) → Form c bs → decode_from 0 0 (bs ++ t) ≡ c ∷ decode_from 0 0 t
decode-encode c bs t (one h e) = rw e (unfold decode_from in ground arith)
decode-encode c bs t (two lo hi e) = rw e (
    decode_lead (0xC0 + c / 64) 1 (c / 64) ((0x80 + c % 64) ∷ t) (omega arith)
      (unfold continuation_count in ground arith)
      (unfold first_bits in ground (arith, bit_and-mask 5 (0xC0 + c / 64) 0x1F refl))
    ∙ decode_last (c / 64) (0x80 + c % 64) c t (omega arith))
decode-encode c bs t (three lo hi s e) = rw e (
    decode_lead (0xE0 + c / 4096) 2 (c / 4096) ((0x80 + c / 64 % 64) ∷ (0x80 + c % 64) ∷ t)
      (omega arith) (unfold continuation_count in ground arith)
      (unfold first_bits in ground (arith, bit_and-mask 4 (0xE0 + c / 4096) 0x0F refl))
    ∙ (decode_more 0 (c / 4096) (0x80 + c / 64 % 64) ((0x80 + c % 64) ∷ t)
        ∙ decode_last _ (0x80 + c % 64) c t (omega arith)))
decode-encode c bs t (four lo hi e) = rw e (
    decode_lead (0xF0 + c / 262144) 3 (c / 262144)
      ((0x80 + c / 4096 % 64) ∷ (0x80 + c / 64 % 64) ∷ (0x80 + c % 64) ∷ t) (omega arith)
      (unfold continuation_count in ground arith)
      (unfold first_bits in ground (arith, bit_and-mask 3 (0xF0 + c / 262144) 0x07 refl))
    ∙ (decode_more 1 (c / 262144) (0x80 + c / 4096 % 64)
          ((0x80 + c / 64 % 64) ∷ (0x80 + c % 64) ∷ t)
        ∙ (decode_more 0 _ (0x80 + c / 64 % 64) ((0x80 + c % 64) ∷ t)
            ∙ decode_last _ (0x80 + c % 64) c t (omega arith))))

pub decode-Encodes : {cs : List ℕ} {s : Bytes} → Encodes cs s → decode_from 0 0 s ≡ cs
decode-Encodes end = unfold decode_from in refl
decode-Encodes (next {c = c} {bs = bs} {t = t} e q r) =
    ap (decode_from 0 0) q
    ∙ (decode-encode c bs t (encode-Form c bs e) ∙ ap (λ cs. c ∷ cs) (decode-Encodes r))

append_all_step :
    (out : Bytes) (c : ℕ) (bs : Bytes) (cs : List ℕ)
    → encode_utf8 c ≡ ok bs
    → append_all out (c ∷ cs) ≡ append_all (out ++ bs) cs
unfolding append_all append_utf8
append_all_step out c bs cs e = ground arith

pub append_all-Encodes :
    {cs : List ℕ} {s : Bytes} (out : Bytes) → Encodes cs s → append_all out cs ≡ ok (out ++ s)
append_all-Encodes out end = unfold append_all in ap ok (sym (append-nil out))
append_all-Encodes out (next {c = c} {cs = cs} {bs = bs} {t = t} {s = s} e q r) =
    append_all_step out c bs cs e
    ∙ (append_all-Encodes (out ++ bs) r
        ∙ ap ok (append_assoc out bs t ∙ ap (λ u. out ++ u) (sym q)))

append_all-parts :
    (out : Bytes) (cs : List ℕ) (r : Bytes)
    → append_all out cs ≡ ok r
    → (s : Bytes) × (r ≡ out ++ s) × Encodes cs s
append_all-parts out [] r e = ([], unfold append_all in cc (append-nil out), end)
append_all-parts out (c ∷ cs) r e = elim (Result-cases (encode_utf8 c)) [
  | inl (bs, q) ↦
      let (t, split, encodes) =
        append_all-parts (out ++ bs) cs r (unfold append_all append_utf8 in ground arith) in
      (bs ++ t, split ∙ append_assoc out bs t, next q refl encodes)
  | inr (x, q) ↦ absurd (unfold append_all append_utf8 in ground arith)
]

pub codepoints_utf8-Encodes : (cs : List ℕ) (s : Bytes) → codepoints_utf8 cs ≡ ok s → Encodes cs s
unfolding codepoints_utf8
codepoints_utf8-Encodes cs s e =
    let (t, split, encodes) = append_all-parts [] cs s e in
    subst (λ u. Encodes cs u) (sym split) encodes

-- On byte strings, decoding gives a list of code points exactly when encoding that list gives
-- the byte string back: each conversion is the inverse of the other.
pub utf8_codepoints_iff :
    (s : Bytes) (cs : List ℕ)
    → All IsByte s
    → (utf8_codepoints s ≡ ok cs) ↔ (codepoints_utf8 cs ≡ ok s)
utf8_codepoints_iff s cs b = (encoded, decoded)
  where
    decoded_by : utf8_codepoints s ≡ ok cs → (valid_utf8 s ≡ true) × (decode_from 0 0 s ≡ cs)
    decoded_by e = unfold utf8_codepoints in ground arith

    encoded : utf8_codepoints s ≡ ok cs → codepoints_utf8 cs ≡ ok s
    encoded e =
        let (ok_test, same) = decoded_by e in
        let (ds, encodes) = (valid_utf8_iff s b).0 ok_test in
        subst (λ ds. codepoints_utf8 ds ≡ ok s) (sym (decode-Encodes encodes) ∙ same)
          (unfold codepoints_utf8 in append_all-Encodes [] encodes)

    decoded : codepoints_utf8 cs ≡ ok s → utf8_codepoints s ≡ ok cs
    decoded e =
        let encodes = codepoints_utf8-Encodes cs s e in
        unfold utf8_codepoints in rw ((valid_utf8_iff s b).1 (cs, encodes), decode-Encodes encodes)
