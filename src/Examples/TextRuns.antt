-- ===== src/Examples/TextRuns.antt =====
-- src/utf8.cpp, src/unicode.cpp at concrete texts.
use adi.Base.{ℕ, ◌≡◌, refl, ◌↔◌, true, List, [], ◌∷◌, arith, All}
use adi.Base.Result.{ok}
use adi.Utf8.{
  Bytes, IsByte, scan_utf8, scan_from, scan_round, scan_sequence, lead_of, valid_utf8, encode_utf8,
  sanitize_utf8, sanitize_loop, append_utf8, incomplete, invalid, all_continuation,
  continue_codepoint, is_scalar_from,
}
use adi.Utf8.Sequence.{IsScalar}
use adi.Utf8.Text.{Encodes, end, next}
use adi.Utf8.Scan.{Scanned, scan_utf8-Scanned}
use adi.Utf8.Repair.{valid_utf8_iff, sanitize_utf8-valid, append_utf8_iff}
use adi.Utf8.Fuel.{sanitize_utf8-append}
use adi.Unicode.{utf8_codepoints, codepoints_utf8}
use adi.Unicode.RoundTrip.{utf8_codepoints_iff}

-- "é" and a stray continuation byte
abbrev stray : Bytes
stray = 0xC3 ∷ 0xA9 ∷ 0x80 ∷ []

scan_stray : scan_utf8 stray ≡ record { status = invalid; valid_prefix = 2; error_length = 1 }
unfolding scan_utf8 scan_from scan_round scan_sequence lead_of continue_codepoint is_scalar_from
scan_stray = refl

-- a cut euro sign is incomplete, an overlong slash is not
scan_cut : (scan_utf8 (0xE2 ∷ 0x82 ∷ [])).status ≡ incomplete
unfolding scan_utf8 scan_from scan_round scan_sequence lead_of all_continuation
scan_cut = refl

scan_overlong : (scan_utf8 (0xC0 ∷ 0xAF ∷ [])).status ≡ invalid
unfolding scan_utf8 scan_from scan_round lead_of
scan_overlong = refl

sanitize_stray : sanitize_utf8 stray ≡ 0xC3 ∷ 0xA9 ∷ 0xEF ∷ 0xBF ∷ 0xBD ∷ []
unfolding sanitize_utf8 sanitize_loop scan_utf8 scan_from scan_round scan_sequence lead_of
    continue_codepoint is_scalar_from
sanitize_stray = refl

stray_bytes : All IsByte stray
stray_bytes = omega arith

scan_utf8-Scanned_example : Scanned 0 stray (scan_utf8 stray)
scan_utf8-Scanned_example = scan_utf8-Scanned stray stray_bytes

valid_utf8_iff_example : (valid_utf8 stray ≡ true) ↔ ((cs : List ℕ) × Encodes cs stray)
valid_utf8_iff_example = valid_utf8_iff stray stray_bytes

sanitize_utf8-valid_example : valid_utf8 (sanitize_utf8 stray) ≡ true
sanitize_utf8-valid_example = sanitize_utf8-valid stray stray_bytes

append_utf8_iff_example : ((r : Bytes) × (append_utf8 stray 0xD800 ≡ ok r)) ↔ IsScalar 0xD800
append_utf8_iff_example = append_utf8_iff stray 0xD800

letter : Encodes (0xE9 ∷ []) (0xC3 ∷ 0xA9 ∷ [])
unfolding encode_utf8
letter = next {bs = 0xC3 ∷ 0xA9 ∷ []} refl refl end

sanitize_utf8-append_example : sanitize_utf8 stray ≡ 0xC3 ∷ 0xA9 ∷ sanitize_utf8 (0x80 ∷ [])
sanitize_utf8-append_example =
    sanitize_utf8-append (0xE9 ∷ []) (0xC3 ∷ 0xA9 ∷ []) (0x80 ∷ []) letter stray_bytes

utf8_codepoints_iff_example :
    (utf8_codepoints (0xC3 ∷ 0xA9 ∷ []) ≡ ok (0xE9 ∷ []))
    ↔ (codepoints_utf8 (0xE9 ∷ []) ≡ ok (0xC3 ∷ 0xA9 ∷ []))
utf8_codepoints_iff_example = utf8_codepoints_iff (0xC3 ∷ 0xA9 ∷ []) (0xE9 ∷ []) (omega arith)
