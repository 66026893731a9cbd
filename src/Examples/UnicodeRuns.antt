-- ===== src/Examples/UnicodeRuns.antt =====
-- src/unicode.cpp at concrete texts, with small tables.
use adi.Base.{◌≡◌, ◌↔◌, refl, true, List, [], ◌∷◌, arith, All, concat}
use adi.Base.Result.{ok}
use adi.Base.Text.{codes}
use adi.Utf8.{Bytes, IsByte, valid_utf8, scan_utf8, scan_from, scan_round, scan_sequence, lead_of}
use adi.Unicode.Data.{UnicodeData, decomposed_of, combining_class_of, class_from}
use adi.Unicode.Pretokenize.{qwen35_pretokenize}
use adi.Unicode.Pretokenize.Pieces.{qwen35_pretokenize-concat, NonEmpty}
use adi.Unicode.Normalize.{canonical_order, order_from, insert_ordered, swap_back}
use adi.Unicode.Normalize.Canonical.{IsCanonicalOrder, canonical_order_iff}
use adi.Unicode.Normalize.Hangul.{Spells, decomposed_of_iff}

-- The Latin letters and the space; the grave and the acute accent, and the cedilla.
abbrev latin : UnicodeData
latin = record {
  property_ranges =
      record { first = 0; flags = 0 }
      ∷ record { first = 0x20; flags = 8 }
      ∷ record { first = 0x21; flags = 0 }
      ∷ record { first = 0x61; flags = 1 }
      ∷ record { first = 0x7B; flags = 0 }
      ∷ [];
  combining_ranges =
      record { first = 0; combining_class = 0 }
      ∷ record { first = 0x300; combining_class = 230 }
      ∷ record { first = 0x302; combining_class = 0 }
      ∷ record { first = 0x327; combining_class = 202 }
      ∷ record { first = 0x328; combining_class = 0 }
      ∷ [];
  casefold_entries = [];
  decompositions = [];
  decomposition_values = [];
  compositions = [];
}

abbrev greeting : Bytes
greeting = codes "hi you"

greeting-valid : valid_utf8 greeting ≡ true
unfolding valid_utf8 scan_utf8 scan_from scan_round scan_sequence lead_of
greeting-valid = refl

greeting_bytes : All IsByte greeting
greeting_bytes =
    (omega arith, (omega arith, (omega arith, (omega arith, (omega arith, (omega arith, tt))))))

qwen35_pretokenize-concat_example :
    (texts : List Bytes) × (qwen35_pretokenize latin greeting ≡ ok texts)
    × (concat texts ≡ greeting)
    × All NonEmpty texts
qwen35_pretokenize-concat_example =
    qwen35_pretokenize-concat latin greeting greeting_bytes greeting-valid

-- The syllable of three letters at U+D55C, and the one of two letters at U+AC00.
in_three_letters : decomposed_of latin 0xD55C ≡ 0x1112 ∷ 0x1161 ∷ 0x11AB ∷ []
unfolding decomposed_of
in_three_letters = refl

in_two_letters : decomposed_of latin 0xAC00 ≡ 0x1100 ∷ 0x1161 ∷ []
unfolding decomposed_of
in_two_letters = refl

decomposed_of_iff_example :
    (decomposed_of latin 0xD55C ≡ 0x1112 ∷ 0x1161 ∷ 0x11AB ∷ [])
    ↔ Spells latin (0x1112 ∷ 0x1161 ∷ 0x11AB ∷ []) 0xD55C
decomposed_of_iff_example =
    decomposed_of_iff latin (0x1112 ∷ 0x1161 ∷ 0x11AB ∷ []) 0xD55C (omega arith, omega arith)

-- A cedilla stands in front of an acute accent.
ordered : canonical_order latin (0x63 ∷ 0x301 ∷ 0x327 ∷ []) ≡ 0x63 ∷ 0x327 ∷ 0x301 ∷ []
unfolding canonical_order order_from insert_ordered swap_back combining_class_of class_from
ordered = refl

-- No mark passes the second letter, and the two accents behind it keep their order.
ordered_in_segments :
    canonical_order latin (0x63 ∷ 0x301 ∷ 0x327 ∷ 0x61 ∷ 0x301 ∷ 0x300 ∷ [])
    ≡ 0x63 ∷ 0x327 ∷ 0x301 ∷ 0x61 ∷ 0x301 ∷ 0x300 ∷ []
unfolding canonical_order order_from insert_ordered swap_back combining_class_of class_from
ordered_in_segments = refl

canonical_order_iff_example :
    (canonical_order latin (0x63 ∷ 0x301 ∷ 0x327 ∷ 0x61 ∷ 0x301 ∷ 0x300 ∷ [])
      ≡ 0x63 ∷ 0x327 ∷ 0x301 ∷ 0x61 ∷ 0x301 ∷ 0x300 ∷ [])
    ↔ IsCanonicalOrder latin
        (0x63 ∷ 0x301 ∷ 0x327 ∷ 0x61 ∷ 0x301 ∷ 0x300 ∷ [])
        (0x63 ∷ 0x327 ∷ 0x301 ∷ 0x61 ∷ 0x301 ∷ 0x300 ∷ [])
canonical_order_iff_example =
    canonical_order_iff latin (0x63 ∷ 0x301 ∷ 0x327 ∷ 0x61 ∷ 0x301 ∷ 0x300 ∷ [])
      (0x63 ∷ 0x327 ∷ 0x301 ∷ 0x61 ∷ 0x301 ∷ 0x300 ∷ [])
