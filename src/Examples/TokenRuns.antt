-- ===== src/Examples/TokenRuns.antt =====
-- src/tokenizer.cpp, src/bpe.cpp at a small vocabulary.
use adi.Base.{
  ℕ, ◌^◌, ◌<◌, ◌≡◌, refl, ap, sym, ◌∙◌, ◌++◌, ◌==◌, if◌then◌else◌, concat, map, List, [], ◌∷◌, some,
  arith, All,
}
use adi.Base.Result.{ok, Ensures}
use adi.Base.Text.{codes}
use adi.Tokenizer.{
  Text, Vocabulary, Metadata, MergeRule, bpe_pair_key, encode_bytes, decode_text, decode,
  load_tokenizer,
}
use adi.Tokenizer.{
  is_complete, check_tokens, merge_rules_from, merge_rule, split_merge, token_id, token_id_from,
  special_from, unused_from, sort_special, insert_special,
}
use adi.Tokenizer.Bytes.{decode_text-encode_bytes}
use adi.Tokenizer.Loaded.{IsLoaded, load_tokenizer-IsLoaded}
use adi.Tokenizer.Cache.{encode_pieces, encode_normal, merge_pieces}
use adi.Tokenizer.Cache.Transparent.{Agrees, IsCache, encode_pieces-Agrees}
use adi.Tokenizer.RoundTrip.{merge_with}
use adi.Tokenizer.RoundTrip.Normal.{encode_normal-decode}
use adi.Unicode.Data.{UnicodeData}
use adi.Unicode.Normalize.{normalize_nfc}
use adi.Tokenizer.Split.{segments}
use adi.Tokenizer.Split.Whole.{segment_text, IsSegment, segments-concat}
use adi.ToolCall.Calls.{find_text, starts_with}
use adi.Bpe.{
  bpe_merge, is_trivial, merged_symbols, merge_loop, merge_candidate, merge_positions, merge_at,
  merge_pair, join_nodes, set_previous, collect, add_edges, add_edge, add_position, remove_edge,
  without_position, edge, find_rule, find_positions, put_positions, erase_key, has_position,
  insert_position, remove_position, push_candidate, initial, initial_nodes,
}
use adi.Bpe.Ends.{symbols_text, bpe_merge-returns}

abbrev three_bytes : Text
three_bytes = 0x20 ∷ 0x61 ∷ 0xFF ∷ []

decode_text-encode_bytes_example : decode_text (encode_bytes three_bytes) ≡ ok three_bytes
decode_text-encode_bytes_example =
    decode_text-encode_bytes three_bytes (omega arith, (omega arith, (omega arith, tt)))

-- The tokens "a", "b", "ab" and "<end>", and the merge of "a" and "b".
abbrev small : Metadata
small = record {
  token_texts = codes "a" ∷ codes "b" ∷ codes "ab" ∷ codes "<end>" ∷ [];
  token_types = 1 ∷ 1 ∷ 1 ∷ 3 ∷ [];
  merges = codes "a b" ∷ [];
  bos = some 3;
  eos = some 3;
}

load_tokenizer-IsLoaded_example : Ensures (IsLoaded 4 small) (load_tokenizer 4 small)
load_tokenizer-IsLoaded_example = load_tokenizer-IsLoaded 4 small

abbrev vocabulary : Vocabulary
vocabulary = record {
  tokens = codes "a" ∷ codes "b" ∷ codes "ab" ∷ codes "<end>" ∷ [];
  special_tokens = (codes "<end>", 3) ∷ [];
  unused_tokens = [];
  merge_rules = record { key = 1; rank = 0; combined = 2 } ∷ [];
  bos_token = 3;
  eos_token = 3;
}

encode_pieces-Agrees_example :
    Agrees
      (λ symbols. symbols)
      vocabulary
      (encode_pieces (λ symbols. symbols) vocabulary (codes "a" ∷ codes "b" ∷ codes "a" ∷ []) [] [])
      (merge_pieces (λ symbols. symbols) vocabulary (codes "a" ∷ codes "b" ∷ codes "a" ∷ []) [])
encode_pieces-Agrees_example =
    encode_pieces-Agrees (λ symbols. symbols) vocabulary (codes "a" ∷ codes "b" ∷ codes "a" ∷ []) []
      [] (tt, omega arith)

segments-concat_example :
    (concat (map segment_text (segments ((codes "<end>", 3) ∷ []) (codes "a<end>b")))
      ≡ codes "a<end>b")
    × All
        (IsSegment ((codes "<end>", 3) ∷ []))
        (segments ((codes "<end>", 3) ∷ []) (codes "a<end>b"))
segments-concat_example =
    segments-concat ((codes "<end>", 3) ∷ []) (codes "a<end>b") (omega arith, tt)

-- The texts of the symbols 0, 1 and 2.
abbrev text_of : ℕ → List ℕ
text_of symbol =
    if symbol == 0
    then codes "a"
    else if symbol == 1
    then codes "b"
    else if symbol == 2
    then codes "ab"
    else []

abbrev rules : List MergeRule
rules = record { key = 1; rank = 0; combined = 2 } ∷ []

merged_twice : bpe_merge (0 ∷ 1 ∷ 1 ∷ 0 ∷ 1 ∷ []) rules ≡ some (2 ∷ 1 ∷ 2 ∷ [])
unfolding bpe_merge is_trivial merged_symbols merge_loop merge_candidate merge_positions merge_at
    merge_pair join_nodes set_previous collect add_edges add_edge add_position remove_edge
    without_position edge find_rule find_positions put_positions erase_key has_position
    insert_position remove_position push_candidate initial initial_nodes bpe_pair_key
merged_twice = refl

pair-parts :
    (left right : ℕ)
    → left < 2 ^ 32
    → right < 2 ^ 32
    → bpe_pair_key left right ≡ 1
    → text_of 2 ≡ text_of left ++ text_of right
unfolding bpe_pair_key
pair-parts left right l r e =
    let zero : left ≡ 0 = omega arith in
    let one : right ≡ 1 = omega arith in
    ap (λ k. text_of 0 ++ text_of k) (sym one) ∙ ap (λ k. text_of k ++ text_of right) (sym zero)

bpe_merge-returns_example :
    (merged : List ℕ) × (bpe_merge (0 ∷ 1 ∷ 1 ∷ 0 ∷ 1 ∷ []) rules ≡ some merged)
    × (symbols_text text_of merged ≡ symbols_text text_of (0 ∷ 1 ∷ 1 ∷ 0 ∷ 1 ∷ []))
bpe_merge-returns_example =
    bpe_merge-returns text_of (0 ∷ 1 ∷ 1 ∷ 0 ∷ 1 ∷ []) rules
      (omega arith, (omega arith, (omega arith, (omega arith, (omega arith, tt)))))
      ((omega arith, pair-parts), tt)

abbrev no_tables : UnicodeData
no_tables = record {
  property_ranges = [];
  combining_ranges = [];
  casefold_entries = [];
  decompositions = [];
  decomposition_values = [];
  compositions = [];
}

small_loaded : load_tokenizer 4 small ≡ ok vocabulary
unfolding load_tokenizer is_complete check_tokens merge_rules_from merge_rule split_merge token_id
    token_id_from bpe_pair_key special_from unused_from sort_special insert_special find_text
    starts_with
small_loaded = refl

encode_normal-decode_example :
    Ensures
      (λ (ids, later).
        (normalized : Text) × (normalize_nfc no_tables (codes "aab") ≡ ok normalized)
        × (decode vocabulary ids ≡ ok normalized)
        × IsCache (merge_with rules) vocabulary later)
      (encode_normal (merge_with rules) vocabulary no_tables (codes "aab") [] [])
encode_normal-decode_example =
    encode_normal-decode 4 small vocabulary no_tables (codes "aab") [] (omega arith) small_loaded
      (tt, omega arith)
