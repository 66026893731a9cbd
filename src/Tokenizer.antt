-- ===== src/Tokenizer.antt =====
-- src/tokenizer.cpp: the tokenizer of a model. Its merging of symbols is src/bpe.cpp's, an argument of
-- the definitions that use it. The callback that cancels is empty here.
pub mod Bytes
pub mod Cache
pub mod Split
pub mod Loaded
pub mod RoundTrip
use adi.Base.{
  ℕ, zero, suc, ◌+◌, ◌*◌, ◌^◌, Bool, true, false, not, ◌||◌, ◌&&◌, List, [], ◌∷◌, ◌++◌, Option,
  none, some, ltb, leb, ◌==◌, if◌then◌else◌, bit_or, bit_and, length, list_eq, drop, get_elem?, map,
  set,
}
use adi.Base.Result.{Result, ok, err, ◌>>=◌, ◌>>◌, guard}
use adi.Base.Bits.{shr}
use adi.Utf8.{append_utf8}
use adi.Unicode.{utf8_codepoints}
use adi.Unicode.Data.{UnicodeData}
use adi.Unicode.Normalize.{normalize_nfc}
use adi.Unicode.Pretokenize.{qwen35_pretokenize}
use adi.ToolCall.Calls.{find_text}

pub data TokenizerError : Type 0 where
  missing_metadata : TokenizerError
  duplicate_token : TokenizerError
  invalid_merge : TokenizerError
  duplicate_merge : TokenizerError
  unknown_symbol : TokenizerError
  invalid_text : TokenizerError
  token_out_of_range : TokenizerError
  logits_shape : TokenizerError

abbrev pub Text : Type 0
Text = List ℕ

-- The rank of a merge, and the token of the merged text, by the key of its pair.
pub record MergeRule : Type 0 where
  pub key : ℕ
  pub rank : ℕ
  pub combined : ℕ

pub record Vocabulary : Type 0 where
  pub tokens : List Text
  pub special_tokens : List (Text × ℕ)
  pub unused_tokens : List ℕ
  pub merge_rules : List MergeRule
  pub bos_token : ℕ
  pub eos_token : ℕ

unfoldable pub bpe_pair_key : ℕ → ℕ → ℕ
bpe_pair_key left right = left * 2 ^ 32 + right

-- `token_ids_`: the index of a text among the tokens, of which no two are the same.
unfoldable pub token_id_from : ℕ → Text → List Text → Option ℕ
token_id_from index text [] = none
token_id_from index text (token ∷ tokens) =
    if list_eq token text then some index else token_id_from (suc index) text tokens

unfoldable pub token_id : List Text → Text → Result TokenizerError ℕ
token_id tokens text = elim (token_id_from 0 text tokens) [
  | none ↦ err unknown_symbol
  | some id ↦ ok id
]

abbrev pub is_known : List Text → Text → Bool
is_known [] text = false
is_known (token ∷ tokens) text = list_eq token text || is_known tokens text

-- The loop over the tokens and their types; `seen` are the tokens before.
unfoldable pub check_tokens : List Text → List Text → Result TokenizerError (Unit {0})
check_tokens seen [] = ok tt
check_tokens seen (token ∷ tokens) = do
  guard (not (is_known seen token)) duplicate_token
  check_tokens (token ∷ seen) tokens

unfoldable pub special_from : ℕ → List Text → List ℕ → List (Text × ℕ)
special_from index (token ∷ tokens) (kind ∷ kinds) =
    if kind == 3 || kind == 4
    then (token, index) ∷ special_from (suc index) tokens kinds
    else special_from (suc index) tokens kinds
special_from index _ _ = []

unfoldable pub unused_from : ℕ → List ℕ → List ℕ
unused_from index [] = []
unused_from index (kind ∷ kinds) =
    if kind == 5 then index ∷ unused_from (suc index) kinds else unused_from (suc index) kinds

-- `std::sort` by descending size, which leaves the order of tokens of one size open: here it is kept.
unfoldable pub insert_special : Text × ℕ → List (Text × ℕ) → List (Text × ℕ)
insert_special (token, id) [] = (token, id) ∷ []
insert_special (token, id) ((other, other_id) ∷ specials) =
    if leb (length other) (length token)
    then (token, id) ∷ (other, other_id) ∷ specials
    else (other, other_id) ∷ insert_special (token, id) specials

unfoldable pub sort_special : List (Text × ℕ) → List (Text × ℕ)
sort_special [] = []
sort_special (special ∷ specials) = insert_special special (sort_special specials)

-- The texts in front of the first space and behind it.
unfoldable pub split_merge : Text → Result TokenizerError (Text × Text)
split_merge merge = elim (find_text (0x20 ∷ []) merge) [
  | none ↦ err invalid_merge
  | some (left, found) ↦ ok (left, drop 1 found)
]

abbrev pub has_rule : ℕ → List MergeRule → Bool
has_rule key [] = false
has_rule key (rule ∷ rules) = rule.key == key || has_rule key rules

-- One merge of the list.
unfoldable pub merge_rule : List Text → ℕ → Text → Result TokenizerError MergeRule
merge_rule tokens rank merge = do
  (left_text, right_text) ← split_merge merge
  left ← token_id tokens left_text
  right ← token_id tokens right_text
  combined ← token_id tokens (left_text ++ right_text)
  ok (record { key = bpe_pair_key left right; rank = rank; combined = combined })

-- The loop over the merges; `rules` are those so far.
unfoldable pub merge_rules_from :
    List Text → ℕ → List MergeRule → List Text → Result TokenizerError (List MergeRule)
merge_rules_from tokens rank rules [] = ok rules
merge_rules_from tokens rank rules (merge ∷ merges) = do
  rule ← merge_rule tokens rank merge
  guard (not (has_rule (rule.key) rules)) duplicate_merge
  merge_rules_from tokens (suc rank) (rules ++ rule ∷ []) merges

-- What the GGUF file holds of a tokenizer.
pub record Metadata : Type 0 where
  pub token_texts : List Text
  pub token_types : List ℕ
  pub merges : List Text
  pub bos : Option ℕ
  pub eos : Option ℕ

abbrev pub is_token : List Text → Option ℕ → Bool
is_token tokens none = false
is_token tokens (some id) = ltb id (length tokens)

abbrev pub id_of : Option ℕ → ℕ
id_of none = 0
id_of (some id) = id

unfoldable pub is_complete : ℕ → Metadata → Bool
is_complete vocabulary file =
    length (file.token_texts) == vocabulary
    && length (file.token_types) == length (file.token_texts)
    && (not (length (file.merges) == 0)
        && (is_token (file.token_texts) (file.bos) && is_token (file.token_texts) (file.eos)))

-- The constructor; `vocabulary` is the size in the model's configuration.
unfoldable pub load_tokenizer : ℕ → Metadata → Result TokenizerError Vocabulary
load_tokenizer vocabulary file = do
  guard (is_complete vocabulary file) missing_metadata
  check_tokens [] (file.token_texts)
  rules ← merge_rules_from (file.token_texts) 0 [] (file.merges)
  ok (record {
    tokens = file.token_texts;
    special_tokens = sort_special (special_from 0 (file.token_texts) (file.token_types));
    unused_tokens = unused_from 0 (file.token_types);
    merge_rules = rules;
    bos_token = id_of (file.bos);
    eos_token = id_of (file.eos);
  })

-- The bytes that stand for themselves.
pub is_printed : ℕ → Bool
is_printed value =
    leb 0x21 value && leb value 0x7E
    || (leb 0xA1 value && leb value 0xAC || leb 0xAE value && leb value 0xFF)

-- How many bytes below `value` do not stand for themselves: `extra` when the loop gets there.
pub extra_before : ℕ → ℕ
extra_before zero = 0
extra_before (suc value) = if is_printed value then extra_before value else suc (extra_before value)

-- `byte_encoder_`, whose texts are UTF-8 encodings of these code points.
pub byte_codepoint : ℕ → ℕ
byte_codepoint value = if is_printed value then value else 256 + extra_before value

-- `utf8`, for code points below 0x10000.
pub utf8 : ℕ → Text
utf8 codepoint =
    if leb codepoint 0x7F
    then codepoint ∷ []
    else if leb codepoint 0x7FF
    then bit_or 0xC0 (shr codepoint 6) ∷ bit_or 0x80 (bit_and codepoint 0x3F) ∷ []
    else bit_or 0xE0 (shr codepoint 12)
      ∷ bit_or 0x80 (bit_and (shr codepoint 6) 0x3F)
      ∷ bit_or 0x80 (bit_and codepoint 0x3F)
      ∷ []

-- The texts of the bytes of a piece, `encoded` in `encode_piece`.
pub encode_bytes : Text → Text
encode_bytes [] = []
encode_bytes (byte ∷ piece) = utf8 (byte_codepoint byte) ++ encode_bytes piece

-- `byte_decoder_`: the byte of a code point, among those below `value`.
pub find_byte : ℕ → ℕ → Option ℕ
find_byte zero codepoint = none
find_byte (suc value) codepoint =
    if byte_codepoint value == codepoint then some value else find_byte value codepoint

-- One code point of the decoded text.
pub decoded_codepoint : ℕ → Result TokenizerError Text
decoded_codepoint codepoint = elim (find_byte 256 codepoint) [
  | some byte ↦ ok (byte ∷ [])
  | none ↦ elim (append_utf8 [] codepoint) [ err e ↦ err invalid_text | ok text ↦ ok text ]
]

pub decode_codepoints : List ℕ → Result TokenizerError Text
decode_codepoints [] = ok []
decode_codepoints (codepoint ∷ codepoints) = do
  text ← decoded_codepoint codepoint
  rest ← decode_codepoints codepoints
  ok (text ++ rest)

pub token_texts_of : Vocabulary → List ℕ → Result TokenizerError Text
token_texts_of vocabulary [] = ok []
token_texts_of vocabulary (token ∷ tokens) = elim (get_elem? (vocabulary.tokens) token) [
  | none ↦ err token_out_of_range
  | some text ↦ token_texts_of vocabulary tokens >>= λ rest. ok (text ++ rest)
]

pub decode_text : Text → Result TokenizerError Text
decode_text encoded = elim (utf8_codepoints encoded) [
  | err e ↦ err invalid_text
  | ok codepoints ↦ decode_codepoints codepoints
]

pub decode : Vocabulary → List ℕ → Result TokenizerError Text
decode vocabulary tokens = token_texts_of vocabulary tokens >>= λ encoded. decode_text encoded

pub token_text : Vocabulary → ℕ → Result TokenizerError Text
token_text vocabulary token = decode vocabulary (token ∷ [])

pub mask_tokens : ℕ → List ℕ → List ℕ → List ℕ
mask_tokens lowest [] logits = logits
mask_tokens lowest (token ∷ tokens) logits = mask_tokens lowest tokens (set logits token lowest)

-- `lowest` is the lowest float.
pub mask_unused_logits : ℕ → Vocabulary → List ℕ → Result TokenizerError (List ℕ)
mask_unused_logits lowest vocabulary logits = do
  guard (length logits == length (vocabulary.tokens)) logits_shape
  ok (mask_tokens lowest (vocabulary.unused_tokens) logits)
