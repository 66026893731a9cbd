-- ===== src/Tokenizer/Loaded.antt =====
-- src/tokenizer.cpp: what the constructor promises of the vocabulary.
use adi.Base.{
  ℕ, suc, ◌+◌, ◌<◌, ◌≡◌, refl, ap, subst, Bool, true, false, not, ◌&&◌, List, [], ◌∷◌, ◌++◌, Option,
  none, some, ◌==◌, length, list_eq, arith, Bool-cases, Option-cases, inl, inr, All, All-append,
  list_eq→eq, length-append, get_elem?,
}
use adi.Base.Result.{
  Ensures, holds, rejected, Ensures-map, Ensures-bind, Ensures-guard, Ensures-after,
}
use package.adi.Tokenizer.{
  Text, Vocabulary, MergeRule, Metadata, missing_metadata, duplicate_merge, bpe_pair_key,
  token_id_from, token_id, check_tokens, split_merge, has_rule, merge_rule, merge_rules_from,
  is_token, id_of, is_complete, load_tokenizer,
}

-- The token of an id has this text.
abbrev pub HasText : List Text → ℕ → Text → Type 0
HasText tokens id text = get_elem? tokens id ≡ some text

token_id_from-found :
    (index : ℕ) (text : Text) (tokens : List Text) (id : ℕ)
    → token_id_from index text tokens ≡ some id
    → (k : ℕ) × (id ≡ k + index) × HasText tokens k text
unfolding token_id_from
token_id_from-found index text [] id h = absurd (ground arith)
token_id_from-found index text (token ∷ tokens) id h = elim (Bool-cases (list_eq token text)) [
  | inl e ↦
      let same = list_eq→eq token text e in
      let here : id ≡ index = ground arith in (0, (omega arith), ap some same)
  | inr e ↦
      let (k, at, there) = token_id_from-found (suc index) text tokens id (ground arith) in
      (suc k, (omega arith), there)
]

pub token_id-HasText :
    (tokens : List Text) (text : Text)
    → Ensures (λ id. HasText tokens id text) (token_id tokens text)
unfolding token_id
token_id-HasText tokens text = elim (Option-cases (token_id_from 0 text tokens)) [
  | inl e ↦ rw (e, token_id) rejected
  | inr (id, e) ↦
      let (k, at, there) = token_id_from-found 0 text tokens id e in
      let same : k ≡ id = omega arith in
      rw (e, token_id) (holds (subst (λ i. HasText tokens i text) same there))
]

-- The token of a merge has the texts of its pair put together.
abbrev pub IsMerge : List Text → MergeRule → Type 0
IsMerge tokens rule =
    (left : ℕ) × (right : ℕ) × (left_text : Text) × (right_text : Text) × (rule.key
      ≡ bpe_pair_key left right)
    × HasText tokens left left_text
    × HasText tokens right right_text
    × HasText tokens (rule.combined) (left_text ++ right_text)

merge_rule-IsMerge :
    (tokens : List Text) (rank : ℕ) (merge : Text)
    → Ensures (IsMerge tokens) (merge_rule tokens rank merge)
unfolding merge_rule
merge_rule-IsMerge tokens rank merge = Ensures-after (split_merge merge) (λ (left_text, right_text).
    Ensures-bind (token_id-HasText tokens left_text) (λ left l.
      Ensures-bind (token_id-HasText tokens right_text) (λ right r.
        Ensures-bind (token_id-HasText tokens (left_text ++ right_text))
          (λ combined c. holds (left, right, left_text, right_text, refl, l, r, c)))))

-- No two rules have the same key.
abbrev pub different_keys : List MergeRule → Bool
different_keys [] = true
different_keys (rule ∷ rules) = not (has_rule (rule.key) rules) && different_keys rules

has_rule-snoc :
    (key : ℕ) (rules : List MergeRule) (rule : MergeRule)
    → has_rule key rules ≡ false
    → (rule.key == key) ≡ false
    → has_rule key (rules ++ rule ∷ []) ≡ false
has_rule-snoc key [] rule h k = ground arith
has_rule-snoc key (r ∷ rules) rule h k =
    let rest = has_rule-snoc key rules rule (ground arith) k in ground arith

different_keys-snoc :
    (rules : List MergeRule) (rule : MergeRule)
    → different_keys rules ≡ true
    → has_rule (rule.key) rules ≡ false
    → different_keys (rules ++ rule ∷ []) ≡ true
different_keys-snoc [] rule h k = refl
different_keys-snoc (r ∷ rules) rule h k =
    let new : has_rule (r.key) (rules ++ rule ∷ []) ≡ false =
      has_rule-snoc (r.key) rules rule (ground arith) (ground arith) in
    let rest = different_keys-snoc rules rule (ground arith) (ground arith) in ground arith

abbrev pub AreMerges : List Text → List MergeRule → Type 0
AreMerges tokens rules = All (IsMerge tokens) rules × (different_keys rules ≡ true)

merge_rules_from-AreMerges :
    (tokens : List Text) (rank : ℕ) (rules : List MergeRule) (merges : List Text)
    → AreMerges tokens rules
    → Ensures
        (λ result. AreMerges tokens result × (length result ≡ length rules + length merges))
        (merge_rules_from tokens rank rules merges)
unfolding merge_rules_from
merge_rules_from-AreMerges tokens rank rules [] h = holds (h, (omega arith))
merge_rules_from-AreMerges tokens rank rules (merge ∷ merges) (all, different) =
    Ensures-bind (merge_rule-IsMerge tokens rank merge) (λ rule is_merge.
      Ensures-guard (not (has_rule (rule.key) rules)) duplicate_merge (λ fresh.
        let size = length-append rules (rule ∷ []) in
        Ensures-map
          (merge_rules_from-AreMerges tokens (suc rank) (rules ++ rule ∷ []) merges (
            All-append (IsMerge tokens) rules (rule ∷ []) all (is_merge, tt),
            different_keys-snoc rules rule different (ground arith),
          ))
          (λ result (h, count). (h, (omega arith)))))

-- What a loaded vocabulary has.
abbrev pub IsLoaded : ℕ → Metadata → Vocabulary → Type 0
IsLoaded size file vocabulary =
    (length (vocabulary.tokens) ≡ size)
    × (vocabulary.bos_token < size)
    × (vocabulary.eos_token < size)
    × AreMerges (vocabulary.tokens) (vocabulary.merge_rules)
    × (length (vocabulary.merge_rules) ≡ length (file.merges))

id_of-below :
    (tokens : List Text) (id : Option ℕ) → is_token tokens id ≡ true → id_of id < length tokens
id_of-below tokens none h = absurd (ground arith)
id_of-below tokens (some id) h = ground arith

-- If the metadata are accepted, there is a token for each logit of the model, the tokens of the begin and the
-- end are among them, and there is a rule for each merge: the text of its token is that of its pair put
-- together, and no two rules are for the same pair.
pub load_tokenizer-IsLoaded :
    (size : ℕ) (file : Metadata) → Ensures (IsLoaded size file) (load_tokenizer size file)
unfolding load_tokenizer is_complete
load_tokenizer-IsLoaded size file =
    Ensures-guard (is_complete size file) missing_metadata (λ complete.
      Ensures-after (check_tokens [] (file.token_texts)) (λ _.
        Ensures-bind (merge_rules_from-AreMerges (file.token_texts) 0 [] (file.merges) (tt, refl))
          (λ rules (are_merges, count).
            let same : length (file.token_texts) ≡ size = ground arith in
            let b = id_of-below (file.token_texts) (file.bos) (ground arith) in
            let e = id_of-below (file.token_texts) (file.eos) (ground arith) in
            holds (same, (omega arith), (omega arith), are_merges, (omega arith)))))
