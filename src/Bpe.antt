-- ===== src/Bpe.antt =====
-- src/bpe.cpp: the merging of the symbols of a piece. The nodes are a linked list in an array; the map
-- of the pairs that occur is a list of keys with their positions, and the queue a list, the least first.
-- The callback that cancels is empty here.
pub mod Chain
pub mod Merges
pub mod Kept
pub mod Ends
use adi.Base.{
  ℕ, zero, suc, ◌+◌, ◌-◌, ◌*◌, Bool, true, false, not, ◌||◌, ◌&&◌, List, [], ◌∷◌, Option, none,
  some, ltb, ◌==◌, if◌then◌else◌, length, get_or, set,
}
use adi.Tokenizer.{MergeRule, bpe_pair_key}

pub record Node : Type 0 where
  pub symbol : ℕ
  pub previous : Option ℕ
  pub next : Option ℕ
  pub active : Bool

pub record Candidate : Type 0 where
  pub rank : ℕ
  pub key : ℕ

-- The positions of a pair, in ascending order.
pub record Occurrence : Type 0 where
  pub key : ℕ
  pub positions : List ℕ

pub record Merging : Type 0 where
  pub nodes : List Node
  pub occurrences : List Occurrence
  pub candidates : List Candidate

abbrev pub no_node : Node
no_node = record { symbol = 0; previous = none; next = none; active = false }

abbrev pub node_at : List Node → ℕ → Node
node_at nodes index = get_or nodes index no_node

unfoldable pub find_rule : List MergeRule → ℕ → Option MergeRule
find_rule [] key = none
find_rule (rule ∷ rules) key = if rule.key == key then some rule else find_rule rules key

unfoldable pub find_positions : List Occurrence → ℕ → Option (List ℕ)
find_positions [] key = none
find_positions (o ∷ occurrences) key =
    if o.key == key then some (o.positions) else find_positions occurrences key

unfoldable pub erase_key : ℕ → List Occurrence → List Occurrence
erase_key key [] = []
erase_key key (o ∷ occurrences) =
    if o.key == key then occurrences else o ∷ erase_key key occurrences

unfoldable pub put_positions : ℕ → List ℕ → List Occurrence → List Occurrence
put_positions key positions occurrences =
    record { key = key; positions = positions } ∷ erase_key key occurrences

unfoldable pub has_position : ℕ → List ℕ → Bool
has_position position [] = false
has_position position (p ∷ positions) = p == position || has_position position positions

unfoldable pub insert_position : ℕ → List ℕ → List ℕ
insert_position position [] = position ∷ []
insert_position position (p ∷ positions) =
    if ltb position p then position ∷ p ∷ positions else p ∷ insert_position position positions

unfoldable pub remove_position : ℕ → List ℕ → List ℕ
remove_position position [] = []
remove_position position (p ∷ positions) =
    if p == position then positions else p ∷ remove_position position positions

-- `CandidateGreater`, the other way round.
abbrev pub comes_before : Candidate → Candidate → Bool
comes_before left right =
    if left.rank == right.rank then ltb (left.key) (right.key) else ltb (left.rank) (right.rank)

unfoldable pub push_candidate : Candidate → List Candidate → List Candidate
push_candidate candidate [] = candidate ∷ []
push_candidate candidate (c ∷ candidates) =
    if comes_before candidate c
    then candidate ∷ c ∷ candidates
    else c ∷ push_candidate candidate candidates

-- The node behind an active one, and the key of the two.
unfoldable pub edge : List Node → ℕ → Option (ℕ × ℕ)
edge nodes left =
    if (node_at nodes left).active
    then elim ((node_at nodes left).next) [
      | none ↦ none
      | some right ↦
          some (right, bpe_pair_key ((node_at nodes left).symbol) ((node_at nodes right).symbol))
    ]
    else none

unfoldable pub without_position : ℕ → ℕ → List Occurrence → List Occurrence
without_position key left occurrences = elim (find_positions occurrences key) [
  | none ↦ occurrences
  | some positions ↦
      if length (remove_position left positions) == 0
      then erase_key key occurrences
      else put_positions key (remove_position left positions) occurrences
]

unfoldable pub remove_edge : Option ℕ → Merging → Merging
remove_edge none s = s
remove_edge (some left) s = elim (edge (s.nodes) left) [
  | none ↦ s
  | some (right, key) ↦ record s { occurrences = without_position key left (s.occurrences) }
]

-- An edge that has a rule, at its positions so far.
unfoldable pub add_position : MergeRule → ℕ → List ℕ → Merging → Merging
add_position rule left positions s = if has_position left positions then s else record {
  nodes = s.nodes;
  occurrences = put_positions (rule.key) (insert_position left positions) (s.occurrences);
  candidates =
      if length positions == 0
      then push_candidate (record { rank = rule.rank; key = rule.key }) (s.candidates)
      else s.candidates;
}

abbrev pub positions_of : Option (List ℕ) → List ℕ
positions_of none = []
positions_of (some positions) = positions

unfoldable pub add_edge : List MergeRule → Option ℕ → Merging → Merging
add_edge rules none s = s
add_edge rules (some left) s = elim (edge (s.nodes) left) [
  | none ↦ s
  | some (right, key) ↦ elim (find_rule rules key) [
    | none ↦ s
    | some rule ↦ add_position rule left (positions_of (find_positions (s.occurrences) key)) s
  ]
]

unfoldable pub set_previous : Option ℕ → ℕ → List Node → List Node
set_previous none left nodes = nodes
set_previous (some next) left nodes =
    set nodes next (record (node_at nodes next) { previous = some left })

-- The right node is taken out, and the left one becomes the merged symbol.
unfoldable pub join_nodes : ℕ → ℕ → ℕ → List Node → List Node
join_nodes combined left right nodes =
    let next = (node_at nodes right).next in
    set_previous next left (
      set (set nodes left (record (node_at nodes left) { symbol = combined; next = next })) right
        (record (node_at nodes right) { active = false; previous = none; next = none }))

-- The pair at `left` is merged.
unfoldable pub merge_pair : List MergeRule → ℕ → ℕ → ℕ → Merging → Merging
merge_pair rules combined left right s =
    let previous = (node_at (s.nodes) left).previous in
    let removed = remove_edge (some right) (remove_edge (some left) (remove_edge previous s)) in
    add_edge rules (some left) (
      add_edge rules previous
        (record removed { nodes = join_nodes combined left right (removed.nodes) }))

-- One position of a pair, if the pair is still there.
unfoldable pub merge_at : List MergeRule → MergeRule → ℕ → Merging → Merging
merge_at rules rule left s = elim (edge (s.nodes) left) [
  | none ↦ s
  | some (right, key) ↦ if key == rule.key then merge_pair rules (rule.combined) left right s else s
]

unfoldable pub merge_positions : List MergeRule → MergeRule → List ℕ → Merging → Merging
merge_positions rules rule [] s = s
merge_positions rules rule (left ∷ positions) s =
    merge_positions rules rule positions (merge_at rules rule left s)

-- One round: the first candidate is taken off the queue.
unfoldable pub merge_candidate : List MergeRule → Candidate → Merging → Merging
merge_candidate rules candidate s = elim (find_positions (s.occurrences) (candidate.key)) [
  | none ↦ s
  | some positions ↦ elim (find_rule rules (candidate.key)) [
    | none ↦ s
    | some rule ↦
        if rule.rank == candidate.rank
        then merge_positions rules rule positions
            (record s { occurrences = erase_key (candidate.key) (s.occurrences) })
        else s
  ]
]

-- The rounds, at most `fuel` of them; nothing where that is not enough.
unfoldable pub merge_loop : List MergeRule → ℕ → Merging → Option Merging
merge_loop rules zero s = elim (s.candidates) [ [] ↦ some s | candidate ∷ candidates ↦ none ]
merge_loop rules (suc fuel) s = elim (s.candidates) [
  | [] ↦ some s
  | candidate ∷ candidates ↦
      merge_loop rules fuel (merge_candidate rules candidate (record s { candidates = candidates }))
]

unfoldable pub initial_nodes : Option ℕ → ℕ → List ℕ → List Node
initial_nodes previous index [] = []
initial_nodes previous index (symbol ∷ []) =
    record { symbol = symbol; previous = previous; next = none; active = true } ∷ []
initial_nodes previous index (symbol ∷ second ∷ symbols) =
    record { symbol = symbol; previous = previous; next = some (index + 1); active = true }
    ∷ initial_nodes (some index) (index + 1) (second ∷ symbols)

-- The edges from `index` on.
unfoldable pub add_edges : List MergeRule → ℕ → ℕ → Merging → Merging
add_edges rules index zero s = s
add_edges rules index (suc count) s =
    add_edges rules (index + 1) count (add_edge rules (some index) s)

-- The symbols along the list, of at most `fuel` nodes.
unfoldable pub collect : ℕ → List Node → Option ℕ → Option (List ℕ)
collect fuel nodes none = some []
collect zero nodes (some index) = none
collect (suc fuel) nodes (some index) = elim (collect fuel nodes ((node_at nodes index).next)) [
  | none ↦ none
  | some symbols ↦ some ((node_at nodes index).symbol ∷ symbols)
]

unfoldable pub merged_symbols : Option Merging → Option (List ℕ)
merged_symbols none = none
merged_symbols (some s) = collect (length (s.nodes)) (s.nodes) (some 0)

unfoldable pub initial : List ℕ → Merging
initial symbols = record { nodes = initial_nodes none 0 symbols; occurrences = []; candidates = [] }

unfoldable pub is_trivial : List ℕ → List MergeRule → Bool
is_trivial symbols rules = ltb (length symbols) 2 || length rules == 0

unfoldable pub bpe_merge : List ℕ → List MergeRule → Option (List ℕ)
bpe_merge symbols rules =
    if is_trivial symbols rules
    then some symbols
    else merged_symbols (
        merge_loop rules (3 * length symbols)
          (add_edges rules 0 (length symbols - 1) (initial symbols)))
