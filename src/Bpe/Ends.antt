-- ===== src/Bpe/Ends.antt =====
-- src/bpe.cpp: the merging ends, and its symbols have the text of those that it was given.
use adi.Base.{
  ℕ, zero, suc, ◌+◌, ◌-◌, ◌*◌, ◌^◌, ◌≤◌, ◌<◌, ◌≡◌, refl, ap, sym, subst, ◌∙◌, true, List, [], ◌∷◌,
  ◌++◌, Option, none, some, ◌==◌, if-either, option-either, list-either, length, arith, Bool-cases,
  Option-cases, inl, inr, map, All, concat, range,
}
use adi.Tokenizer.{MergeRule}
use package.adi.Bpe.{
  Node, Candidate, Merging, node_at, find_rule, find_positions, edge, add_edge, merge_at,
  merge_positions, merge_candidate, merge_loop, initial_nodes, add_edges, collect, merged_symbols,
  initial, is_trivial, bpe_merge, erase_key,
}
use package.adi.Bpe.Chain.{IsChain, Above, is_in}
use package.adi.Bpe.Merges.{chain_text}
use package.adi.Bpe.Kept.{add_edge-Adds, IsTextRule, IsText, merge_pair-IsText}

collect_step :
    (fuel : ℕ) (nodes : List Node) (i : ℕ) (symbols : List ℕ)
    → collect fuel nodes ((node_at nodes i).next) ≡ some symbols
    → collect (suc fuel) nodes (some i) ≡ some ((node_at nodes i).symbol ∷ symbols)
unfolding collect
collect_step fuel nodes i symbols e = rw (e, collect) refl

zero_add : (n : ℕ) → n ≡ 0 + n
zero_add n = omega arith

suc_add : (k index : ℕ) → k + (index + 1) ≡ suc k + index
suc_add k index = omega arith

at-zero :
    (nodes : List Node) (index : ℕ) {x : Node}
    → node_at nodes (0 + index) ≡ x
    → node_at nodes index ≡ x
at-zero nodes index h = ap (node_at nodes) (zero_add index) ∙ h

add_zero : (k : ℕ) → k + 0 ≡ k
add_zero k = omega arith

length-initial_nodes :
    (previous : Option ℕ) (index : ℕ) (symbols : List ℕ)
    → length (initial_nodes previous index symbols) ≡ length symbols
unfolding initial_nodes
length-initial_nodes previous index [] = refl
length-initial_nodes previous index (symbol ∷ []) = refl
length-initial_nodes previous index (symbol ∷ second ∷ symbols) =
    ap suc (length-initial_nodes (some index) (index + 1) (second ∷ symbols))

length-range : (start count : ℕ) → length (range start count) ≡ count
unfolding range
length-range start zero = refl
length-range start (suc count) = ap suc (length-range (start + 1) count)

range-is_in :
    (start count i : ℕ) → start ≤ i → i < start + count → is_in i (range start count) ≡ true
unfolding range
range-is_in start zero i h k = absurd (omega arith)
range-is_in start (suc count) i h k = elim (Bool-cases (start == i)) [
  | inl e ↦ ground arith
  | inr e ↦ let rest = range-is_in (start + 1) count i (ground arith) (omega arith) in ground arith
]

active-within : (nodes : List Node) (i : ℕ) → (node_at nodes i).active ≡ true → i < length nodes
active-within [] i h = absurd (ground arith)
active-within (n ∷ nodes) zero h = omega arith
active-within (n ∷ nodes) (suc i) h = let rest = active-within nodes i h in omega arith

module _ (text_of : ℕ → List ℕ) where
  abbrev Rule : MergeRule → Type 0
  Rule rule = IsTextRule text_of rule

  merge_at-IsText :
      (rules : List MergeRule) (rule : MergeRule) (text : List ℕ) (budget left : ℕ) (s : Merging)
      → Rule rule
      → IsText text_of text budget s
      → IsText text_of text budget (merge_at rules rule left s)
  unfolding merge_at
  merge_at-IsText rules rule text budget left s r h = elim (Option-cases (edge (s.nodes) left)) [
    | inl e ↦ rw (e, merge_at) h
    | inr ((right, key), e) ↦
        rw (e, merge_at)
          (if-either (IsText text_of text budget) (key == rule.key)
            (λ k.
              merge_pair-IsText text_of rules rule text budget left right key s r e (ground arith)
                h)
            (λ _. h))
  ]

  merge_positions-IsText :
      (rules : List MergeRule) (rule : MergeRule) (positions : List ℕ) (text : List ℕ) (budget : ℕ)
      (s : Merging)
      → Rule rule
      → IsText text_of text budget s
      → IsText text_of text budget (merge_positions rules rule positions s)
  unfolding merge_positions
  merge_positions-IsText rules rule [] text budget s r h = h
  merge_positions-IsText rules rule (left ∷ positions) text budget s r h =
      merge_positions-IsText rules rule positions text budget (merge_at rules rule left s) r
        (merge_at-IsText rules rule text budget left s r h)

  find_rule-Rule :
      (rules : List MergeRule) (key : ℕ) (rule : MergeRule)
      → All Rule rules
      → find_rule rules key ≡ some rule
      → Rule rule
  unfolding find_rule
  find_rule-Rule [] key rule h e = absurd (ground arith)
  find_rule-Rule (r ∷ rules) key rule (h, hs) e = elim (Bool-cases (r.key == key)) [
    | inl k ↦ (let same : r ≡ rule = ground arith in subst Rule same h)
    | inr k ↦ find_rule-Rule rules key rule hs (ground arith)
  ]

  merge_candidate-IsText :
      (rules : List MergeRule) (candidate : Candidate) (text : List ℕ) (budget : ℕ) (s : Merging)
      → All Rule rules
      → IsText text_of text budget s
      → IsText text_of text budget (merge_candidate rules candidate s)
  unfolding merge_candidate
  merge_candidate-IsText rules candidate text budget s rs h =
      option-either (IsText text_of text budget) (find_positions (s.occurrences) (candidate.key)) h
        (λ positions. elim (Option-cases (find_rule rules (candidate.key))) [
          | inl e ↦ rw (e) h
          | inr (rule, e) ↦ rw (e) (
              if-either (IsText text_of text budget) (rule.rank == candidate.rank)
                (λ _.
                  merge_positions-IsText rules rule positions text budget
                    (record s { occurrences = erase_key (candidate.key) (s.occurrences) })
                    (find_rule-Rule rules (candidate.key) rule rs e) h)
                (λ _. h))
        ])

  -- The loop ends within the fuel.
  merge_loop-IsText :
      (rules : List MergeRule) (fuel : ℕ) (text : List ℕ) (s : Merging)
      → All Rule rules
      → IsText text_of text fuel s
      → (t : Merging) × (budget : ℕ) × (merge_loop rules fuel s ≡ some t)
        × IsText text_of text budget t
  unfolding merge_loop
  merge_loop-IsText rules zero text s rs h =
      list-either
        (λ (o : Option Merging).
          (t : Merging) × (budget : ℕ) × (o ≡ some t) × IsText text_of text budget t)
        (s.candidates) (λ _. (s, zero, refl, h))
        (λ candidate candidates e.
          absurd
            (let size = ap length e in let (is, chain, all, same, few, short) = h in omega arith))
  merge_loop-IsText rules (suc fuel) text s rs h =
      list-either
        (λ (o : Option Merging).
          (t : Merging) × (budget : ℕ) × (o ≡ some t) × IsText text_of text budget t)
        (s.candidates) (λ _. (s, suc fuel, refl, h))
        (λ candidate candidates e.
          let size = ap length e in
          let (is, chain, all, same, few, short) = h in
          merge_loop-IsText rules fuel text
            (merge_candidate rules candidate (record s { candidates = candidates })) rs
            (merge_candidate-IsText rules candidate text fuel (record s { candidates = candidates })
              rs (is, chain, all, same, (omega arith), short)))

  abbrev pub symbols_text : List ℕ → List ℕ
  symbols_text symbols = concat (map text_of symbols)

  collect-chain :
      (fuel : ℕ) (nodes : List Node) (previous start : Option ℕ) (is : List ℕ)
      → IsChain nodes previous start is
      → length is ≤ fuel
      → (symbols : List ℕ) × (collect fuel nodes start ≡ some symbols)
        × (symbols_text symbols ≡ chain_text text_of nodes is)
  unfolding collect
  collect-chain zero nodes previous start [] c h = ([], ap (collect zero nodes) c, refl)
  collect-chain zero nodes previous start (i ∷ is) c h = absurd (omega arith)
  collect-chain (suc fuel) nodes previous start [] c h = ([], ap (collect (suc fuel) nodes) c, refl)
  collect-chain (suc fuel) nodes previous start (i ∷ is) (s, a, l, ac, p, sy, c) h =
      let (symbols, e, texts) =
        collect-chain fuel nodes (some i) ((node_at nodes i).next) is c (omega arith) in
      (
        (node_at nodes i).symbol ∷ symbols,
        ap (collect (suc fuel) nodes) s ∙ collect_step fuel nodes i symbols e,
        ap (λ t. text_of ((node_at nodes i).symbol) ++ t) texts,
      )

  -- The chain of the nodes from `index` on.
  initial-IsChain :
      (nodes : List Node) (previous : Option ℕ) (index : ℕ) (symbol : ℕ) (symbols : List ℕ)
      → ((k : ℕ)
          → node_at nodes (k + index) ≡ node_at (initial_nodes previous index (symbol ∷ symbols)) k)
      → length nodes ≡ index + length (symbol ∷ symbols)
      → Above previous index
      → All (λ s. s < 2 ^ 32) (symbol ∷ symbols)
      → IsChain nodes previous (some index) (range index (length (symbol ∷ symbols)))
        × (chain_text text_of nodes (range index (length (symbol ∷ symbols)))
            ≡ symbols_text (symbol ∷ symbols))
  unfolding initial_nodes range
  initial-IsChain nodes previous index symbol [] h n a (s, ss) =
      let here = at-zero nodes index (h 0) in
      (
        (
          refl,
          a,
          (omega arith),
          ap (λ (x : Node). x.active) here,
          ap (λ (x : Node). x.previous) here,
          subst (λ (x : Node). x.symbol < 2 ^ 32) (sym here) s,
          ap (λ (x : Node). x.next) here,
        ),
        ap (λ (x : Node). text_of (x.symbol) ++ []) here,
      )
  initial-IsChain nodes previous index symbol (second ∷ symbols) h n a (s, ss) =
      let here = at-zero nodes index (h 0) in
      let (chain, texts) =
        initial-IsChain nodes (some index) (index + 1) second symbols
          (λ k. ap (node_at nodes) (suc_add k index) ∙ h (suc k)) (omega arith) (omega arith) ss in
      (
        (
          refl,
          a,
          (omega arith),
          ap (λ (x : Node). x.active) here,
          ap (λ (x : Node). x.previous) here,
          subst (λ (x : Node). x.symbol < 2 ^ 32) (sym here) s,
          subst
              (λ (x : Node).
                IsChain nodes (some index) (x.next) (range (index + 1) (length (second ∷ symbols))))
              (sym here) chain,
        ),
        ap
              (λ (x : Node).
                text_of (x.symbol)
                ++ chain_text text_of nodes (range (index + 1) (length (second ∷ symbols))))
              here
            ∙ ap (λ t. text_of symbol ++ t) texts,
      )

  add_edges-Kept :
      (rules : List MergeRule) (index count : ℕ) (s : Merging)
      → ((add_edges rules index count s).nodes ≡ s.nodes)
        × (length ((add_edges rules index count s).candidates) ≤ count + length (s.candidates))
  unfolding add_edges
  add_edges-Kept rules index zero s = (refl, (omega arith))
  add_edges-Kept rules index (suc count) s =
      let (n, c) = add_edge-Adds rules (some index) s in
      let (n', c') = add_edges-Kept rules (index + 1) count (add_edge rules (some index) s) in
      (n' ∙ n, (omega arith))

  -- The list that the loop begins with.
  initial-IsText :
      (rules : List MergeRule) (symbol : ℕ) (symbols : List ℕ)
      → All (λ s. s < 2 ^ 32) (symbol ∷ symbols)
      → IsText text_of
          (symbols_text (symbol ∷ symbols))
          (3 * length (symbol ∷ symbols))
          (add_edges rules 0 (length (symbol ∷ symbols) - 1) (initial (symbol ∷ symbols)))
  unfolding initial
  initial-IsText rules symbol symbols small =
      let nodes = initial_nodes none 0 (symbol ∷ symbols) in
      let size : length nodes ≡ length (symbol ∷ symbols) =
        length-initial_nodes none 0 (symbol ∷ symbols) in
      let (chain, texts) =
        initial-IsChain nodes none 0 symbol symbols (λ k. ap (node_at nodes) (add_zero k))
          (omega arith) tt small in
      let (kept, few) =
        add_edges-Kept rules 0 (length (symbol ∷ symbols) - 1) (initial (symbol ∷ symbols)) in
      let counted = length-range 0 (length (symbol ∷ symbols)) in
      let same_size : length
            ((add_edges rules 0 (length (symbol ∷ symbols) - 1) (initial (symbol ∷ symbols))).nodes)
          ≡ length nodes =
        ap length kept in
      (
        range 0 (length (symbol ∷ symbols)),
        subst (λ (ns : List Node). IsChain ns none (some 0) (range 0 (length (symbol ∷ symbols))))
            (sym kept) chain,
        (λ i a. range-is_in 0 (length (symbol ∷ symbols)) i (omega arith) (
            let within =
              active-within nodes i
                (subst (λ (ns : List Node). (node_at ns i).active ≡ true) kept a) in
            omega arith)),
        subst
            (λ (ns : List Node).
              chain_text text_of ns (range 0 (length (symbol ∷ symbols)))
              ≡ symbols_text (symbol ∷ symbols))
            (sym kept) texts,
        (omega arith),
        (omega arith),
      )

  -- For symbols of 32 bits, and rules whose symbols have the texts of their pairs: the merging ends, and the
  -- texts of the symbols that it returns are, put together, those of the symbols that it was given.
  pub bpe_merge-returns :
      (symbols : List ℕ) (rules : List MergeRule)
      → All (λ s. s < 2 ^ 32) symbols
      → All (IsTextRule text_of) rules
      → (merged : List ℕ) × (bpe_merge symbols rules ≡ some merged)
        × (symbols_text merged ≡ symbols_text symbols)
  bpe_merge-returns [] rules small rs = ([], (unfold bpe_merge is_trivial in refl), refl)
  bpe_merge-returns (symbol ∷ symbols) rules small rs =
      elim (Bool-cases (is_trivial (symbol ∷ symbols) rules)) [
        | inl e ↦ (symbol ∷ symbols, (unfold bpe_merge in rw e refl), refl)
        | inr e ↦
            let (t, budget, ends, (is, chain, all, same, few, short)) =
              merge_loop-IsText rules (3 * length (symbol ∷ symbols))
                (symbols_text (symbol ∷ symbols))
                (add_edges rules 0 (length (symbol ∷ symbols) - 1) (initial (symbol ∷ symbols))) rs
                (initial-IsText rules symbol symbols small) in
            let (merged, read, texts) =
              collect-chain (length (t.nodes)) (t.nodes) none (some 0) is chain short in
            (merged, (unfold bpe_merge merged_symbols in rw (e, ends) read), texts ∙ same)
      ]
