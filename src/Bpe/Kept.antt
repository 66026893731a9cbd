-- ===== src/Bpe/Kept.antt =====
-- src/bpe.cpp: what the merging keeps, and that it ends.
use adi.Base.{
  ℕ, suc, ◌+◌, ◌*◌, ◌^◌, ◌≤◌, ◌<◌, ◌≡◌, ◌≢◌, refl, ap, sym, subst, ◌∙◌, true, false, List, [], ◌∷◌,
  ◌++◌, Option, none, some, ◌==◌, if-either, option-either, length, arith, Bool-cases, Option-cases,
  inl, inr,
}
use adi.Tokenizer.{MergeRule, bpe_pair_key}
use package.adi.Bpe.{
  Node, Candidate, Merging, node_at, find_rule, edge, remove_edge, add_position, push_candidate,
  has_position, comes_before, add_edge, join_nodes, merge_pair,
}
use package.adi.Bpe.Chain.{IsChain, is_in, next-above, Joined, join_nodes-Joined}
use package.adi.Bpe.Merges.{chain_text, Joins, IsShorter-chain}

remove_edge-nodes : (left : Option ℕ) (s : Merging) → (remove_edge left s).nodes ≡ s.nodes
unfolding remove_edge
remove_edge-nodes none s = refl
remove_edge-nodes (some left) s =
    option-either (λ (t : Merging). t.nodes ≡ s.nodes) (edge (s.nodes) left) refl (λ found. refl)

remove_edge-candidates :
    (left : Option ℕ) (s : Merging) → (remove_edge left s).candidates ≡ s.candidates
unfolding remove_edge
remove_edge-candidates none s = refl
remove_edge-candidates (some left) s =
    option-either (λ (t : Merging). t.candidates ≡ s.candidates) (edge (s.nodes) left) refl
      (λ found. refl)

length-push_candidate :
    (c : Candidate) (cs : List Candidate) → length (push_candidate c cs) ≡ suc (length cs)
unfolding push_candidate
length-push_candidate c [] = refl
length-push_candidate c (d ∷ ds) =
    if-either (λ (es : List Candidate). length es ≡ suc (suc (length ds))) (comes_before c d)
      (λ _. refl) (λ _. ap suc (length-push_candidate c ds))

-- The nodes are the same, and there is one candidate more at most.
abbrev pub Adds : Merging → Merging → Type 0
Adds s t = (t.nodes ≡ s.nodes) × (length (t.candidates) ≤ 1 + length (s.candidates))

add_position-Adds :
    (rule : MergeRule) (left : ℕ) (positions : List ℕ) (s : Merging)
    → Adds s (add_position rule left positions s)
unfolding add_position
add_position-Adds rule left positions s =
    if-either (Adds s) (has_position left positions) (λ _. (refl, (omega arith)))
      (λ _. (
        refl,
        if-either (λ (cs : List Candidate). length cs ≤ 1 + length (s.candidates))
            (length positions == 0)
            (λ _.
              let k =
                length-push_candidate (record { rank = rule.rank; key = rule.key })
                  (s.candidates) in
              omega arith)
            (λ _. omega arith),
      ))

pub add_edge-Adds :
    (rules : List MergeRule) (left : Option ℕ) (s : Merging) → Adds s (add_edge rules left s)
unfolding add_edge
add_edge-Adds rules none s = (refl, (omega arith))
add_edge-Adds rules (some left) s =
    option-either (Adds s) (edge (s.nodes) left) (refl, (omega arith))
      (λ (right, key).
        option-either (Adds s) (find_rule rules key) (refl, (omega arith))
          (λ rule. add_position-Adds rule left _ s))

-- An edge is between an active node and the one behind it.
edge-parts :
    (nodes : List Node) (left right key : ℕ)
    → edge nodes left ≡ some (right, key)
    → ((node_at nodes left).active ≡ true)
      × ((node_at nodes left).next ≡ some right)
      × (key ≡ bpe_pair_key ((node_at nodes left).symbol) ((node_at nodes right).symbol))
unfolding edge
edge-parts nodes left right key e = elim (Bool-cases ((node_at nodes left).active)) [
  | inr a ↦ absurd (ground arith)
  | inl a ↦ elim (Option-cases ((node_at nodes left).next)) [
    | inl n ↦ absurd (ground arith)
    | inr (r, n) ↦
        let same : r ≡ right = ground arith in
        (
          a,
          n ∙ ap some same,
          (let k : key ≡ bpe_pair_key ((node_at nodes left).symbol) ((node_at nodes r).symbol) =
                ground arith in
              k
              ∙ ap (λ q. bpe_pair_key ((node_at nodes left).symbol) ((node_at nodes q).symbol))
                  same),
        )
  ]
]

chain-at :
    (nodes : List Node) (previous start : Option ℕ) (is : List ℕ) (i : ℕ)
    → IsChain nodes previous start is
    → is_in i is ≡ true
    → (i < length nodes) × ((node_at nodes i).symbol < 2 ^ 32)
chain-at nodes previous start [] i c h = absurd (ground arith)
chain-at nodes previous start (j ∷ js) i (s, a, l, ac, p, sy, c) h = elim (Bool-cases (j == i)) [
  | inl e ↦
      let same : j ≡ i = ground arith in
      subst (λ k. (k < length nodes) × ((node_at nodes k).symbol < 2 ^ 32)) same (l, sy)
  | inr e ↦ chain-at nodes (some j) ((node_at nodes j).next) js i c (ground arith)
]

Joined-active :
    {nodes nodes' : List Node} {combined left right : ℕ} {next : Option ℕ}
    → Joined nodes nodes' combined left right next
    → (i : ℕ) → i ≢ right
    → (node_at nodes' i).active ≡ true
    → (node_at nodes i).active ≡ true
Joined-active {nodes} {nodes'} {combined} {left} {right} {next} joined i d h =
    elim (Bool-cases (left == i)) [
      | inl e ↦
          let same : left ≡ i = ground arith in
          let at = ap (λ (x : Node). x.active) (joined.at_left) in
          subst (λ k. (node_at nodes k).active ≡ true) same
            (sym at ∙ subst (λ k. (node_at nodes' k).active ≡ true) (sym same) h)
      | inr e ↦ elim (Option-cases next) [
        | inl n ↦
            sym (
              ap (λ (x : Node). x.active)
                (joined.elsewhere i (λ q. absurd (ground arith)) d (λ q. absurd (ground arith))))
            ∙ h
        | inr (n, f) ↦ elim (Bool-cases (n == i)) [
          | inl g ↦
              let same : n ≡ i = ground arith in
              let at = ap (λ (x : Node). x.active) (joined.at_next n f) in
              subst (λ k. (node_at nodes k).active ≡ true) same
                (sym at ∙ subst (λ k. (node_at nodes' k).active ≡ true) (sym same) h)
          | inr g ↦
              sym (
                ap (λ (x : Node). x.active)
                  (joined.elsewhere i (λ q. absurd (ground arith)) d (λ q. absurd (ground arith))))
              ∙ h
        ]
      ]
    ]

-- What merging a pair does to the nodes and the queue.
merge_pair-Adds :
    (rules : List MergeRule) (combined left right : ℕ) (s : Merging)
    → ((merge_pair rules combined left right s).nodes ≡ join_nodes combined left right (s.nodes))
      × (length ((merge_pair rules combined left right s).candidates) ≤ 2 + length (s.candidates))
unfolding merge_pair
merge_pair-Adds rules combined left right s =
    let previous = (node_at (s.nodes) left).previous in
    let s1 = remove_edge previous s in
    let s2 = remove_edge (some left) s1 in
    let s3 = remove_edge (some right) s2 in
    let nodes3 : s3.nodes ≡ s.nodes =
      remove_edge-nodes (some right) s2
      ∙ remove_edge-nodes (some left) s1
      ∙ remove_edge-nodes previous s in
    let candidates3 : s3.candidates ≡ s.candidates =
      remove_edge-candidates (some right) s2
      ∙ remove_edge-candidates (some left) s1
      ∙ remove_edge-candidates previous s in
    let s4 : Merging = record s3 { nodes = join_nodes combined left right (s3.nodes) } in
    let (n5, c5) = add_edge-Adds rules previous s4 in
    let (n6, c6) = add_edge-Adds rules (some left) (add_edge rules previous s4) in
    let size : length (s3.candidates) ≡ length (s.candidates) = ap length candidates3 in
    (n6 ∙ n5 ∙ ap (join_nodes combined left right) nodes3, (omega arith))

gone :
    (i right : ℕ) (nodes : List Node)
    → i ≡ right
    → (node_at nodes right).active ≡ false
    → (node_at nodes i).active ≡ true
    → ⊥
gone i right nodes q f t =
    let t' : (node_at nodes right).active ≡ true =
      subst (λ k. (node_at nodes k).active ≡ true) q t in
    ground arith

module _ (text_of : ℕ → List ℕ) where
  -- The texts of the rules: a rule's symbol has the text of each pair that has its key.
  abbrev pub IsTextRule : MergeRule → Type 0
  IsTextRule rule =
      (rule.combined < 2 ^ 32)
      × ((left right : ℕ)
          → left < 2 ^ 32
          → right < 2 ^ 32
          → bpe_pair_key left right ≡ rule.key
          → text_of (rule.combined) ≡ text_of left ++ text_of right)

  -- A chain from the first node on, of the text, that has all active nodes.
  abbrev pub IsText : List ℕ → ℕ → Merging → Type 0
  IsText text budget s =
      (is : List ℕ) × IsChain (s.nodes) none (some 0) is
      × ((i : ℕ) → (node_at (s.nodes) i).active ≡ true → is_in i is ≡ true)
      × (chain_text text_of (s.nodes) is ≡ text)
      × (length (s.candidates) + 2 * length is ≤ budget)
      × (length is ≤ length (s.nodes))

  pub merge_pair-IsText :
      (rules : List MergeRule) (rule : MergeRule) (text : List ℕ) (budget left right key : ℕ)
      (s : Merging)
      → IsTextRule rule
      → edge (s.nodes) left ≡ some (right, key)
      → key ≡ rule.key
      → IsText text budget s
      → IsText text budget (merge_pair rules (rule.combined) left right s)
  merge_pair-IsText rules rule text budget left right key s (small, rule_text) e k
        (is, chain, all, same, few, short) =
      let (active, next, pair) = edge-parts (s.nodes) left right key e in
      let (lt, right_in) =
        next-above (s.nodes) none (some 0) is left right chain (all left active) next in
      let (left_within, left_small) =
        chain-at (s.nodes) none (some 0) is left chain (all left active) in
      let (right_within, right_small) = chain-at (s.nodes) none (some 0) is right chain right_in in
      let after : (n : ℕ)
          → (node_at (s.nodes) right).next ≡ some n
          → (right < n) × (n < length (s.nodes)) =
        λ n f.
          (let (up, n_in) = next-above (s.nodes) none (some 0) is right n chain right_in f in
            let (n_within, n_small) = chain-at (s.nodes) none (some 0) is n chain n_in in
            (up, n_within)) in
      let joined =
        join_nodes-Joined (s.nodes) (rule.combined) left right left_within right_within lt after in
      let joins : Joins text_of (s.nodes) (join_nodes (rule.combined) left right (s.nodes))
          (rule.combined) left right =
        (
          next,
          joined,
          small,
          rule_text ((node_at (s.nodes) left).symbol) ((node_at (s.nodes) right).symbol) left_small
              right_small (sym pair ∙ k),
        ) in
      let (js, chain', texts, size, others) =
        IsShorter-chain text_of (s.nodes) (join_nodes (rule.combined) left right (s.nodes))
          (rule.combined) left right none (some 0) is joins lt (λ n f. (after n f).0) chain
          (all left active) in
      let (nodes', more) = merge_pair-Adds rules (rule.combined) left right s in
      let longer = joined.same_length in
      let counted : length ((merge_pair rules (rule.combined) left right s).nodes)
          ≡ length (s.nodes) =
        ap length nodes' ∙ longer in
      (
        js,
        subst (λ (ns : List Node). IsChain ns none (some 0) js) (sym nodes') chain',
        (λ i a.
            let a' : (node_at (join_nodes (rule.combined) left right (s.nodes)) i).active ≡ true =
              subst (λ (ns : List Node). (node_at ns i).active ≡ true) nodes' a in
            let apart : i ≢ right = λ q. gone i right _ q (joined.at_right) a' in
            others i (all i (Joined-active joined i apart a')) apart),
        subst (λ (ns : List Node). chain_text text_of ns js ≡ text) (sym nodes') (texts ∙ same),
        (omega arith),
        (omega arith),
      )
