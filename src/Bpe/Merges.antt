-- ===== src/Bpe/Merges.antt =====
-- src/bpe.cpp: joining two nodes keeps the text of the list.
use adi.Base.{
  ℕ, suc, ◌^◌, ◌<◌, ◌≡◌, ◌≢◌, refl, ap, sym, subst, ◌∙◌, ◌⊎◌, true, List, [], ◌∷◌, ◌++◌, Option,
  some, ◌==◌, length, arith, Bool-cases, Option-cases, inl, inr, append_assoc,
}
use package.adi.Bpe.{Node, node_at}
use package.adi.Bpe.Chain.{IsChain, is_in, above-chain, Joined, behind-IsChain}

in_either :
    (i k : ℕ) (js : List ℕ) → ((i == k) ≡ true) ⊎ (is_in k js ≡ true) → is_in k (i ∷ js) ≡ true
in_either i k js (inl e) = ground arith
in_either i k js (inr e) = ground arith

module _ (text_of : ℕ → List ℕ) where
  -- The texts of the symbols, in order.
  abbrev pub chain_text : List Node → List ℕ → List ℕ
  chain_text nodes [] = []
  chain_text nodes (i ∷ is) = text_of ((node_at nodes i).symbol) ++ chain_text nodes is

  -- `right` stands behind `left`, is joined to it, and the merged symbol has the text of both.
  abbrev pub Joins : List Node → List Node → ℕ → ℕ → ℕ → Type 0
  Joins nodes nodes' combined left right =
      ((node_at nodes left).next ≡ some right)
      × Joined nodes nodes' combined left right ((node_at nodes right).next)
      × (combined < 2 ^ 32)
      × (text_of combined
          ≡ text_of ((node_at nodes left).symbol) ++ text_of ((node_at nodes right).symbol))

  -- A chain of one node less, of the same text.
  abbrev pub IsShorter : List Node → List Node → ℕ → Option ℕ → Option ℕ → List ℕ → Type 0
  IsShorter nodes nodes' right previous start is =
      (js : List ℕ) × IsChain nodes' previous start js
      × (chain_text nodes' js ≡ chain_text nodes is)
      × (suc (length js) ≡ length is)
      × ((i : ℕ) → is_in i is ≡ true → i ≢ right → is_in i js ≡ true)

  keep-text :
      (nodes nodes' : List Node) (is : List ℕ)
      → ((j : ℕ) → is_in j is ≡ true → (node_at nodes' j).symbol ≡ (node_at nodes j).symbol)
      → chain_text nodes' is ≡ chain_text nodes is
  keep-text nodes nodes' [] h = refl
  keep-text nodes nodes' (i ∷ is) h =
      let same : text_of ((node_at nodes' i).symbol) ≡ text_of ((node_at nodes i).symbol) =
        ap text_of (h i (ground arith)) in
      let rest = keep-text nodes nodes' is (λ j e. h j (ground arith)) in
      ap (λ t. t ++ chain_text nodes' is) same
      ∙ ap (λ t. text_of ((node_at nodes i).symbol) ++ t) rest

  -- Behind both nodes the symbols are the same.
  symbol-behind :
      {nodes nodes' : List Node} {combined left right : ℕ} {next : Option ℕ}
      → Joined nodes nodes' combined left right next
      → left < right
      → (j : ℕ) → right < j
      → (node_at nodes' j).symbol ≡ (node_at nodes j).symbol
  symbol-behind {nodes} {nodes'} {combined} {left} {right} {next} joined lt j b =
      elim (Option-cases next) [
        | inl e ↦
            ap (λ (x : Node). x.symbol)
              (joined.elsewhere j (λ q. absurd (omega arith)) (λ q. absurd (omega arith))
                (λ q. absurd (ground arith)))
        | inr (n, e) ↦ elim (Bool-cases (n == j)) [
          | inl s ↦
              let same : n ≡ j = ground arith in
              let at = joined.at_next n e in
              subst (λ k. (node_at nodes' k).symbol ≡ (node_at nodes k).symbol) same
                (ap (λ (x : Node). x.symbol) at)
          | inr s ↦
              ap (λ (x : Node). x.symbol)
                (joined.elsewhere j (λ q. absurd (omega arith)) (λ q. absurd (omega arith))
                  (λ q. absurd (ground arith)))
        ]
      ]

  IsShorter-here :
      (nodes nodes' : List Node) (combined left right : ℕ) (previous start : Option ℕ) (is : List ℕ)
      → Joins nodes nodes' combined left right
      → IsChain nodes previous start (left ∷ right ∷ is)
      → IsShorter nodes nodes' right previous start (left ∷ right ∷ is)
  IsShorter-here nodes nodes' combined left right previous start is (next, joined, small, texts)
        (s, a, l, ac, p, sy, (s', a', l', ac', p', sy', c)) =
      let at = joined.at_left in
      let longer = joined.same_length in
      let rest : IsChain nodes' (some left) ((node_at nodes right).next) is =
        behind-IsChain joined a' is c in
      let same_text : chain_text nodes' is ≡ chain_text nodes is = keep-text nodes nodes' is (λ j e.
        symbol-behind joined a' j
          (above-chain nodes right ((node_at nodes right).next) is j c e)) in
      (
        left ∷ is,
        (
          s,
          a,
          (omega arith),
          ap (λ (x : Node). x.active) at ∙ ac,
          ap (λ (x : Node). x.previous) at ∙ p,
          subst (λ (x : Node). x.symbol < 2 ^ 32) (sym at) small,
          subst (λ (x : Node). IsChain nodes' (some left) (x.next) is) (sym at) rest,
        ),
        ap (λ (x : Node). text_of (x.symbol) ++ chain_text nodes' is) at
            ∙ ap (λ t. t ++ chain_text nodes' is) texts
            ∙ append_assoc (text_of ((node_at nodes left).symbol))
                (text_of ((node_at nodes right).symbol)) (chain_text nodes' is)
            ∙ ap
                (λ t.
                  text_of ((node_at nodes left).symbol)
                  ++ (text_of ((node_at nodes right).symbol) ++ t))
                same_text,
        refl,
        (λ i e d. (ground arith)),
      )

  -- The second node of a chain is the one that stands behind the first.
  IsShorter-first :
      (nodes nodes' : List Node) (combined left right : ℕ) (previous start : Option ℕ) (is : List ℕ)
      → Joins nodes nodes' combined left right
      → IsChain nodes previous start (left ∷ is)
      → IsShorter nodes nodes' right previous start (left ∷ is)
  IsShorter-first nodes nodes' combined left right previous start [] (next, joined, small, texts)
        (s, a, l, ac, p, sy, c) =
      absurd (ground arith)
  IsShorter-first nodes nodes' combined left right previous start (i ∷ is) j
        (s, a, l, ac, p, sy, (s', a', l', ac', p', sy', c')) =
      let same : right ≡ i = ground arith in
      subst (λ q. IsShorter nodes nodes' q previous start (left ∷ i ∷ is)) (sym same)
        (IsShorter-here nodes nodes' combined left i previous start is
          (subst (λ q. Joins nodes nodes' combined left q) same j)
          (s, a, l, ac, p, sy, (s', a', l', ac', p', sy', c')))

  -- A node in front of both is the same.
  IsShorter-later :
      (nodes nodes' : List Node) (i right : ℕ) (previous start : Option ℕ) (is : List ℕ)
      → length nodes' ≡ length nodes
      → node_at nodes' i ≡ node_at nodes i
      → IsChain nodes previous start (i ∷ is)
      → IsShorter nodes nodes' right (some i) ((node_at nodes i).next) is
      → IsShorter nodes nodes' right previous start (i ∷ is)
  IsShorter-later nodes nodes' i right previous start is n same (s, a, l, ac, p, sy, c)
        (js, chain, texts, size, others) =
      (
        i ∷ js,
        (
          s,
          a,
          (omega arith),
          ap (λ (x : Node). x.active) same ∙ ac,
          ap (λ (x : Node). x.previous) same ∙ p,
          subst (λ (x : Node). x.symbol < 2 ^ 32) (sym same) sy,
          subst (λ (x : Node). IsChain nodes' (some i) (x.next) js) (sym same) chain,
        ),
        ap (λ (x : Node). text_of (x.symbol) ++ chain_text nodes' js) same
            ∙ ap (λ t. text_of ((node_at nodes i).symbol) ++ t) texts,
        ap suc size,
        (λ k e d. in_either i k js (elim (Bool-cases (i == k)) [
          | inl q ↦ inl q
          | inr q ↦ inr (others k (ground arith) d)
        ])),
      )

  pub IsShorter-chain :
      (nodes nodes' : List Node) (combined left right : ℕ) (previous start : Option ℕ) (is : List ℕ)
      → Joins nodes nodes' combined left right
      → left < right
      → ((n : ℕ) → (node_at nodes right).next ≡ some n → right < n)
      → IsChain nodes previous start is
      → is_in left is ≡ true
      → IsShorter nodes nodes' right previous start is
  IsShorter-chain nodes nodes' combined left right previous start [] j lt after c h =
      absurd (ground arith)
  IsShorter-chain nodes nodes' combined left right previous start (i ∷ is) j lt after c h =
      elim (Bool-cases (i == left)) [
        | inl e ↦
            let same : left ≡ i = ground arith in
            IsShorter-first nodes nodes' combined i right previous start is
              (subst (λ k. Joins nodes nodes' combined k right) same j) c
        | inr e ↦
            let (next, joined, small, texts) = j in
            let (s, a, l, ac, p, sy, chain) = c in
            let there : is_in left is ≡ true = ground arith in
            let below = above-chain nodes i ((node_at nodes i).next) is left chain there in
            let unchanged =
              joined.elsewhere i (λ q. absurd (omega arith)) (λ q. absurd (omega arith))
                (λ q. absurd (let up = after i q in omega arith)) in
            IsShorter-later nodes nodes' i right previous start is (joined.same_length) unchanged c
              (IsShorter-chain nodes nodes' combined left right (some i) ((node_at nodes i).next) is
                j lt after chain there)
      ]
