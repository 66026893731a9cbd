-- ===== src/Bpe/Chain.antt =====
-- src/bpe.cpp: the linked list of the nodes, and what joining two of them leaves of it.
use adi.Base.{
  ℕ, ◌^◌, ◌<◌, ◌≡◌, ◌≢◌, refl, ap, sym, subst, ◌∙◌, Bool, true, false, ◌||◌, List, [], ◌∷◌, Option,
  none, some, ◌==◌, length, arith, Bool-cases, inl, inr, length-set, get_or-set, get_or-set_other,
  set,
}
use package.adi.Bpe.{Node, node_at, no_node, set_previous, join_nodes}

-- The node before, if there is one, has a lower index.
abbrev pub Above : Option ℕ → ℕ → Type 0
Above none index = Unit
Above (some previous) index = previous < index

-- The active nodes from `start` on: each knows the one before it.
abbrev pub IsChain : List Node → Option ℕ → Option ℕ → List ℕ → Type 0
IsChain nodes previous start [] = start ≡ none
IsChain nodes previous start (i ∷ is) =
    (start ≡ some i)
    × Above previous i
    × (i < length nodes)
    × ((node_at nodes i).active ≡ true)
    × ((node_at nodes i).previous ≡ previous)
    × ((node_at nodes i).symbol < 2 ^ 32)
    × IsChain nodes (some i) ((node_at nodes i).next) is

abbrev pub is_in : ℕ → List ℕ → Bool
is_in i [] = false
is_in i (j ∷ js) = j == i || is_in i js

-- Each node of the rest is above the bound.
pub above-chain :
    (nodes : List Node) (bound : ℕ) (start : Option ℕ) (is : List ℕ) (i : ℕ)
    → IsChain nodes (some bound) start is
    → is_in i is ≡ true
    → bound < i
above-chain nodes bound start [] i c h = absurd (ground arith)
above-chain nodes bound start (j ∷ js) i (s, a, l, ac, p, sy, c) h = elim (Bool-cases (j == i)) [
  | inl e ↦ ground arith
  | inr e ↦
      let k = above-chain nodes j ((node_at nodes j).next) js i c (ground arith) in omega arith
]

-- Nodes that are the same above a bound have the same chain there.
keep-IsChain :
    (nodes nodes' : List Node) (bound : ℕ) (start : Option ℕ) (is : List ℕ)
    → length nodes' ≡ length nodes
    → ((j : ℕ) → bound < j → node_at nodes' j ≡ node_at nodes j)
    → IsChain nodes (some bound) start is
    → IsChain nodes' (some bound) start is
keep-IsChain nodes nodes' bound start [] n h c = c
keep-IsChain nodes nodes' bound start (i ∷ is) n h (s, a, l, ac, p, sy, c) =
    let same = h i a in
    (
      s,
      a,
      (omega arith),
      ap (λ (x : Node). x.active) same ∙ ac,
      ap (λ (x : Node). x.previous) same ∙ p,
      subst (λ (x : Node). x.symbol < 2 ^ 32) (sym same) sy,
      subst (λ (x : Node). IsChain nodes' (some i) (x.next) is) (sym same)
          (keep-IsChain nodes nodes' i ((node_at nodes i).next) is n (λ j b. h j (omega arith)) c),
    )

-- What the nodes are once `right` is joined to `left`.
pub record Joined (nodes nodes' : List Node) (combined left right : ℕ) (next : Option ℕ)
    : Type 0 where
  pub same_length : length nodes' ≡ length nodes
  pub at_left : node_at nodes' left ≡ record (node_at nodes left) { symbol = combined; next = next }
  pub at_right : (node_at nodes' right).active ≡ false
  pub at_next :
      (n : ℕ) → next ≡ some n → node_at nodes' n ≡ record (node_at nodes n) { previous = some left }
  pub elsewhere :
      (j : ℕ) → j ≢ left → j ≢ right → next ≢ some j → node_at nodes' j ≡ node_at nodes j

other : (n j : ℕ) → n < j → some n ≢ some j
other n j h e = ground arith

-- The chain behind the node that is taken out.
pub behind-IsChain :
    {nodes nodes' : List Node} {combined left right : ℕ} {next : Option ℕ}
    → Joined nodes nodes' combined left right next
    → left < right
    → (is : List ℕ) → IsChain nodes (some right) next is
    → IsChain nodes' (some left) next is
behind-IsChain joined lt [] c = c
behind-IsChain {nodes} {nodes'} {combined} {left} {right} {next} joined lt (n ∷ is)
      (s, a, l, ac, p, sy, c) =
    let same = joined.at_next n s in
    let longer = joined.same_length in
    let rest : IsChain nodes' (some n) ((node_at nodes n).next) is =
      keep-IsChain nodes nodes' n ((node_at nodes n).next) is longer
        (λ j b.
          joined.elsewhere j (λ e. absurd (omega arith)) (λ e. absurd (omega arith))
            (λ e. absurd (other n j b (sym s ∙ e))))
        c in
    (
      s,
      (omega arith),
      (omega arith),
      ap (λ (x : Node). x.active) same ∙ ac,
      ap (λ (x : Node). x.previous) same,
      subst (λ (x : Node). x.symbol < 2 ^ 32) (sym same) sy,
      subst (λ (x : Node). IsChain nodes' (some n) (x.next) is) (sym same) rest,
    )

next-here :
    (nodes : List Node) (left right : ℕ) (is : List ℕ)
    → IsChain nodes (some left) ((node_at nodes left).next) is
    → (node_at nodes left).next ≡ some right
    → (left < right) × (is_in right is ≡ true)
next-here nodes left right [] c e = absurd (let none_left = c in ground arith)
next-here nodes left right (i ∷ is) (s, a, l, ac, p, sy, c) e =
    let same : i ≡ right = ground arith in ((omega arith), ground arith)

-- The node behind one of the chain is in the chain too, and above it.
pub next-above :
    (nodes : List Node) (previous start : Option ℕ) (is : List ℕ) (left right : ℕ)
    → IsChain nodes previous start is
    → is_in left is ≡ true
    → (node_at nodes left).next ≡ some right
    → (left < right) × (is_in right is ≡ true)
next-above nodes previous start [] left right c h e = absurd (ground arith)
next-above nodes previous start (i ∷ is) left right (s, a, l, ac, p, sy, c) h e =
    elim (Bool-cases (i == left)) [
      | inl q ↦
          let same : i ≡ left = ground arith in
          let (lt, there) =
            next-here nodes i right is c
              (subst (λ k. (node_at nodes k).next ≡ some right) (sym same) e) in
          ((omega arith), ground arith)
      | inr q ↦
          let (lt, there) =
            next-above nodes (some i) ((node_at nodes i).next) is left right c (ground arith) e in
          (lt, ground arith)
    ]

length-set_previous :
    (next : Option ℕ) (left : ℕ) (nodes : List Node)
    → length (set_previous next left nodes) ≡ length nodes
unfolding set_previous
length-set_previous none left nodes = refl
length-set_previous (some n) left nodes = length-set nodes n _

set_previous-elsewhere :
    (next : Option ℕ) (left j : ℕ) (nodes : List Node)
    → next ≢ some j
    → node_at (set_previous next left nodes) j ≡ node_at nodes j
unfolding set_previous
set_previous-elsewhere none left j nodes h = refl
set_previous-elsewhere (some n) left j nodes h =
    get_or-set_other nodes n j _ no_node (λ e. h (ap some e))

set_previous-at :
    (next : Option ℕ) (left n : ℕ) (nodes : List Node)
    → next ≡ some n
    → n < length nodes
    → node_at (set_previous next left nodes) n ≡ record (node_at nodes n) { previous = some left }
unfolding set_previous
set_previous-at next left n nodes e h =
    ap (λ o. node_at (set_previous o left nodes) n) e
    ∙ get_or-set nodes n (record (node_at nodes n) { previous = some left }) no_node h

-- The nodes that `merge_pair` leaves, for two different nodes and a third one behind them.
pub join_nodes-Joined :
    (nodes : List Node) (combined left right : ℕ)
    → left < length nodes
    → right < length nodes
    → left < right
    → ((n : ℕ) → (node_at nodes right).next ≡ some n → (right < n) × (n < length nodes))
    → Joined nodes
        (join_nodes combined left right nodes)
        combined
        left
        right
        ((node_at nodes right).next)
unfolding join_nodes
join_nodes-Joined nodes combined left right l r lt after =
    let next = (node_at nodes right).next in
    let merged : Node = record (node_at nodes left) { symbol = combined; next = next } in
    let gone : Node = record (node_at nodes right) {
      active = false;
      previous = none;
      next = none;
    } in
    let middle = set (set nodes left merged) right gone in
    let size : length middle ≡ length nodes =
      length-set (set nodes left merged) right gone ∙ length-set nodes left merged in
    let middle-left : node_at middle left ≡ merged =
      get_or-set_other (set nodes left merged) right left gone no_node (λ e. absurd (omega arith))
      ∙ get_or-set nodes left merged no_node l in
    let middle-right : node_at middle right ≡ gone =
      get_or-set (set nodes left merged) right gone no_node
        (let k = length-set nodes left merged in omega arith) in
    let middle-other : (j : ℕ) → j ≢ left → j ≢ right → node_at middle j ≡ node_at nodes j =
      λ j a b.
        get_or-set_other (set nodes left merged) right j gone no_node (λ e. b (sym e))
        ∙ get_or-set_other nodes left j merged no_node (λ e. a (sym e)) in
    record {
      same_length = length-set_previous next left middle ∙ size;
      at_left =
          set_previous-elsewhere next left left middle
            (λ e. absurd (let up = after left e in omega arith))
          ∙ middle-left;
      at_right =
          ap (λ (x : Node). x.active)
            (set_previous-elsewhere next left right middle
                (λ e. absurd (let up = after right e in omega arith))
              ∙ middle-right);
      at_next = λ n e.
          (let (up, within) = after n e in
            set_previous-at next left n middle e (omega arith)
            ∙ ap (λ (x : Node). record x { previous = some left })
                (middle-other n (λ q. absurd (omega arith)) (λ q. absurd (omega arith))));
      elsewhere = λ j a b c. set_previous-elsewhere next left j middle c ∙ middle-other j a b;
    }
