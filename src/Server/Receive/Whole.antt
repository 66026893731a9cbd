-- ===== src/Server/Receive/Whole.antt =====
-- src/server.cpp: a received request is whole, and its bytes are those that came.
use adi.Base.{
  ℕ, zero, suc, ◌+◌, ◌-◌, ◌≤◌, ◌≡◌, refl, ap, sym, ◌∙◌, true, List, [], ◌∷◌, ◌++◌, some, ltb, leb,
  length, take, drop, arith, Bool-cases, Option-cases, inl, inr, concat, append-nil, append_assoc,
  length-append, length-take, take-append-drop,
}
use adi.Base.Result.{
  ok, Ensures, holds, rejected, Ensures-map, Ensures-bind, Ensures-of, Ensures-guard,
}
use adi.Utf8.{Bytes}
use adi.ToolCall.Calls.{starts_with, find_text}
use adi.Server.Receive.{
  maximum_headers, maximum_body, headers_too_large, body_too_large, blank_line, content_length,
  receive_head, receive_body, receive_request,
}

starts_with-append :
    (prefix text : Bytes)
    → starts_with prefix text ≡ true
    → (rest : Bytes) × (text ≡ prefix ++ rest)
unfolding starts_with
starts_with-append [] text h = (text, refl)
starts_with-append (c ∷ prefix) [] h = absurd (ground arith)
starts_with-append (c ∷ prefix) (d ∷ text) h =
    let (rest, e) = starts_with-append prefix text (ground arith) in
    let same : d ≡ c = ground arith in (rest, ap (λ x. x ∷ text) same ∙ ap (λ t. c ∷ t) e)

find_text-append :
    (needle text before found : Bytes)
    → find_text needle text ≡ some (before, found)
    → (rest : Bytes) × (text ≡ (before ++ needle) ++ rest)
unfolding find_text
find_text-append needle [] before found h = elim (Bool-cases (starts_with needle [])) [
  | inl e ↦
      let (rest, q) = starts_with-append needle [] e in
      let none_before : before ≡ [] = ground arith in
      (rest, q ∙ ap (λ b. (b ++ needle) ++ rest) (sym none_before))
  | inr e ↦ absurd (ground arith)
]
find_text-append needle (c ∷ text) before found h =
    elim (Bool-cases (starts_with needle (c ∷ text))) [
      | inl e ↦
          let (rest, q) = starts_with-append needle (c ∷ text) e in
          let none_before : before ≡ [] = ground arith in
          (rest, q ∙ ap (λ b. (b ++ needle) ++ rest) (sym none_before))
      | inr e ↦ elim (Option-cases (find_text needle text)) [
        | inl f ↦ absurd (ground arith)
        | inr ((b, later), f) ↦
            let (rest, q) = find_text-append needle text b later f in
            let same : before ≡ c ∷ b = ground arith in
            (rest, ap (λ t. c ∷ t) q ∙ ap (λ b. (b ++ needle) ++ rest) (sym same))
      ]
    ]

take-front : (n : ℕ) (xs ys : Bytes) → n ≤ length xs → take n (xs ++ ys) ≡ take n xs
take-front zero xs ys h = refl
take-front (suc n) [] ys h = absurd (omega arith)
take-front (suc n) (x ∷ xs) ys h = ap (λ t. x ∷ t) (take-front n xs ys (omega arith))

take_whole : (xs ys : Bytes) → take (length xs) (xs ++ ys) ≡ xs
take_whole [] ys = refl
take_whole (x ∷ xs) ys = ap (λ t. x ∷ t) (take_whole xs ys)

take-take : (n m : ℕ) (xs : Bytes) → n ≤ m → take n (take m xs) ≡ take n xs
take-take zero m xs h = refl
take-take (suc n) zero xs h = absurd (omega arith)
take-take (suc n) (suc m) [] h = refl
take-take (suc n) (suc m) (x ∷ xs) h = ap (λ t. x ∷ t) (take-take n m xs (omega arith))

-- The head ends within the bytes, which are not too many, and all that came is there.
abbrev IsHead : Bytes → List Bytes → Bytes × Bytes × List Bytes → Type 0
IsHead before chunks (request, head, later) =
    (take (length head + 4) request ≡ head ++ blank_line)
    × (length head + 4 ≤ length request)
    × (length request ≤ maximum_headers)
    × (before ++ concat chunks ≡ request ++ concat later)

receive_head-IsHead :
    (before : Bytes) (chunks : List Bytes)
    → Ensures (IsHead before chunks) (receive_head before chunks)
unfolding receive_head
receive_head-IsHead before [] = rejected
receive_head-IsHead before (chunk ∷ chunks) =
    let joined = sym (append_assoc before chunk (concat chunks)) in
    Ensures-guard (leb (length (before ++ chunk)) maximum_headers) headers_too_large (λ few.
      elim (Option-cases (find_text blank_line (before ++ chunk))) [
        | inl e ↦ rw (e) (
            Ensures-map (receive_head-IsHead (before ++ chunk) chunks)
              (λ (request, head, later) (h, k, l, same). (h, k, l, joined ∙ same)))
        | inr ((head, found), e) ↦
            let (rest, q) = find_text-append blank_line (before ++ chunk) head found e in
            let front = length-append head blank_line in
            let all = length-append (head ++ blank_line) rest in
            let size = ap length q in
            let to : take (length head + 4) (before ++ chunk) ≡ head ++ blank_line =
              ap (λ n. take n (before ++ chunk)) (omega arith)
              ∙ ap (take (length (head ++ blank_line))) q
              ∙ take_whole (head ++ blank_line) rest in
            let fits : length (before ++ chunk) ≤ maximum_headers = ground arith in
            rw (e) (holds (to, (omega arith), (omega arith), joined))
      ])

abbrev IsBody : ℕ → Bytes → List Bytes → Bytes → Type 0
IsBody total request chunks whole =
    (total ≤ length whole)
    × (more : Bytes) × (rest : Bytes) × (whole ≡ request ++ more)
    × (request ++ concat chunks ≡ whole ++ rest)

receive_body-IsBody :
    (total : ℕ) (request : Bytes) (chunks : List Bytes)
    → Ensures (IsBody total request chunks) (receive_body total request chunks)
unfolding receive_body
receive_body-IsBody total request [] = elim (Bool-cases (ltb (length request) total)) [
  | inl e ↦ rw (e) rejected
  | inr e ↦
      let enough : total ≤ length request = ground arith in
      rw (e) (holds (enough, [], [], sym (append-nil request), refl))
]
receive_body-IsBody total request (chunk ∷ chunks) =
    elim (Bool-cases (ltb (length request) total)) [
      | inl e ↦
          rw (receive_body, e)
            (Ensures-map (receive_body-IsBody total (request ++ chunk) chunks)
              (λ whole (enough, more, rest, w, same). (
                enough,
                chunk ++ more,
                rest,
                w ∙ append_assoc request chunk more,
                sym (append_assoc request chunk (concat chunks)) ∙ same,
              )))
      | inr e ↦
          let enough : total ≤ length request = ground arith in
          rw (receive_body, e)
            (holds (enough, [], chunk ++ concat chunks, sym (append-nil request), refl))
    ]

-- A request of these chunks: its head ends with a blank line, the rest has the length that the head
-- gives, both are within their limits, and the bytes are those that came first.
abbrev pub IsRequestOf : List Bytes → Bytes → Type 0
IsRequestOf chunks request =
    (head : Bytes) × (rest : Bytes) × (take (length head + 4) request ≡ head ++ blank_line)
    × (length head + 4 ≤ maximum_headers)
    × (length head + 4 ≤ length request)
    × (content_length (head ++ blank_line) ≡ ok (length request - (length head + 4)))
    × (length request ≤ length head + 4 + maximum_body)
    × (concat chunks ≡ request ++ rest)

-- However the bytes of a request are divided into chunks: what is received has a head of at most 65536
-- bytes that ends with a blank line, and behind it a body of exactly as many bytes as the head's
-- Content-Length says, at most 1048576; and it is what came first on the connection.
pub receive_request-IsRequestOf :
    (chunks : List Bytes) → Ensures (IsRequestOf chunks) (receive_request chunks)
unfolding receive_request
receive_request-IsRequestOf chunks =
    Ensures-bind (receive_head-IsHead [] chunks) (λ (request, head, later) (at, within, few, came).
      Ensures-bind (Ensures-of (content_length (take (length head + 4) request)) (λ size e. e))
        (λ size said. Ensures-guard (leb size maximum_body) body_too_large (λ small.
          Ensures-bind (receive_body-IsBody (length head + 4 + size) request later)
            (λ whole (enough, more, rest, w, same).
              let total = length head + 4 + size in
              let fits : size ≤ maximum_body = ground arith in
              let exactly = length-take total whole in
              let count : length (take total whole) ≡ length head + 4 + size = omega arith in
              holds (
                head,
                drop total whole ++ rest,
                take-take (length head + 4) total whole (omega arith)
                    ∙ ap (take (length head + 4)) w
                    ∙ take-front (length head + 4) request more within
                    ∙ at,
                (omega arith),
                (omega arith),
                ap content_length (sym at) ∙ said ∙ ap ok (omega arith),
                (omega arith),
                came
                    ∙ same
                    ∙ ap (λ t. t ++ rest) (sym (take-append-drop total whole))
                    ∙ append_assoc (take total whole) (drop total whole) rest,
              )))))
