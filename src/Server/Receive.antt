-- ===== src/Server/Receive.antt =====
-- src/server.cpp: the bytes of a request and its Content-Length. What `receive_some` gives until it
-- throws is a list of chunks; the end of the list is a socket that fails. Deadlines are
-- left out.
pub mod Whole
use adi.Base.{
  ℕ, zero, suc, ◌+◌, ◌-◌, ◌*◌, ◌^◌, Bool, true, false, not, ◌&&◌, List, [], ◌∷◌, ◌++◌, Option, none,
  some, ltb, leb, ◌==◌, if◌then◌else◌, length, list_eq, take, drop, map,
}
use adi.Base.Result.{Result, ok, err, ◌>>=◌, ◌>>◌, guard}
use adi.Base.Text.{codes}
use adi.Utf8.{Bytes}
use adi.ToolCall.Calls.{find_text}

pub data ReceiveError : Type 0 where
  disconnected : ReceiveError
  headers_too_large : ReceiveError
  invalid_length : ReceiveError
  body_too_large : ReceiveError

abbrev pub maximum_headers : ℕ
maximum_headers = 64 * 1024

abbrev pub maximum_body : ℕ
maximum_body = 1024 * 1024

abbrev pub line_end : Bytes
line_end = 0x0D ∷ 0x0A ∷ []

abbrev pub blank_line : Bytes
blank_line = 0x0D ∷ 0x0A ∷ 0x0D ∷ 0x0A ∷ []

unfoldable pub lower : Bytes → Bytes
lower value = map (λ c. (if leb 0x41 c && leb c 0x5A then c + 0x20 else c)) value

unfoldable pub without_spaces : Bytes → Bytes
without_spaces [] = []
without_spaces (c ∷ value) = if c == 0x20 then without_spaces value else c ∷ value

-- The digits' number; none where there is another byte.
unfoldable pub digits_from : ℕ → Bytes → Option ℕ
digits_from value [] = some value
digits_from value (c ∷ text) =
    if leb 0x30 c && leb c 0x39 then digits_from (value * 10 + (c - 0x30)) text else none

-- `from_chars`, which reads the whole text here, into 64 bits.
unfoldable pub parse_length : Bytes → Result ReceiveError ℕ
parse_length [] = err invalid_length
parse_length (c ∷ text) = elim (digits_from 0 (c ∷ text)) [
  | none ↦ err invalid_length
  | some size ↦ if ltb size (2 ^ 64) then ok size else err invalid_length
]

-- The value of a line that is a Content-Length.
unfoldable pub length_value : Bytes → Option Bytes
length_value line = elim (find_text (0x3A ∷ []) line) [
  | none ↦ none
  | some (name, found) ↦
      if list_eq (lower name) (codes "content-length")
      then some (without_spaces (drop 1 found))
      else none
]

-- The loop over the lines. Each round passes a line and its end, so that the headers' length is fuel
-- enough.
unfoldable pub length_from : ℕ → Bytes → Result ReceiveError ℕ
length_from zero headers = ok 0
length_from (suc fuel) headers = elim (find_text line_end headers) [
  | none ↦ ok 0
  | some ([], found) ↦ ok 0
  | some (c ∷ line, found) ↦ elim (length_value (c ∷ line)) [
    | none ↦ length_from fuel (drop 2 found)
    | some value ↦ parse_length value
  ]
]

-- Where there is no line end, `find` gives the largest number, which wraps to 1.
unfoldable pub content_length : Bytes → Result ReceiveError ℕ
content_length headers = elim (find_text line_end headers) [
  | none ↦ length_from (length headers) (drop 1 headers)
  | some (line, found) ↦ length_from (length headers) (drop 2 found)
]

-- The bytes up to the chunk with the blank line, what is in front of that line, and the chunks left.
unfoldable pub receive_head : Bytes → List Bytes → Result ReceiveError (Bytes × Bytes × List Bytes)
receive_head request [] = err disconnected
receive_head request (chunk ∷ chunks) =
    guard (leb (length (request ++ chunk)) maximum_headers) headers_too_large
    >> elim (find_text blank_line (request ++ chunk)) [
      | none ↦ receive_head (request ++ chunk) chunks
      | some (head, found) ↦ ok (request ++ chunk, head, chunks)
    ]

unfoldable pub receive_body : ℕ → Bytes → List Bytes → Result ReceiveError Bytes
receive_body total request [] = if ltb (length request) total then err disconnected else ok request
receive_body total request (chunk ∷ chunks) = elim (ltb (length request) total) [
  | true ↦ receive_body total (request ++ chunk) chunks
  | false ↦ ok request
]

unfoldable pub receive_request : List Bytes → Result ReceiveError Bytes
receive_request chunks = do
  (request, head, later) ← receive_head [] chunks
  size ← content_length (take (length head + 4) request)
  guard (leb size maximum_body) body_too_large
  whole ← receive_body (length head + 4 + size) request later
  ok (take (length head + 4 + size) whole)
