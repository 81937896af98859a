-- ===== src/Common/Http/Request/Message.antt =====
-- The request parser of common/src/http_protocol.c: the lines of a request and its body. Whether
-- an allocation of a size succeeds is the argument `grants`.
use codo.Prelude.{
  ℕ, zero, suc, ◌+◌, Bool, true, false, ◌&&◌, Option, none, some, List, [], ◌∷◌, ltb, ◌==◌,
  if◌then◌else◌, length, take,
}
use codo.Common.Http.{split_line, strip_cr, split_colon, skip_blanks}
use codo.Common.Http.Chunked.{Decoded, complete, partial, malformed, is_empty, http_chunked_decode}
use codo.Common.Http.Request.{Request, zero_request, parse_request_line, store_header_field}

-- 0 with the request, -1 and -2.
pub data Parsed : Type 0 where
  parsed : Request → Parsed
  bad_message no_memory : Parsed

-- A C string: the bytes before a NUL.
unfoldable pub c_string : List ℕ → List ℕ
c_string [] = []
c_string (c ∷ p) = elim (c == 0) [ true ↦ [] | false ↦ c ∷ c_string p ]

-- `next_line`: the line, and what is left of the window.
unfoldable pub next_line : List ℕ → Option (List ℕ × List ℕ)
next_line window = elim (split_line window) [
  | none ↦ none
  | some (line, rest) ↦ some (c_string (strip_cr line), rest)
]

unfoldable pub chunked_body : Request → Decoded → Parsed
chunked_body r (complete decoded used) = parsed (record r { body = decoded })
chunked_body r (partial decoded used) = bad_message
chunked_body r malformed = bad_message

unfoldable pub parse_request_body : (ℕ → Bool) → Request → List ℕ → Parsed
parse_request_body grants r body =
    if r.chunked
    then (if grants (length body + 1) then chunked_body r (http_chunked_decode body) else no_memory)
    else (let len = if ltb r.content_length (length body) then r.content_length else length body in
        if len == 0
        then parsed r
        else (if grants (len + 1) then parsed (record r { body = take len body }) else no_memory))

-- At the blank line.
unfoldable pub end_of_headers : (ℕ → Bool) → Request → List ℕ → Parsed
end_of_headers grants r rest =
    if r.chunked && r.saw_content_length
    then bad_message
    else (if is_empty rest then parsed r else parse_request_body grants r rest)

-- The loop over the header lines. A line takes a byte at least, so that fuel for the window is
-- enough.
unfoldable pub parse_fields : ℕ → (ℕ → Bool) → (List ℕ → Option ℕ) → Request → List ℕ → Parsed
parse_fields zero grants date r window = parsed r
parse_fields (suc n) grants date r window = elim (next_line window) [
  | none ↦ parsed r
  | some (line, rest) ↦ elim (is_empty line) [
    | true ↦ end_of_headers grants r rest
    | false ↦ elim (split_colon line) [
      | none ↦ parse_fields n grants date r rest
      | some (name, v) ↦ elim (store_header_field date r name (skip_blanks v)) [
        | none ↦ bad_message
        | some q ↦ parse_fields n grants date q rest
      ]
    ]
  ]
]

-- The first `request_len` bytes of the read buffer.
unfoldable pub parse_http_request : (ℕ → Bool) → (List ℕ → Option ℕ) → List ℕ → ℕ → Parsed
parse_http_request grants date buf request_len =
    if ltb (length buf) request_len then bad_message else (elim (next_line (take request_len buf)) [
      | none ↦ bad_message
      | some (line, rest) ↦ elim (parse_request_line line zero_request) [
        | none ↦ bad_message
        | some r ↦ parse_fields (suc (length rest)) grants date r rest
      ]
    ])
