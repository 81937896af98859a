-- ===== src/Server/Frame.antt =====
-- The framing of requests in server/src/worker.c: `check_request_frame`, `copy_header_value` and
-- `conn_consume_read`. The read buffer is the list of the bytes that have arrived.
pub mod Scan
pub mod Extend
pub mod Limits
pub mod Smuggling
pub mod Agreement
use codo.Prelude.{
  ℕ, zero, suc, ◌+◌, ◌-◌, ◌%◌, Bool, true, false, ◌&&◌, ◌||◌, not, Option, none, some, List, [],
  ◌∷◌, ltb, leb, ◌==◌, if◌then◌else◌, length, take, drop,
}
use codo.Common.Http.{cr, lf, is_blank, skip_blanks, strip_cr, same_word, split_colon, trim_end}
use codo.Common.Http.Fields.{
  content_length_name, transfer_encoding_name, expect_name, chunked_value, continue_value,
}
use codo.Common.Http.Chunked.{size_max, Decoded, complete, partial, malformed, http_chunked_decode}
use codo.Common.Http.Numbers.{http_parse_content_length}

-- Behind a line feed: the bytes up to and with the line feed that closes a blank line.
unfoldable pub blank_line : List ℕ → Option ℕ
blank_line [] = none
blank_line (c ∷ []) = if c == lf then some 1 else none
blank_line (c ∷ d ∷ q) =
    if c == cr then (if d == lf then some 2 else none) else (if c == lf then some 1 else none)

-- `hdr_end - buf` and `header_len`, with the buffer left at position `i`.
unfoldable pub header_end : List ℕ → ℕ → Option (ℕ × ℕ)
header_end [] i = none
header_end (c ∷ p) i = elim (c == lf) [
  | true ↦ elim (blank_line p) [ some k ↦ some (i, i + 1 + k) | none ↦ header_end p (i + 1) ]
  | false ↦ header_end p (i + 1)
]

unfoldable pub has_byte : ℕ → List ℕ → Bool
has_byte b [] = false
has_byte b (c ∷ p) = c == b || has_byte b p

abbrev pub push : ℕ → List (List ℕ) → List (List ℕ)
push c [] = (c ∷ []) ∷ []
push c (l ∷ ls) = (c ∷ l) ∷ ls

-- The lines of the headers as the loop meets them, without their line feeds.
unfoldable pub lines : List ℕ → List (List ℕ)
lines [] = []
lines (c ∷ p) = elim (c == lf) [ true ↦ [] ∷ lines p | false ↦ push c (lines p) ]

unfoldable pub copy_header_value : List ℕ → ℕ → Option (List ℕ)
copy_header_value v tmp_size =
    let kept = trim_end (skip_blanks v) in if leb tmp_size (length kept) then none else some kept

-- The local variables of the walk over the header lines, with `*expect_100`.
pub record Framing : Type 0 where
  pub content_length : ℕ
  pub saw_content_length : Bool
  pub chunked : Bool
  pub expect_100 : Bool

-- The returns -1 and -2.
pub data Refusal : Type 0 where
  bad_framing bad_encoding : Refusal

-- What a header field does: a refusal, or the variables after it.
pub data Walk : Type 0 where
  refused : Refusal → Framing → Walk
  walked : Framing → Walk

unfoldable pub content_length_field : Framing → List ℕ → Walk
content_length_field f v = elim (copy_header_value v 32) [
  | none ↦ refused bad_framing f
  | some tmp ↦ elim (http_parse_content_length tmp) [
    | none ↦ refused bad_framing f
    | some n ↦ walked (record f { content_length = n; saw_content_length = true })
  ]
]

unfoldable pub transfer_encoding_field : Framing → List ℕ → Walk
transfer_encoding_field f v = elim (copy_header_value v 32) [
  | none ↦ refused bad_encoding f
  | some tmp ↦
      if same_word tmp chunked_value
      then walked (record f { chunked = true })
      else refused bad_encoding f
]

unfoldable pub expect_field : Framing → List ℕ → Walk
expect_field f v = elim (copy_header_value v 32) [
  | none ↦ walked f
  | some tmp ↦
      if same_word tmp continue_value then walked (record f { expect_100 = true }) else walked f
]

-- The body of the loop.
unfoldable pub walk_line : Framing → List ℕ → Walk
walk_line f line = elim (split_colon (strip_cr line)) [
  | none ↦ walked f
  | some (name, v) ↦
      if same_word name content_length_name
      then content_length_field f v
      else (if same_word name transfer_encoding_name
          then transfer_encoding_field f v
          else (if same_word name expect_name then expect_field f v else walked f))
]

unfoldable pub walk_lines : Framing → List (List ℕ) → Walk
walk_lines f [] = walked f
walk_lines f (line ∷ rest) = elim (walk_line f line) [
  | refused r g ↦ refused r g
  | walked g ↦ walk_lines g rest
]

-- 1 with `*request_len`, 0, -1, -2 and -3.
pub data Verdict : Type 0 where
  received : ℕ → Verdict
  incomplete bad_request not_implemented too_large : Verdict

abbrev pub refusal_verdict : Refusal → Verdict
refusal_verdict bad_framing = bad_request
refusal_verdict bad_encoding = not_implemented

unfoldable pub chunked_verdict : ℕ → ℕ → Decoded → Verdict
chunked_verdict max_body header_len malformed = bad_request
chunked_verdict max_body header_len (partial decoded used) =
    if ltb max_body (length decoded) then too_large else incomplete
chunked_verdict max_body header_len (complete decoded used) =
    if ltb max_body (length decoded) then too_large else received (header_len + used)

-- What follows the walk, with `size_t` sums modulo 2^64.
unfoldable pub body_verdict : ℕ → ℕ → List ℕ → Framing → Verdict
body_verdict max_body header_len buf f = elim f.chunked [
  | true ↦
      if f.saw_content_length
      then bad_request
      else chunked_verdict max_body header_len (http_chunked_decode (drop header_len buf))
  | false ↦
      if ltb max_body f.content_length
      then too_large
      else (if ltb (length buf) ((header_len + f.content_length) % (size_max + 1))
          then incomplete
          else received ((header_len + f.content_length) % (size_max + 1)))
]

abbrev pub no_framing : Framing
no_framing = record {
  content_length = 0;
  saw_content_length = false;
  chunked = false;
  expect_100 = false;
}

unfoldable pub walk_verdict : ℕ → ℕ → List ℕ → Walk → Verdict × Bool
walk_verdict max_body header_len buf (refused r f) = (refusal_verdict r, f.expect_100)
walk_verdict max_body header_len buf (walked f) =
    (body_verdict max_body header_len buf f, f.expect_100)

-- The return value, with `*expect_100`.
unfoldable pub check_request_frame : List ℕ → ℕ → Verdict × Bool
check_request_frame buf max_body = elim (header_end buf 0) [
  | none ↦ (incomplete, false)
  | some (hdr_end, header_len) ↦
      if has_byte 0 (take header_len buf)
      then (bad_request, false)
      else walk_verdict max_body header_len buf (walk_lines no_framing (lines (take hdr_end buf)))
]

-- The buffer after a request of `len` bytes was taken from its front.
unfoldable pub conn_consume_read : List ℕ → ℕ → List ℕ
conn_consume_read buf len = drop len buf
