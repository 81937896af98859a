-- ===== src/Tests/Requests.antt =====
-- The parser of common/src/http_protocol.c and the framing of server/src/worker.c at short requests.
use codo.Prelude.{
  ℕ, ◌≤◌, ◌<◌, ◌≡◌, refl, true, false, none, some, List, [], ◌∷◌, ◌++◌, ◌⊎◌, arith, length, take,
}
use codo.Common.Http.{
  is_blank, skip_blanks, split_line, strip_cr, lower, same_word, split_colon, trim_end,
}
use codo.Common.Http.Fields.{content_length_name, transfer_encoding_name}
use codo.Common.Http.Chunked.{http_chunked_decode, size_end}
use codo.Common.Http.Chunked.Grammar.{Chunk, Ending, number, IsSize, body_text, payloads}
use codo.Common.Http.Chunked.Roundtrip.{Leaves, http_chunked_decode-body_text}
use codo.Common.Http.Numbers.{is_digit, digits_from, starts_digit, http_parse_content_length}
use codo.Common.Http.Range.{
  no_range, resolve_range, is_space, skip_spaces, signed_digits, strtoll_sign, strtoll, last_range,
  behind_minus, first_range, behind_prefix, has_comma, parse_range_spec, parse_range_header,
}
use codo.Common.Http.Range.Window.{parse_all, resolve_range-parsed}
use codo.Common.Http.Etag.{same_text}
use codo.Common.Http.Request.{
  Request, zero_request, string_to_http_method, word_from, scan_word, split_query,
  parse_request_line, strip_crlf, record_header, length_field, store_header_field,
}
use codo.Common.Http.Request.Message.{
  parsed, c_string, next_line, parse_request_body, end_of_headers, parse_fields, parse_http_request,
}
use codo.Server.Frame.{
  blank_line, header_end, has_byte, lines, copy_header_value, content_length_field, walk_line,
  walk_lines, received, bad_request, not_implemented, body_verdict, walk_verdict,
  check_request_frame, conn_consume_read,
}
use codo.Server.Frame.Limits.{Parts, HasBody, check_request_frame-limits}
use codo.Server.Frame.Extend.{check_request_frame-append}
use codo.Server.Frame.Smuggling.{field_is, has_field, check_request_frame-refuses_both}
use codo.Server.Frame.Agreement.Body.{IsBodyOf}
use codo.Server.Frame.Agreement.Request.{parse_http_request-IsBodyOf}
use codo.Server.Routes.{Method}

-- "A b HTTP/1.1", "Content-Length: 1", a blank line and the body "x".
abbrev request : List ℕ
request =
    b'A' ∷ b' ' ∷ b'b' ∷ b' ' ∷ b'H' ∷ b'T' ∷ b'T' ∷ b'P' ∷ b'/' ∷ b'1' ∷ b'.' ∷ b'1' ∷ 10 ∷ b'C'
    ∷ b'o' ∷ b'n' ∷ b't' ∷ b'e' ∷ b'n' ∷ b't' ∷ b'-' ∷ b'L' ∷ b'e' ∷ b'n' ∷ b'g' ∷ b't' ∷ b'h'
    ∷ b':' ∷ b' ' ∷ b'1' ∷ 10 ∷ 10 ∷ b'x' ∷ []

request-received : (check_request_frame request 8).0 ≡ received 33
unfolding check_request_frame header_end blank_line has_byte lines walk_lines walk_line split_colon
    strip_cr same_word lower content_length_field copy_header_value trim_end skip_blanks is_blank
    http_parse_content_length starts_digit is_digit digits_from walk_verdict body_verdict
request-received = refl

check_request_frame-limits_example :
    (p : Parts request 8 33) × ((33 ≤ length request) × HasBody 8 p.header_len request p.framing 33)
check_request_frame-limits_example =
    check_request_frame-limits request 8 33 (omega arith) request-received

check_request_frame-append_example :
    ((check_request_frame (request ++ (b'G' ∷ [])) 8).0 ≡ received 33)
    × ((take 33 (request ++ (b'G' ∷ [])) ≡ take 33 request)
        × (conn_consume_read (request ++ (b'G' ∷ [])) 33
            ≡ conn_consume_read request 33 ++ (b'G' ∷ [])))
check_request_frame-append_example =
    check_request_frame-append request (b'G' ∷ []) 8 33 request-received

-- What the parser makes of it.
abbrev the_request : Request
the_request = record zero_request {
  method = Method.unknown;
  uri = b'b' ∷ [];
  version = b'H' ∷ b'T' ∷ b'T' ∷ b'P' ∷ b'/' ∷ b'1' ∷ b'.' ∷ b'1' ∷ [];
  keep_alive = true;
  headers = (content_length_name, b'1' ∷ []) ∷ [];
  content_length = 1;
  saw_content_length = true;
  body = b'x' ∷ [];
}

request-parsed : parse_http_request (λ size. true) (λ text. none) request 33 ≡ parsed the_request
unfolding parse_http_request next_line c_string split_line strip_cr parse_request_line scan_word
    word_from skip_spaces is_space split_query string_to_http_method same_word lower same_text
    parse_fields split_colon skip_blanks is_blank store_header_field record_header strip_crlf
    length_field http_parse_content_length starts_digit is_digit digits_from end_of_headers
    parse_request_body
request-parsed = refl

-- "A b HTTP/1.1"
abbrev first_line : List ℕ
first_line = b'A' ∷ b' ' ∷ b'b' ∷ b' ' ∷ b'H' ∷ b'T' ∷ b'T' ∷ b'P' ∷ b'/' ∷ b'1' ∷ b'.' ∷ b'1' ∷ []

abbrev behind_first : List ℕ
behind_first =
    b'C' ∷ b'o' ∷ b'n' ∷ b't' ∷ b'e' ∷ b'n' ∷ b't' ∷ b'-' ∷ b'L' ∷ b'e' ∷ b'n' ∷ b'g' ∷ b't' ∷ b'h'
    ∷ b':' ∷ b' ' ∷ b'1' ∷ 10 ∷ 10 ∷ b'x' ∷ []

first_line-split : split_line request ≡ some (first_line, behind_first)
unfolding split_line
first_line-split = refl

no_length : field_is content_length_name first_line ≡ false
unfolding field_is split_colon strip_cr
no_length = refl

no_coding : field_is transfer_encoding_name first_line ≡ false
unfolding field_is split_colon strip_cr
no_coding = refl

parse_http_request-IsBodyOf_example :
    (p : Parts request 8 33) × (HasBody 8 p.header_len request p.framing 33
      × IsBodyOf request p.header_len 33 p.framing.chunked the_request)
parse_http_request-IsBodyOf_example =
    parse_http_request-IsBodyOf (λ size. true) (λ text. none) request first_line behind_first 8 33
      the_request (omega arith) request-received first_line-split no_length no_coding request-parsed

-- "A", "Content-Length: 1", "TRANSFER-encoding: chunked" and an empty chunked body.
abbrev both_framings : List ℕ
both_framings =
    b'A' ∷ 10 ∷ b'C' ∷ b'o' ∷ b'n' ∷ b't' ∷ b'e' ∷ b'n' ∷ b't' ∷ b'-' ∷ b'L' ∷ b'e' ∷ b'n' ∷ b'g'
    ∷ b't' ∷ b'h' ∷ b':' ∷ b' ' ∷ b'1' ∷ 10 ∷ b'T' ∷ b'R' ∷ b'A' ∷ b'N' ∷ b'S' ∷ b'F' ∷ b'E' ∷ b'R'
    ∷ b'-' ∷ b'e' ∷ b'n' ∷ b'c' ∷ b'o' ∷ b'd' ∷ b'i' ∷ b'n' ∷ b'g' ∷ b':' ∷ b' ' ∷ b'c' ∷ b'h'
    ∷ b'u' ∷ b'n' ∷ b'k' ∷ b'e' ∷ b'd' ∷ 10 ∷ 10 ∷ b'0' ∷ 10 ∷ 10 ∷ []

both-end : header_end both_framings 0 ≡ some (46, 48)
unfolding header_end blank_line
both-end = refl

both-length : has_field content_length_name (lines (take 46 both_framings)) ≡ true
unfolding has_field field_is split_colon strip_cr lines same_word lower
both-length = refl

both-coding : has_field transfer_encoding_name (lines (take 46 both_framings)) ≡ true
unfolding has_field field_is split_colon strip_cr lines same_word lower
both-coding = refl

check_request_frame-refuses_both_example :
    ((check_request_frame both_framings 8).0 ≡ bad_request)
    ⊎ ((check_request_frame both_framings 8).0 ≡ not_implemented)
check_request_frame-refuses_both_example =
    check_request_frame-refuses_both both_framings 8 46 48 both-end both-length both-coding

-- The chunk "hello, world", of size "0C", with the extension ";a", and a trailer line.
abbrev hi : Chunk
hi = record {
  size = (0, false) ∷ (12, true) ∷ [];
  extension = b';' ∷ b'a' ∷ [];
  payload = b'h' ∷ b'e' ∷ b'l' ∷ b'l' ∷ b'o' ∷ b',' ∷ b' ' ∷ b'w' ∷ b'o' ∷ b'r' ∷ b'l' ∷ b'd' ∷ [];
  bare_size = true;
  bare_data = false;
}

abbrev ending : Ending
ending = record {
  size = (0, false) ∷ (0, false) ∷ [];
  extension = [];
  bare_size = false;
  trailers = (b'T' ∷ [], true) ∷ [];
  bare_blank = false;
}

hi-number : number hi.size ≡ 12
unfolding number
hi-number = refl

hi-IsSize : IsSize hi.size
hi-IsSize = ((omega arith, (omega arith, tt)), (omega arith, omega (arith, hi-number)))

zeros-number : number ending.size ≡ 0
unfolding number
zeros-number = refl

zeros-IsSize : IsSize ending.size
zeros-IsSize = ((omega arith, (omega arith, tt)), (omega arith, omega (arith, zeros-number)))

padding : size_end (b';' ∷ b'a' ∷ []) ≡ true
unfolding size_end
padding = refl

no_padding : size_end [] ≡ true
unfolding size_end
no_padding = refl

http_chunked_decode-body_text_example :
    Leaves
      (payloads (hi ∷ []))
      (b'G' ∷ [])
      (length (body_text (hi ∷ []) ending (b'G' ∷ [])))
      (http_chunked_decode (body_text (hi ∷ []) ending (b'G' ∷ [])))
http_chunked_decode-body_text_example =
    http_chunked_decode-body_text (hi ∷ []) ending (b'G' ∷ [])
      (
        (
          (hi-IsSize, (hi-number, omega arith)),
          ((ground arith, (ground arith, (ground arith, (ground arith, tt)))), padding),
        ),
        tt,
      )
      (
        (zeros-IsSize, zeros-number),
        (tt, (no_padding, (omega arith, ((ground arith, (ground arith, tt)), tt)))),
      )

-- "bytes=2-9" of an entity of 5 bytes.
abbrev range_text : List ℕ
range_text = b'b' ∷ b'y' ∷ b't' ∷ b'e' ∷ b's' ∷ b'=' ∷ b'2' ∷ b'-' ∷ b'9' ∷ []

range-resolved : resolve_range (parse_all (range_text ∷ []) no_range) 5 ≡ some (2, 4)
unfolding resolve_range parse_all parse_range_header behind_prefix has_comma skip_blanks is_blank
    parse_range_spec behind_minus first_range last_range strtoll skip_spaces is_space strtoll_sign
    signed_digits starts_digit is_digit digits_from lower
range-resolved = refl

resolve_range-parsed_example : (2 ≤ 4) × (4 < 5)
resolve_range-parsed_example = resolve_range-parsed (range_text ∷ []) 5 2 4 range-resolved
