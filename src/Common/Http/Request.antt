-- ===== src/Common/Http/Request.antt =====
-- The request parser of common/src/http_protocol.c: the request line and the header fields. What
-- `parse_http_date` makes of a text is an argument.
pub mod Message
use codo.Prelude.{
  ℕ, zero, suc, ◌+◌, ◌-◌, Bool, true, false, ◌&&◌, ◌||◌, not, Option, none, some, List, [], ◌∷◌,
  ◌++◌, ltb, leb, ◌==◌, if◌then◌else◌, length, take,
}
use codo.Common.Http.{cr, lf, same_word, trim_end, lower}
use codo.Common.Http.Chunked.{is_empty}
use codo.Common.Http.Numbers.{http_parse_content_length}
use codo.Common.Http.Range.{is_space, skip_spaces, Range, no_range, parse_range_header}
use codo.Common.Http.Etag.{same_text}
use codo.Common.Http.Fields.{
  content_length_name, transfer_encoding_name, expect_name, connection_name, if_none_match_name,
  if_modified_since_name, if_range_name, range_name, upgrade_name, websocket_key_name,
  websocket_protocol_name, chunked_value, continue_value, close_value, keep_alive_value,
  upgrade_value, websocket_value, http_1_1,
}
use codo.Server.Routes.{Method}

-- MAX_HEADERS
abbrev pub max_headers : ℕ
max_headers = 64

-- `http_request_t`, with `saw_content_length` of the parser.
pub record Request : Type 0 where
  pub method : Method
  pub uri : List ℕ
  pub version : List ℕ
  pub query_string : List ℕ
  pub headers : List (List ℕ × List ℕ)
  pub content_length : ℕ
  pub saw_content_length : Bool
  pub chunked : Bool
  pub if_none_match : List ℕ
  pub if_range : List ℕ
  pub if_modified_since : ℕ
  pub range : Range
  pub keep_alive : Bool
  pub expect_continue : Bool
  pub is_websocket_upgrade : Bool
  pub websocket_key : List ℕ
  pub websocket_protocol : List ℕ
  pub body : List ℕ

-- After the `memset`.
abbrev pub zero_request : Request
zero_request = record {
  method = Method.get;
  uri = [];
  version = [];
  query_string = [];
  headers = [];
  content_length = 0;
  saw_content_length = false;
  chunked = false;
  if_none_match = [];
  if_range = [];
  if_modified_since = 0;
  range = no_range;
  keep_alive = false;
  expect_continue = false;
  is_websocket_upgrade = false;
  websocket_key = [];
  websocket_protocol = [];
  body = [];
}

unfoldable pub string_to_http_method : List ℕ → Method
string_to_http_method method =
    if same_word method (b'G' ∷ b'E' ∷ b'T' ∷ [])
    then Method.get
    else (if same_word method (b'P' ∷ b'O' ∷ b'S' ∷ b'T' ∷ [])
        then Method.post
        else (if same_word method (b'P' ∷ b'U' ∷ b'T' ∷ [])
            then Method.put
            else (if same_word method (b'D' ∷ b'E' ∷ b'L' ∷ b'E' ∷ b'T' ∷ b'E' ∷ [])
                then Method.delete
                else (if same_word method (b'H' ∷ b'E' ∷ b'A' ∷ b'D' ∷ [])
                    then Method.head
                    else (if same_word method (b'O' ∷ b'P' ∷ b'T' ∷ b'I' ∷ b'O' ∷ b'N' ∷ b'S' ∷ [])
                        then Method.options
                        else (if same_word method (b'P' ∷ b'A' ∷ b'T' ∷ b'C' ∷ b'H' ∷ [])
                            then Method.patch
                            else (if same_word method
                                  (b'C' ∷ b'O' ∷ b'N' ∷ b'N' ∷ b'E' ∷ b'C' ∷ b'T' ∷ [])
                                then Method.connect
                                else (if same_word method (b'T' ∷ b'R' ∷ b'A' ∷ b'C' ∷ b'E' ∷ [])
                                    then Method.trace
                                    else Method.unknown))))))))

-- `%<n>s`: the spaces before a word are skipped, and a word has `n` bytes at most.
unfoldable pub word_from : ℕ → List ℕ → List ℕ × List ℕ
word_from zero p = ([], p)
word_from (suc n) [] = ([], [])
word_from (suc n) (c ∷ p) = elim (is_space c) [
  | true ↦ ([], c ∷ p)
  | false ↦ (c ∷ (word_from n p).0, (word_from n p).1)
]

unfoldable pub scan_word : ℕ → List ℕ → Option (List ℕ × List ℕ)
scan_word n p =
    let (word, rest) = word_from n (skip_spaces p) in
    if is_empty word then none else some (word, rest)

-- `snprintf` of a text into a buffer of `n` bytes.
abbrev pub cut : ℕ → List ℕ → List ℕ
cut n text = take (n - 1) text

-- `strchr(uri, '?')`: what stands before and behind it.
unfoldable pub split_query : List ℕ → List ℕ × List ℕ
split_query [] = ([], [])
split_query (c ∷ p) = elim (c == b'?') [
  | true ↦ ([], p)
  | false ↦ (c ∷ (split_query p).0, (split_query p).1)
]

unfoldable pub parse_request_line : List ℕ → Request → Option Request
parse_request_line line r = elim (scan_word 15 line) [
  | none ↦ none
  | some (method, line) ↦ elim (scan_word 2047 line) [
    | none ↦ none
    | some (uri, line) ↦ elim (scan_word 15 line) [
      | none ↦ none
      | some (version, line) ↦ some (record r {
        method = string_to_http_method method;
        uri = (split_query uri).0;
        version = version;
        query_string = cut 2048 (split_query uri).1;
        keep_alive = same_text version http_1_1;
      })
    ]
  ]
]

-- `strip_crlf_inplace`
unfoldable pub strip_crlf : List ℕ → List ℕ
strip_crlf [] = []
strip_crlf (c ∷ p) = elim (c == cr || c == lf) [ true ↦ strip_crlf p | false ↦ c ∷ strip_crlf p ]

unfoldable pub starts_word : List ℕ → List ℕ → Bool
starts_word text [] = true
starts_word [] (c ∷ word) = false
starts_word (d ∷ text) (c ∷ word) = lower d == lower c && starts_word text word

-- `strcasestr(text, word) != NULL`
unfoldable pub has_word : List ℕ → List ℕ → Bool
has_word [] word = is_empty word
has_word (c ∷ text) word = starts_word (c ∷ text) word || has_word text word

unfoldable pub record_header : Request → List ℕ → List ℕ → Request
record_header r name v =
    if ltb (length r.headers) max_headers
    then record r {
      headers = r.headers ++ ((strip_crlf (cut 256 name), strip_crlf (cut 2048 v)) ∷ []);
    }
    else r

unfoldable pub connection_field : Request → List ℕ → Request
connection_field r v =
    if has_word v close_value
    then record r { keep_alive = false }
    else (if has_word v keep_alive_value || has_word v upgrade_value
        then record r { keep_alive = true }
        else r)

-- The fields that frame no body.
unfoldable pub other_field : (List ℕ → Option ℕ) → Request → List ℕ → List ℕ → Request
other_field parse_http_date r name v =
    if same_word name if_none_match_name
    then record r { if_none_match = cut 512 v }
    else (if same_word name if_modified_since_name
        then record r { if_modified_since = elim (parse_http_date v) [ none ↦ 0 | some t ↦ t ] }
        else (if same_word name if_range_name
            then record r { if_range = cut 128 v }
            else (if same_word name range_name
                then record r { range = parse_range_header v r.range }
                else (if same_word name expect_name
                    then record r { expect_continue = same_word v continue_value }
                    else (if same_word name upgrade_name
                        then record r { is_websocket_upgrade = same_word v websocket_value }
                        else (if same_word name websocket_key_name
                            then record r { websocket_key = cut 64 v }
                            else (if same_word name websocket_protocol_name
                                then record r { websocket_protocol = cut 256 v }
                                else r)))))))

-- The value of a Content-Length or Transfer-Encoding field; `none` is -1.
unfoldable pub length_field : Request → List ℕ → Option Request
length_field r v = elim (http_parse_content_length v) [
  | none ↦ none
  | some n ↦ some (record r { content_length = n; saw_content_length = true })
]

unfoldable pub coding_field : Request → List ℕ → Option Request
coding_field r v =
    if same_word (trim_end v) chunked_value then some (record r { chunked = true }) else none

unfoldable pub store_header_field : (List ℕ → Option ℕ) → Request → List ℕ → List ℕ → Option Request
store_header_field parse_http_date request name v =
    let r = record_header request name v in
    if same_word name connection_name
    then some (connection_field r v)
    else (if same_word name content_length_name
        then length_field r v
        else (if same_word name transfer_encoding_name
            then coding_field r v
            else some (other_field parse_http_date r name v)))
