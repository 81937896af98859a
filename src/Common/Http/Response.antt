-- ===== src/Common/Http/Response.antt =====
-- The responses of common/src/http_protocol.c: the header block, and what is put into the write
-- buffer. Dates, the reason phrase of a status, the server's name and the compressor are arguments.
pub mod Texts
pub mod Splitting
pub mod Helpers
pub mod Parts
pub mod Staged
use codo.Prelude.{
  ℕ, zero, suc, ◌+◌, ◌-◌, Bool, true, false, ◌&&◌, ◌||◌, not, Option, none, some, List, [], ◌∷◌,
  ◌++◌, ltb, leb, ◌==◌, if◌then◌else◌, length,
}
use codo.Todo.Index.{decimal}
use codo.Common.Connection.{Buffer, conn_reserve_write}
use codo.Common.Http.{cr, lf, same_word}
use codo.Common.Http.Chunked.{is_empty}
use codo.Common.Http.Etag.{is_star}
use codo.Common.Http.Fields.{http_1_1}
use codo.Common.Http.Request.{has_word, starts_word}
use codo.Server.Routes.{Method, same_method}
use codo.Common.Http.Response.Texts.{
  server_label, date_label, length_label, connection_label, keep_alive_text, close_text, gzip_field,
  vary_encoding, modified_label, etag_label, weak_prefix, cors_label, vary_origin,
  accept_encoding_name, content_type_name, gzip_word, text_prefix, json_word, javascript_word,
  xml_word, svg_word,
}

-- `http_response_t`; the body is `none` for a null pointer.
pub record Response : Type 0 where
  pub status : ℕ
  pub version : List ℕ
  pub headers : List (List ℕ × List ℕ)
  pub body : Option (List ℕ)
  pub keep_alive : Bool
  pub gzip_compressed : Bool
  pub last_modified : ℕ
  pub etag : List ℕ
  pub cors_origin : List ℕ

-- What the header block takes from elsewhere: the date of now, the text of a date, the reason
-- phrase of a status, and the name of the server.
pub record Around : Type 0 where
  pub now : List ℕ
  pub http_date : ℕ → List ℕ
  pub reason : ℕ → List ℕ
  pub server_name : List ℕ

abbrev pub max_headers_size : ℕ
max_headers_size = 8192

unfoldable pub header_field_has_crlf : List ℕ → Bool
header_field_has_crlf [] = false
header_field_has_crlf (c ∷ p) = (c == cr || c == lf) || header_field_has_crlf p

-- `buf_appendf` of a text to what the buffer of `size` bytes holds; `none` is -1, also before.
unfoldable pub put : ℕ → Option (List ℕ) → List ℕ → Option (List ℕ)
put size none text = none
put size (some off) text =
    if leb size (length off)
    then none
    else (if leb (size - length off) (length text) then none else some (off ++ text))

-- A line with its end.
unfoldable pub line : List ℕ → List ℕ
line text = text ++ (cr ∷ lf ∷ [])

-- The status line and the two fields that every response has.
unfoldable pub first_lines : Around → Response → List ℕ
first_lines e r =
    line (
      (if is_empty r.version then http_1_1 else r.version)
      ++ (32 ∷ (decimal 20 r.status ++ (32 ∷ e.reason r.status))))
    ++ (line (server_label ++ e.server_name) ++ line (date_label ++ e.now))

unfoldable pub put_headers : ℕ → Option (List ℕ) → List (List ℕ × List ℕ) → Option (List ℕ)
put_headers size off [] = off
put_headers size off ((name, v) ∷ headers) =
    elim (header_field_has_crlf name || header_field_has_crlf v) [
      | true ↦ none
      | false ↦ put_headers size (put size off (line (name ++ (b':' ∷ 32 ∷ v)))) headers
    ]

unfoldable pub put_length : ℕ → Option (List ℕ) → Bool → ℕ → Option (List ℕ)
put_length size off no_body content_length =
    if no_body then off else put size off (line (length_label ++ decimal 20 content_length))

unfoldable pub put_connection : ℕ → Option (List ℕ) → Bool → Option (List ℕ)
put_connection size off keep_alive =
    put size off (line (connection_label ++ (if keep_alive then keep_alive_text else close_text)))

unfoldable pub put_gzip : ℕ → Option (List ℕ) → Bool → Option (List ℕ)
put_gzip size off gzipped =
    if gzipped then put size off (line gzip_field ++ line vary_encoding) else off

unfoldable pub put_modified : Around → ℕ → Option (List ℕ) → ℕ → Option (List ℕ)
put_modified e size off last_modified =
    if last_modified == 0
    then off
    else put size off (line (modified_label ++ e.http_date last_modified))

unfoldable pub put_etag : ℕ → Option (List ℕ) → Bool → List ℕ → Option (List ℕ)
put_etag size off gzipped etag =
    if is_empty etag || header_field_has_crlf etag
    then off
    else put size off (line (etag_label ++ ((if gzipped then weak_prefix else []) ++ etag)))

unfoldable pub put_cors : ℕ → Option (List ℕ) → List ℕ → Option (List ℕ)
put_cors size off origin =
    if is_empty origin
    then off
    else (if header_field_has_crlf origin
        then none
        else (if is_star origin
            then put size off (line (cors_label ++ origin))
            else put size off (line (cors_label ++ origin) ++ line vary_origin)))

unfoldable pub build_response_headers : Around → Response → Bool → ℕ → Bool → ℕ → Option (List ℕ)
build_response_headers e r gzipped content_length no_body size =
    let off = put size (some []) (first_lines e r) in
    let off = put_length size off no_body content_length in
    let off = put_connection size off r.keep_alive in
    let off = put_gzip size off gzipped in
    let off = put_modified e size off r.last_modified in
    let off = put_etag size off gzipped r.etag in
    let off = put_headers size off r.headers in
    let off = put_cors size off r.cors_origin in put size off (cr ∷ lf ∷ [])

-- The value of the first header of a name.
unfoldable pub header_value : List ℕ → List (List ℕ × List ℕ) → Option (List ℕ)
header_value name [] = none
header_value name ((given, v) ∷ headers) = elim (same_word given name) [
  | true ↦ some v
  | false ↦ header_value name headers
]

unfoldable pub client_accepts_gzip : List (List ℕ × List ℕ) → Bool
client_accepts_gzip headers = elim (header_value accept_encoding_name headers) [
  | none ↦ false
  | some v ↦ has_word v gzip_word
]

unfoldable pub mime_type_compressible : List ℕ → Bool
mime_type_compressible v =
    starts_word v text_prefix
    || (has_word v json_word
        || (has_word v javascript_word || (has_word v xml_word || has_word v svg_word)))

unfoldable pub content_type_compressible : Response → Bool
content_type_compressible r = elim (header_value content_type_name r.headers) [
  | none ↦ false
  | some v ↦ mime_type_compressible v
]

-- GZIP_MIN_SIZE is 256.
unfoldable pub response_should_gzip : List (List ℕ × List ℕ) → Response → Bool
response_should_gzip request_headers r = if r.gzip_compressed then false else (elim r.body [
  | none ↦ false
  | some body ↦
      not (ltb (length body) 256)
      && (content_type_compressible r && client_accepts_gzip request_headers)
])

abbrev pub body_bytes : Option (List ℕ) → List ℕ
body_bytes none = []
body_bytes (some body) = body

-- The body to send and whether it is compressed: a compressed copy only if it is shorter.
unfoldable pub out_body :
    (List ℕ → Option (List ℕ)) → List (List ℕ × List ℕ) → Response → Bool → List ℕ × Bool
out_body compress request_headers r streaming =
    if not streaming && response_should_gzip request_headers r
    then (elim (compress (body_bytes r.body)) [
      | none ↦ (body_bytes r.body, false)
      | some packed ↦
          if ltb (length packed) (length (body_bytes r.body))
          then (packed, true)
          else (body_bytes r.body, false)
    ])
    else (body_bytes r.body, false)

-- A queued file: its size and the offset from which it is sent.
abbrev pub File : Type 0
File = Option (ℕ × ℕ)

abbrev pub is_streaming : File → Bool
is_streaming none = false
is_streaming (some f) = true

abbrev pub content_length_of : File → List ℕ → ℕ
content_length_of none out = length out
content_length_of (some (size, offset)) out = size - offset

-- The write buffer and the queued file after a response was staged; `none` is -1.
unfoldable pub send_http_response :
    Around
    → (ℕ → Bool)
    → (List ℕ → Option (List ℕ))
    → Method
    → List (List ℕ × List ℕ)
    → Response
    → File
    → Buffer
    → Option (Buffer × File)
send_http_response e grants compress method request_headers r file w =
    let streaming = is_streaming file in
    let (out, gzipped) = out_body compress request_headers r streaming in
    let no_body = r.status == 304 in
    let head = same_method method Method.head in
    elim (build_response_headers e r gzipped (content_length_of file out) no_body
      max_headers_size) [
        | none ↦ none
        | some header ↦
            let body = if streaming || (no_body || head) then [] else out in
            let reserved = conn_reserve_write grants w (length header + length body) in
            if reserved.0
            then some (record (reserved.1) { used = header ++ body }, if head then none else file)
            else none
      ]
