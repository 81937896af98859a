-- ===== src/Tests/Responses.antt =====
-- The responses of common/src/http_protocol.c at a short response.
use codo.Prelude.{◌≡◌, refl, true, false, Option, none, some, [], ◌∷◌, arith}
use codo.Todo.Index.{decimal}
use codo.Common.Connection.{Buffer, conn_reserve_write, grow_to, double_to}
use codo.Common.Http.Response.{
  Response, Around, header_field_has_crlf, put, line, first_lines, put_headers, put_length,
  put_connection, put_gzip, put_modified, put_etag, put_cors, build_response_headers,
  response_should_gzip, out_body, File, send_http_response,
}
use codo.Common.Http.Response.Splitting.{IsClean, header_field_has_crlf-IsClean}
use codo.Common.Http.Response.Staged.{IsStaged, send_http_response-IsStaged}
use codo.Server.Routes.{Method}

abbrev around : Around
around = record {
  now = b'n' ∷ [];
  http_date = λ t. b'd' ∷ [];
  reason = λ s. b'O' ∷ b'K' ∷ [];
  server_name = b'c' ∷ [];
}

-- The body "hi", and a field "X: y".
abbrev answer : Response
answer = record {
  status = 200;
  version = [];
  headers = (b'X' ∷ [], b'y' ∷ []) ∷ [];
  body = some (b'h' ∷ b'i' ∷ []);
  keep_alive = true;
  gzip_compressed = false;
  last_modified = 0;
  etag = [];
  cors_origin = b'*' ∷ [];
}

abbrev fresh_buffer : Buffer
fresh_buffer = record { allocated = false; cap = 0; used = [] }

IsClean-texts :
    IsClean (b'n' ∷ []) × (IsClean (b'd' ∷ []) × (IsClean (b'O' ∷ b'K' ∷ []) × IsClean (b'c' ∷ [])))
unfolding header_field_has_crlf
IsClean-texts = (
  header_field_has_crlf-IsClean (b'n' ∷ []) refl,
  (
    header_field_has_crlf-IsClean (b'd' ∷ []) refl,
    (
      header_field_has_crlf-IsClean (b'O' ∷ b'K' ∷ []) refl,
      header_field_has_crlf-IsClean (b'c' ∷ []) refl,
    ),
  ),
)

IsClean-version : IsClean []
IsClean-version = tt

abbrev staged_of : Option (Buffer × File) → Buffer × File
staged_of none = (fresh_buffer, none)
staged_of (some x) = x

abbrev sent : Option (Buffer × File)
sent =
    send_http_response around (λ size. true) (λ text. none) Method.get [] answer none fresh_buffer

answer-sent : sent ≡ some ((staged_of sent).0, (staged_of sent).1)
unfolding send_http_response out_body response_should_gzip build_response_headers first_lines put
    line decimal put_length put_connection put_gzip put_modified put_etag put_headers put_cors
    header_field_has_crlf conn_reserve_write grow_to double_to
answer-sent = refl

send_http_response-IsStaged_example :
    IsStaged Method.get answer none (staged_of sent).0 (staged_of sent).1
send_http_response-IsStaged_example =
    send_http_response-IsStaged around (λ size. true) (λ text. none) Method.get [] answer none
      (staged_of sent).1 fresh_buffer (staged_of sent).0
      (IsClean-texts.0, (λ t. IsClean-texts.1.0, (λ s. IsClean-texts.1.1.0, IsClean-texts.1.1.1)))
      IsClean-version (omega arith, omega arith) answer-sent
