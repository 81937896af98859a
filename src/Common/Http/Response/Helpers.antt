-- ===== src/Common/Http/Response/Helpers.antt =====
-- The helpers of common/src/http_protocol.c that build a response and send it. Each gives the
-- response that it leaves and what was sent.
use codo.Prelude.{
  ℕ, ◌+◌, Bool, false, Option, none, some, List, [], ◌∷◌, ◌++◌, ◌==◌, if◌then◌else◌, length,
}
use codo.Todo.Index.{decimal}
use codo.Common.Connection.{Buffer}
use codo.Common.Http.Fields.{http_1_1}
use codo.Common.Http.Request.{cut}
use codo.Common.Http.Response.Texts.{content_type_name}
use codo.Common.Http.Response.{Response, Around, File, send_http_response}
use codo.Server.Routes.{Method}

abbrev pub html_title : List ℕ
html_title =
    b'<' ∷ b'h' ∷ b't' ∷ b'm' ∷ b'l' ∷ b'>' ∷ b'<' ∷ b'h' ∷ b'e' ∷ b'a' ∷ b'd' ∷ b'>' ∷ b'<' ∷ b't'
    ∷ b'i' ∷ b't' ∷ b'l' ∷ b'e' ∷ b'>' ∷ []

abbrev pub html_body : List ℕ
html_body =
    b'<' ∷ b'/' ∷ b't' ∷ b'i' ∷ b't' ∷ b'l' ∷ b'e' ∷ b'>' ∷ b'<' ∷ b'/' ∷ b'h' ∷ b'e' ∷ b'a' ∷ b'd'
    ∷ b'>' ∷ b'<' ∷ b'b' ∷ b'o' ∷ b'd' ∷ b'y' ∷ b'>' ∷ b'<' ∷ b'h' ∷ b'1' ∷ b'>' ∷ []

abbrev pub html_message : List ℕ
html_message = b'<' ∷ b'/' ∷ b'h' ∷ b'1' ∷ b'>' ∷ b'<' ∷ b'p' ∷ b'>' ∷ []

abbrev pub html_end : List ℕ
html_end =
    b'<' ∷ b'/' ∷ b'p' ∷ b'>' ∷ b'<' ∷ b'/' ∷ b'b' ∷ b'o' ∷ b'd' ∷ b'y' ∷ b'>' ∷ b'<' ∷ b'/' ∷ b'h'
    ∷ b't' ∷ b'm' ∷ b'l' ∷ b'>' ∷ []

abbrev pub html_type : List ℕ
html_type = b't' ∷ b'e' ∷ b'x' ∷ b't' ∷ b'/' ∷ b'h' ∷ b't' ∷ b'm' ∷ b'l' ∷ []

abbrev pub json_type : List ℕ
json_type =
    b'a' ∷ b'p' ∷ b'p' ∷ b'l' ∷ b'i' ∷ b'c' ∷ b'a' ∷ b't' ∷ b'i' ∷ b'o' ∷ b'n' ∷ b'/' ∷ b'j' ∷ b's'
    ∷ b'o' ∷ b'n' ∷ []

abbrev pub error_open : List ℕ
error_open = b'{' ∷ 34 ∷ b'e' ∷ b'r' ∷ b'r' ∷ b'o' ∷ b'r' ∷ 34 ∷ b':' ∷ 34 ∷ []

abbrev pub error_close : List ℕ
error_close = 34 ∷ b'}' ∷ []

abbrev pub oom_message : List ℕ
oom_message =
    b'O' ∷ b'u' ∷ b't' ∷ 32 ∷ b'o' ∷ b'f' ∷ 32 ∷ b'm' ∷ b'e' ∷ b'm' ∷ b'o' ∷ b'r' ∷ b'y' ∷ []

abbrev pub challenge_name : List ℕ
challenge_name =
    b'W' ∷ b'W' ∷ b'W' ∷ b'-' ∷ b'A' ∷ b'u' ∷ b't' ∷ b'h' ∷ b'e' ∷ b'n' ∷ b't' ∷ b'i' ∷ b'c' ∷ b'a'
    ∷ b't' ∷ b'e' ∷ []

abbrev pub challenge : List ℕ
challenge =
    b'B' ∷ b'e' ∷ b'a' ∷ b'r' ∷ b'e' ∷ b'r' ∷ 32 ∷ b'r' ∷ b'e' ∷ b'a' ∷ b'l' ∷ b'm' ∷ b'=' ∷ 34
    ∷ b'c' ∷ b'o' ∷ b'd' ∷ b'o' ∷ 34 ∷ b',' ∷ 32 ∷ b'c' ∷ b'h' ∷ b'a' ∷ b'r' ∷ b's' ∷ b'e' ∷ b't'
    ∷ b'=' ∷ 34 ∷ b'U' ∷ b'T' ∷ b'F' ∷ b'-' ∷ b'8' ∷ 34 ∷ []

-- `response_set_header`: the slot's buffers cut a name and a value.
unfoldable pub response_set_header : List ℕ → List ℕ → List ℕ × List ℕ
response_set_header name v = (cut 256 name, cut 2048 v)

unfoldable pub response_clear_body : Response → Response
response_clear_body r = record r { body = none }

-- `strdup`
unfoldable pub duplicate : (ℕ → Bool) → List ℕ → Option (List ℕ)
duplicate grants text = if grants (length text + 1) then some text else none

unfoldable pub error_page : Around → ℕ → List ℕ → List ℕ
error_page e status message =
    let title = decimal 20 status ++ (32 ∷ e.reason status) in
    cut 1024
      (html_title ++ (title ++ (html_body ++ (title ++ (html_message ++ (message ++ html_end))))))

-- The response that `send_error_response` sends.
unfoldable pub error_response : Around → (ℕ → Bool) → Response → ℕ → List ℕ → Response
error_response e grants r status message = record (response_clear_body r) {
  status = status;
  version = http_1_1;
  body = duplicate grants (error_page e status message);
  keep_alive = false;
  etag = [];
  last_modified = 0;
  headers = response_set_header content_type_name html_type ∷ [];
}

-- The connection around a response: the method and the headers of the request, whether it wants the
-- connection kept, the queued file and the write buffer.
pub record Exchange : Type 0 where
  pub method : Method
  pub request_headers : List (List ℕ × List ℕ)
  pub keep_alive : Bool
  pub file : File
  pub write : Buffer

unfoldable pub send_on :
    Around
    → (ℕ → Bool)
    → (List ℕ → Option (List ℕ))
    → Exchange
    → Response
    → Response × Option (Buffer × File)
send_on e grants compress x r =
    (r, send_http_response e grants compress x.method x.request_headers r x.file x.write)

unfoldable pub send_error_response :
    Around
    → (ℕ → Bool)
    → (List ℕ → Option (List ℕ))
    → Exchange
    → Response
    → ℕ
    → List ℕ
    → Response × Option (Buffer × File)
send_error_response e grants compress x r status message =
    send_on e grants compress x (error_response e grants r status message)

unfoldable pub send_body_response :
    Around
    → (ℕ → Bool)
    → (List ℕ → Option (List ℕ))
    → Exchange
    → Response
    → ℕ
    → List ℕ
    → List ℕ
    → Response × Option (Buffer × File)
send_body_response e grants compress x r status content_type body =
    if grants (length body + 1)
    then send_on e grants compress x (record (response_clear_body r) {
      status = status;
      version = http_1_1;
      body = some body;
      keep_alive = x.keep_alive;
      headers = response_set_header content_type_name content_type ∷ [];
    })
    else send_error_response e grants compress x r 500 oom_message

unfoldable pub send_json_response :
    Around
    → (ℕ → Bool)
    → (List ℕ → Option (List ℕ))
    → Exchange
    → Response
    → ℕ
    → List ℕ
    → Response × Option (Buffer × File)
send_json_response e grants compress x r status json =
    send_body_response e grants compress x r status json_type json

unfoldable pub send_error_json :
    Around
    → (ℕ → Bool)
    → (List ℕ → Option (List ℕ))
    → Exchange
    → Response
    → ℕ
    → List ℕ
    → Response × Option (Buffer × File)
send_error_json e grants compress x r status message =
    send_on e grants compress x (record (response_clear_body r) {
      status = status;
      version = http_1_1;
      body = duplicate grants (cut 192 (error_open ++ (message ++ error_close)));
      keep_alive = x.keep_alive;
      headers =
          response_set_header content_type_name json_type
          ∷ (if status == 401 then response_set_header challenge_name challenge ∷ [] else []);
    })
