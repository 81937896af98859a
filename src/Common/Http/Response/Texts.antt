-- ===== src/Common/Http/Response/Texts.antt =====
-- The texts that the responses of common/src/http_protocol.c are made of.
use codo.Prelude.{ℕ, List, [], ◌∷◌}

abbrev pub server_label : List ℕ
server_label = b'S' ∷ b'e' ∷ b'r' ∷ b'v' ∷ b'e' ∷ b'r' ∷ b':' ∷ 32 ∷ []

abbrev pub date_label : List ℕ
date_label = b'D' ∷ b'a' ∷ b't' ∷ b'e' ∷ b':' ∷ 32 ∷ []

abbrev pub length_label : List ℕ
length_label =
    b'C' ∷ b'o' ∷ b'n' ∷ b't' ∷ b'e' ∷ b'n' ∷ b't' ∷ b'-' ∷ b'L' ∷ b'e' ∷ b'n' ∷ b'g' ∷ b't' ∷ b'h'
    ∷ b':' ∷ 32 ∷ []

abbrev pub connection_label : List ℕ
connection_label =
    b'C' ∷ b'o' ∷ b'n' ∷ b'n' ∷ b'e' ∷ b'c' ∷ b't' ∷ b'i' ∷ b'o' ∷ b'n' ∷ b':' ∷ 32 ∷ []

abbrev pub keep_alive_text : List ℕ
keep_alive_text = b'k' ∷ b'e' ∷ b'e' ∷ b'p' ∷ b'-' ∷ b'a' ∷ b'l' ∷ b'i' ∷ b'v' ∷ b'e' ∷ []

abbrev pub close_text : List ℕ
close_text = b'c' ∷ b'l' ∷ b'o' ∷ b's' ∷ b'e' ∷ []

abbrev pub gzip_field : List ℕ
gzip_field =
    b'C' ∷ b'o' ∷ b'n' ∷ b't' ∷ b'e' ∷ b'n' ∷ b't' ∷ b'-' ∷ b'E' ∷ b'n' ∷ b'c' ∷ b'o' ∷ b'd' ∷ b'i'
    ∷ b'n' ∷ b'g' ∷ b':' ∷ 32 ∷ b'g' ∷ b'z' ∷ b'i' ∷ b'p' ∷ []

abbrev pub vary_encoding : List ℕ
vary_encoding =
    b'V' ∷ b'a' ∷ b'r' ∷ b'y' ∷ b':' ∷ 32 ∷ b'A' ∷ b'c' ∷ b'c' ∷ b'e' ∷ b'p' ∷ b't' ∷ b'-' ∷ b'E'
    ∷ b'n' ∷ b'c' ∷ b'o' ∷ b'd' ∷ b'i' ∷ b'n' ∷ b'g' ∷ []

abbrev pub modified_label : List ℕ
modified_label =
    b'L' ∷ b'a' ∷ b's' ∷ b't' ∷ b'-' ∷ b'M' ∷ b'o' ∷ b'd' ∷ b'i' ∷ b'f' ∷ b'i' ∷ b'e' ∷ b'd' ∷ b':'
    ∷ 32 ∷ []

abbrev pub etag_label : List ℕ
etag_label = b'E' ∷ b'T' ∷ b'a' ∷ b'g' ∷ b':' ∷ 32 ∷ []

abbrev pub weak_prefix : List ℕ
weak_prefix = b'W' ∷ b'/' ∷ []

abbrev pub cors_label : List ℕ
cors_label =
    b'A' ∷ b'c' ∷ b'c' ∷ b'e' ∷ b's' ∷ b's' ∷ b'-' ∷ b'C' ∷ b'o' ∷ b'n' ∷ b't' ∷ b'r' ∷ b'o' ∷ b'l'
    ∷ b'-' ∷ b'A' ∷ b'l' ∷ b'l' ∷ b'o' ∷ b'w' ∷ b'-' ∷ b'O' ∷ b'r' ∷ b'i' ∷ b'g' ∷ b'i' ∷ b'n'
    ∷ b':' ∷ 32 ∷ []

abbrev pub vary_origin : List ℕ
vary_origin = b'V' ∷ b'a' ∷ b'r' ∷ b'y' ∷ b':' ∷ 32 ∷ b'O' ∷ b'r' ∷ b'i' ∷ b'g' ∷ b'i' ∷ b'n' ∷ []

abbrev pub accept_encoding_name : List ℕ
accept_encoding_name =
    b'A' ∷ b'c' ∷ b'c' ∷ b'e' ∷ b'p' ∷ b't' ∷ b'-' ∷ b'E' ∷ b'n' ∷ b'c' ∷ b'o' ∷ b'd' ∷ b'i' ∷ b'n'
    ∷ b'g' ∷ []

abbrev pub content_type_name : List ℕ
content_type_name =
    b'C' ∷ b'o' ∷ b'n' ∷ b't' ∷ b'e' ∷ b'n' ∷ b't' ∷ b'-' ∷ b'T' ∷ b'y' ∷ b'p' ∷ b'e' ∷ []

abbrev pub gzip_word : List ℕ
gzip_word = b'g' ∷ b'z' ∷ b'i' ∷ b'p' ∷ []

abbrev pub text_prefix : List ℕ
text_prefix = b't' ∷ b'e' ∷ b'x' ∷ b't' ∷ b'/' ∷ []

abbrev pub json_word : List ℕ
json_word = b'j' ∷ b's' ∷ b'o' ∷ b'n' ∷ []

abbrev pub javascript_word : List ℕ
javascript_word = b'j' ∷ b'a' ∷ b'v' ∷ b'a' ∷ b's' ∷ b'c' ∷ b'r' ∷ b'i' ∷ b'p' ∷ b't' ∷ []

abbrev pub xml_word : List ℕ
xml_word = b'x' ∷ b'm' ∷ b'l' ∷ []

abbrev pub svg_word : List ℕ
svg_word = b's' ∷ b'v' ∷ b'g' ∷ []
