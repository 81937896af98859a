-- ===== src/Common/Json/Strings.antt =====
-- What `json_escape` writes into a string of a body, `json_get_string` of common/src/json_util.c
-- reads back.
use mathlib.Core.List.{append_assoc}
use codo.Prelude.{
  ℕ, zero, suc, ◌+◌, ◌≤◌, ◌<◌, ◌≡◌, ◌∙◌, ap, sym, ◌&&◌, ◌||◌, not, some, List, [], ◌∷◌, ◌++◌, map,
  append_nil, arith, length, length-append, ltb, ◌==◌, if◌then◌else◌,
}
use codo.Common.Json.Bodies.{Plain, Before, IsBefore, body_before, json_find_field-body_before}
use codo.Common.Json.{
  escaped, escape_from, json_escape, json_find_field, unescaped, read_byte, read_from, read_value,
  read_at, json_get_string,
}

-- The escapes of all bytes, one behind the other.
unfoldable pub escape_all : List ℕ → List ℕ
escape_all [] = []
escape_all (c ∷ src) = escaped c ++ escape_all src

-- A control character that has only a `\u` escape is read back as '?'.
abbrev pub read_back : ℕ → ℕ
read_back c = if ltb c 32 && not (c == 10 || c == 13 || c == 9) then 63 else c

escape_from-escape_all :
    (dst_size : ℕ) (src dst e : List ℕ)
    → escape_from dst_size dst src ≡ some e
    → e ≡ dst ++ escape_all src
unfolding escape_from escape_all
escape_from-escape_all dst_size [] dst e h =
    let same : some dst ≡ some e = ground arith in ground (arith, append_nil dst)
escape_from-escape_all dst_size (c ∷ src) dst e h =
    let rest : escape_from dst_size (dst ++ escaped c) src ≡ some e = ground arith in
    escape_from-escape_all dst_size src (dst ++ escaped c) e rest
    ∙ append_assoc dst (escaped c) (escape_all src)

read_from-escaped :
    (c n out_size : ℕ) (out q : List ℕ)
    → length out + 1 < out_size
    → read_from (suc n) out_size out (escaped c ++ q)
      ≡ read_from n out_size (out ++ (read_back c ∷ [])) q
unfolding read_from escaped read_byte unescaped
read_from-escaped c n out_size out q room = ground arith

read_from-escape_all :
    (src : List ℕ) (n out_size : ℕ) (out rest : List ℕ)
    → length src < n
    → length out + length src < out_size
    → read_from n out_size out (escape_all src ++ (34 ∷ rest)) ≡ some (out ++ map read_back src)
unfolding read_from escape_all
read_from-escape_all [] zero out_size out rest h room = absurd (omega arith)
read_from-escape_all [] (suc n) out_size out rest h room = ap some (sym (append_nil out))
read_from-escape_all (c ∷ src) zero out_size out rest h room = absurd (omega arith)
read_from-escape_all (c ∷ src) (suc n) out_size out rest h room =
    ap (read_from (suc n) out_size out) (append_assoc (escaped c) (escape_all src) (34 ∷ rest))
    ∙ read_from-escaped c n out_size out (escape_all src ++ (34 ∷ rest)) (omega arith)
    ∙ read_from-escape_all src n out_size (out ++ (read_back c ∷ [])) rest (omega arith)
        (omega (arith, length-append out (read_back c ∷ [])))
    ∙ ap some (append_assoc out (read_back c ∷ []) (map read_back src))

length-escaped : (c : ℕ) → 1 ≤ length (escaped c)
unfolding escaped
length-escaped c = ground arith

length-escape_all : (src : List ℕ) → length src ≤ length (escape_all src)
unfolding escape_all
length-escape_all [] = omega arith
length-escape_all (c ∷ src) =
    let one : 1 ≤ length (escaped c) = length-escaped c in
    omega (arith, length-escape_all src, length-append (escaped c) (escape_all src))

json_get_string-at :
    (body field p : List ℕ) (out_size : ℕ)
    → json_find_field body field ≡ some p
    → json_get_string body field out_size ≡ read_value out_size p
unfolding json_get_string
json_get_string-at body field p out_size h = ap (read_at out_size) h

-- What `json_escape` makes of a value, between the quotes of a field of a body, is what
-- `json_get_string` reads there into a buffer with room for the value: the value itself, but for
-- '?' in the place of each control character other than newline, return and tab. The name and the
-- strings before it have no quote and no backslash inside; each of those strings differs from the
-- name or has no colon behind it. White space may stand behind the name and behind its colon.
pub json_get_string-json_escape :
    (b : Before) (field src e rest : List ℕ) (dst_size out_size : ℕ)
    → Plain field
    → IsBefore field b
    → json_escape dst_size src ≡ some e
    → length src < out_size
    → json_get_string (body_before b field (e ++ (34 ∷ rest))) field out_size
      ≡ some (map read_back src)
unfolding json_escape
json_get_string-json_escape b field src e rest dst_size out_size plain before done room =
    let written = escape_from-escape_all dst_size src [] e done in
    let enough : length src < suc (length (escape_all src ++ (34 ∷ rest))) =
      omega (arith, length-escape_all src, length-append (escape_all src) (34 ∷ rest)) in
    json_get_string-at (body_before b field (e ++ (34 ∷ rest))) field (34 ∷ (e ++ (34 ∷ rest)))
      out_size (json_find_field-body_before b field (e ++ (34 ∷ rest)) plain before)
    ∙ ap (λ v. read_value out_size (34 ∷ (v ++ (34 ∷ rest)))) written
    ∙ read_from-escape_all src (suc (length (escape_all src ++ (34 ∷ rest)))) out_size [] rest
        enough (omega arith)
