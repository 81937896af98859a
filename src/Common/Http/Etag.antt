-- ===== src/Common/Http/Etag.antt =====
-- Entity tags and conditional requests in common/src/http_protocol.c. Times are numbers, 0 for
-- none; what `parse_http_date` makes of a text is an argument.
use codo.Prelude.{
  ℕ, zero, suc, Bool, true, false, ◌&&◌, ◌||◌, not, Option, none, some, List, [], ◌∷◌, leb, ◌==◌,
  if◌then◌else◌, length,
}
use codo.Common.Http.{is_blank, trim_end}
use codo.Common.Http.Chunked.{is_empty}

-- `memcmp` and `strcmp` at equal lengths.
unfoldable pub same_text : List ℕ → List ℕ → Bool
same_text [] [] = true
same_text [] (d ∷ q) = false
same_text (c ∷ p) [] = false
same_text (c ∷ p) (d ∷ q) = c == d && same_text p q

-- Without the W/ of a weak tag.
unfoldable pub strong : List ℕ → List ℕ
strong [] = []
strong (c ∷ []) = c ∷ []
strong (c ∷ d ∷ p) = if (c == b'W' || c == b'w') && d == b'/' then p else c ∷ d ∷ p

unfoldable pub etag_match_weak : List ℕ → List ℕ → Bool
etag_match_weak candidate etag = same_text etag (strong candidate)

-- The members of a list between its commas, without the blanks before them.
unfoldable pub skip_separators : List ℕ → List ℕ
skip_separators [] = []
skip_separators (c ∷ p) = elim (is_blank c || c == b',') [
  | true ↦ skip_separators p
  | false ↦ c ∷ p
]

-- `while (*p && *p != ',') p++`: what stands before the comma, and the rest from the comma on.
unfoldable pub until_comma : List ℕ → List ℕ × List ℕ
until_comma [] = ([], [])
until_comma (c ∷ p) = elim (c == b',') [
  | true ↦ ([], c ∷ p)
  | false ↦ (c ∷ (until_comma p).0, (until_comma p).1)
]

abbrev pub is_star : List ℕ → Bool
is_star [] = false
is_star (c ∷ []) = c == b'*'
is_star (c ∷ d ∷ p) = false

-- The loop over the list. A member takes a byte at least, so that fuel for the list is enough.
unfoldable pub etag_list_from : ℕ → List ℕ → List ℕ → Bool
etag_list_from zero p etag = false
etag_list_from (suc n) p etag = elim (skip_separators p) [
  | [] ↦ false
  | c ∷ start ↦
      let (member, rest) = until_comma (c ∷ start) in
      let kept = trim_end member in
      elim (is_star kept || etag_match_weak kept etag) [
        | true ↦ true
        | false ↦ etag_list_from n rest etag
      ]
]

unfoldable pub etag_list_contains : List ℕ → List ℕ → Bool
etag_list_contains list etag = etag_list_from (suc (length list)) list etag

-- The validators of the request.
unfoldable pub request_not_modified : List ℕ → ℕ → List ℕ → ℕ → Bool
request_not_modified if_none_match if_modified_since etag mtime =
    if not (is_empty if_none_match)
    then etag_list_contains if_none_match etag
    else (if not (if_modified_since == 0) && not (mtime == 0)
        then leb mtime if_modified_since
        else false)

unfoldable pub if_range_matches : (List ℕ → Option ℕ) → List ℕ → List ℕ → ℕ → Bool
if_range_matches parse_http_date [] etag mtime = true
if_range_matches parse_http_date (c ∷ v) etag mtime =
    if c == b'"'
    then same_text (c ∷ v) etag
    else (if (c == b'W' || c == b'w') && begins_slash v
        then false
        else (elim (parse_http_date (c ∷ v)) [ none ↦ false | some t ↦ t == mtime ]))
  where
    begins_slash : List ℕ → Bool
    begins_slash [] = false
    begins_slash (d ∷ p) = d == b'/'
