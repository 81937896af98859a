-- ===== src/Common/Http/Response/Staged.antt =====
-- What send_http_response of common/src/http_protocol.c puts into the write buffer.
use codo.Prelude.{
  ℕ, ◌+◌, ◌-◌, ◌<◌, ◌≡◌, refl, sym, ap, subst, ◌∙◌, Bool, false, ◌||◌, ◌⊎◌, Option, none, some,
  List, [], ◌∷◌, ◌++◌, Bool-cases, Option-cases, inl, inr, leb, ◌==◌, arith, if◌then◌else◌, length,
  length-append,
}
use codo.Common.Connection.{Buffer, max_response_size, conn_reserve_write}
use codo.Common.Connection.Growth.{
  IsWithin, IsReserved, conn_reserve_read-IsReserved, conn_reserve_write-read,
}
use codo.Common.Http.{cr, lf}
use codo.Common.Http.Response.{
  Response, Around, max_headers_size, put, first_lines, put_headers, put_length, put_connection,
  put_gzip, put_modified, put_etag, put_cors, build_response_headers, out_body, File, is_streaming,
  content_length_of, send_http_response,
}
use codo.Common.Http.Response.Splitting.{IsClean, IsCleanAround, block, AllFields, IsBlock}
use codo.Common.Http.Response.Parts.{
  put_first-IsBlock, put_headers-IsBlock, put_length-IsBlock, put_connection-IsBlock,
  put_gzip-IsBlock, put_modified-IsBlock, put_etag-IsBlock, put_cors-IsBlock,
}
use codo.Server.Routes.{Method, same_method}

-- A header block: fields that are neither blank nor broken, and the blank line that ends it, in
-- fewer bytes than the buffer has.
abbrev pub IsHeaderBlock : ℕ → List ℕ → Type 0
IsHeaderBlock size text =
    (fields : List (List ℕ)) × (AllFields fields
      × ((text ≡ block fields ++ (cr ∷ lf ∷ [])) × (length text < size)))

put-end :
    (size : ℕ) (off : Option (List ℕ)) (text : List ℕ)
    → IsBlock off
    → put size off (cr ∷ lf ∷ []) ≡ some text
    → IsHeaderBlock size text
unfolding put
put-end size none text h q = absurd (ground arith)
put-end size (some off) text (fields, (all, same)) q = elim (Bool-cases (leb size (length off))) [
  | inl t ↦ absurd (ground (arith, t))
  | inr t ↦ elim (Bool-cases (leb (size - length off) 2)) [
    | inl u ↦ absurd (ground (arith, t, u))
    | inr u ↦
        let whole : text ≡ off ++ (cr ∷ lf ∷ []) = ground (arith, t, u) in
        let size_of = length-append off (cr ∷ lf ∷ []) in
        let len : length text ≡ length off + 2 = ap (λ l. length l) whole ∙ size_of in
        let room : length off + 2 < size = ground (arith, t, u) in
        (fields, (all, (whole ∙ ap (λ (l : List ℕ). l ++ (cr ∷ lf ∷ [])) same, omega arith)))
  ]
]

pub build_response_headers-IsHeaderBlock :
    (e : Around) (r : Response) (gzipped : Bool) (n : ℕ) (no_body : Bool) (size : ℕ) (text : List ℕ)
    → IsCleanAround e
    → IsClean r.version
    → build_response_headers e r gzipped n no_body size ≡ some text
    → IsHeaderBlock size text
unfolding build_response_headers
build_response_headers-IsHeaderBlock e r gzipped n no_body size text around version q =
    let o0 = put size (some []) (first_lines e r) in
    let h0 = put_first-IsBlock size e r around version in
    let o1 = put_length size o0 no_body n in
    let h1 = put_length-IsBlock size n no_body o0 h0 in
    let o2 = put_connection size o1 r.keep_alive in
    let h2 = put_connection-IsBlock size r.keep_alive o1 h1 in
    let o3 = put_gzip size o2 gzipped in
    let h3 = put_gzip-IsBlock size gzipped o2 h2 in
    let o4 = put_modified e size o3 r.last_modified in
    let h4 = put_modified-IsBlock e size r.last_modified o3 around h3 in
    let o5 = put_etag size o4 gzipped r.etag in
    let h5 = put_etag-IsBlock size gzipped r.etag o4 h4 in
    let o6 = put_headers size o5 r.headers in
    let h6 = put_headers-IsBlock size r.headers o5 h5 in
    let h7 = put_cors-IsBlock size r.cors_origin o6 h6 in
    put-end size (put_cors size o6 r.cors_origin) text h7 q

-- What a response leaves in the write buffer: a header block and a body, in a buffer that holds
-- them; no body for a HEAD request, for a 304 or before a streamed file; and no file behind a
-- response to HEAD.
abbrev pub IsStaged : Method → Response → File → Buffer → File → Type 0
IsStaged method r file w file_after =
    (header : List ℕ) × ((body : List ℕ) × (IsHeaderBlock max_headers_size header
        × ((w.used ≡ header ++ body)
            × (IsWithin max_response_size w
                × ((((is_streaming file || (r.status == 304 || same_method method Method.head))
                        ≡ false)
                      ⊎ (body ≡ []))
                    × ((same_method method Method.head ≡ false) ⊎ (file_after ≡ none)))))))

-- A response that was sent, with any fields that its handler has set.
pub send_http_response-IsStaged :
    (e : Around) (grants : ℕ → Bool) (compress : List ℕ → Option (List ℕ)) (method : Method)
    (request_headers : List (List ℕ × List ℕ)) (r : Response) (file file_after : File)
    (w w' : Buffer)
    → IsCleanAround e
    → IsClean r.version
    → IsWithin max_response_size w
    → send_http_response e grants compress method request_headers r file w ≡ some (w', file_after)
    → IsStaged method r file w' file_after
unfolding send_http_response
send_http_response-IsStaged e grants compress method request_headers r file file_after w w' around
      version within q =
    let packed = out_body compress request_headers r (is_streaming file) in
    let no_body = r.status == 304 in
    let head = same_method method Method.head in
    let n = content_length_of file packed.0 in
    elim (Option-cases (build_response_headers e r packed.1 n no_body max_headers_size)) [
      | inl b ↦ absurd (ground (arith, b))
      | inr (header, b) ↦
          let body : List ℕ = if is_streaming file || (no_body || head) then [] else packed.0 in
          let reserved = conn_reserve_write grants w (length header + length body) in
          let room : IsReserved w (length header + length body) max_response_size reserved =
            rw (conn_reserve_write-read grants w (length header + length body)) (
              conn_reserve_read-IsReserved grants w (length header + length body) max_response_size
                (omega arith) within) in
          elim (Bool-cases reserved.0) [
            | inl t ↦
                let made : Buffer × File =
                  (record (reserved.1) { used = header ++ body }, if head then none else file) in
                let ran : send_http_response e grants compress method request_headers r file w
                    ≡ some made =
                  rw (send_http_response, b, t) refl in
                let same : made ≡ (w', file_after) = ap (unwrap made) (sym ran ∙ q) in
                let buffer : made.0 ≡ w' = ap (λ x. x.0) same in
                let len = length-append header body in
                let (_, (bounds, (_, fits))) = room in
                let inside : IsWithin max_response_size made.0 =
                  (omega (arith, (fits t).0), bounds.1) in
                (
                  header,
                  (
                    body,
                    (
                      build_response_headers-IsHeaderBlock e r packed.1 n no_body max_headers_size
                          header around version b,
                      (
                        sym (ap (λ x. x.used) buffer),
                        (
                          subst (IsWithin max_response_size) buffer inside,
                          (
                            elim (Bool-cases (is_streaming file || (no_body || head))) [
                              | inl skip ↦ inr (rw (skip) refl)
                              | inr keep ↦ inl keep
                            ],
                            elim (Bool-cases head) [
                              | inl is_head ↦ inr (sym (ap (λ x. x.1) same) ∙ rw (is_head) refl)
                              | inr no_head ↦ inl no_head
                            ],
                          ),
                        ),
                      ),
                    ),
                  ),
                )
            | inr t ↦ absurd (ground (arith, b, t))
          ]
    ]
  where
    unwrap : Buffer × File → Option (Buffer × File) → Buffer × File
    unwrap d none = d
    unwrap d (some x) = x
