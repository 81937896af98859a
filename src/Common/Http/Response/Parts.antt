-- ===== src/Common/Http/Response/Parts.antt =====
-- Each part of a header block of common/src/http_protocol.c appends whole lines.
use codo.Prelude.{
  ℕ, ◌<◌, refl, subst, Bool, true, false, ◌||◌, Option, some, List, [], ◌∷◌, ◌++◌, Bool-cases, inl,
  inr, ◌==◌, arith, if◌then◌else◌, length, length-append, append_nil,
}
use codo.Todo.Index.{decimal}
use codo.Common.Http.Chunked.{is_empty}
use codo.Common.Http.Etag.{is_star}
use codo.Common.Http.Fields.{http_1_1}
use codo.Common.Http.Response.Texts.{
  server_label, date_label, length_label, connection_label, keep_alive_text, close_text, gzip_field,
  vary_encoding, modified_label, etag_label, weak_prefix, cors_label, vary_origin,
}
use codo.Common.Http.Response.{
  Response, Around, header_field_has_crlf, put, line, first_lines, put_headers, put_length,
  put_connection, put_gzip, put_modified, put_etag, put_cors,
}
use codo.Common.Http.Response.Splitting.{
  IsClean, IsCleanAround, header_field_has_crlf-IsClean, append-IsClean, decimal-IsClean, block,
  IsBlock, put-block, put-line, put-two, put-label,
}

-- Texts of the code itself.
fixed-IsClean :
    (IsClean server_label
      × (IsClean date_label × (IsClean length_label × IsClean connection_label)))
    × ((IsClean keep_alive_text
          × (IsClean close_text × (IsClean gzip_field × IsClean vary_encoding)))
        × ((IsClean modified_label
              × (IsClean etag_label × (IsClean weak_prefix × IsClean cors_label)))
            × (IsClean vary_origin × IsClean http_1_1)))
unfolding header_field_has_crlf
fixed-IsClean =
    let clean = header_field_has_crlf-IsClean in
    (
      (
        clean server_label refl,
        (clean date_label refl, (clean length_label refl, clean connection_label refl)),
      ),
      (
        (
          clean keep_alive_text refl,
          (clean close_text refl, (clean gzip_field refl, clean vary_encoding refl)),
        ),
        (
          (
            clean modified_label refl,
            (clean etag_label refl, (clean weak_prefix refl, clean cors_label refl)),
          ),
          (clean vary_origin refl, clean http_1_1 refl),
        ),
      ),
    )

space-IsClean : (x : List ℕ) → IsClean x → IsClean (32 ∷ x)
space-IsClean x h = (omega arith, (omega arith, h))

colon-IsClean : (x : List ℕ) → IsClean x → IsClean (b':' ∷ 32 ∷ x)
colon-IsClean x h = (omega arith, (omega arith, space-IsClean x h))

-- The version that the status line names.
abbrev version_text : Response → List ℕ
version_text r = if is_empty r.version then http_1_1 else r.version

version-IsClean : (r : Response) → IsClean r.version → IsClean (version_text r)
version-IsClean r h = elim (Bool-cases (is_empty r.version)) [
  | inl t ↦ rw (t) fixed-IsClean.1.1.1.1
  | inr t ↦ rw (t) h
]

pub put_first-IsBlock :
    (size : ℕ) (e : Around) (r : Response)
    → IsCleanAround e
    → IsClean r.version
    → IsBlock (put size (some []) (first_lines e r))
unfolding first_lines block
put_first-IsBlock size e r (now, (_, (reason, name))) version =
    let status = version_text r ++ (32 ∷ (decimal 20 r.status ++ (32 ∷ e.reason r.status))) in
    let status_clean : IsClean status =
      append-IsClean (version_text r) (32 ∷ (decimal 20 r.status ++ (32 ∷ e.reason r.status)))
        (version-IsClean r version)
        (space-IsClean (decimal 20 r.status ++ (32 ∷ e.reason r.status)) (
          append-IsClean (decimal 20 r.status) (32 ∷ e.reason r.status)
            (decimal-IsClean 20 r.status) (space-IsClean (e.reason r.status) (reason r.status)))) in
    let some_bytes : 0 < length status = omega (
      arith,
      length-append (version_text r) (32 ∷ (decimal 20 r.status ++ (32 ∷ e.reason r.status))),
    ) in
    let server = append-IsClean server_label e.server_name fixed-IsClean.0.0 name in
    let date = append-IsClean date_label e.now fixed-IsClean.0.1.0 now in
    subst
      (λ t.
        IsBlock (put size (some []) (line status ++ (line (server_label ++ e.server_name) ++ t))))
      (append_nil (line (date_label ++ e.now)))
      (put-block size (some [])
        (status ∷ (server_label ++ e.server_name) ∷ (date_label ++ e.now) ∷ []) ([], (tt, refl))
        ((status_clean, some_bytes), ((server, omega arith), ((date, omega arith), tt))))

pub put_headers-IsBlock :
    (size : ℕ) (headers : List (List ℕ × List ℕ)) (off : Option (List ℕ))
    → IsBlock off
    → IsBlock (put_headers size off headers)
unfolding put_headers
put_headers-IsBlock size [] off h = h
put_headers-IsBlock size ((name, v) ∷ headers) off h =
    elim (Bool-cases (header_field_has_crlf name || header_field_has_crlf v)) [
      | inl t ↦ rw (put_headers, t) tt
      | inr t ↦
          let clean = header_field_has_crlf-IsClean name (ground (arith, t)) in
          let clean' = header_field_has_crlf-IsClean v (ground (arith, t)) in
          let field = name ++ (b':' ∷ 32 ∷ v) in
          rw (put_headers, t)
            (put_headers-IsBlock size headers (put size off (line field)) (
              put-line size off field h
                (append-IsClean name (b':' ∷ 32 ∷ v) clean (colon-IsClean v clean'))
                (omega (arith, length-append name (b':' ∷ 32 ∷ v)))))
    ]

pub put_length-IsBlock :
    (size n : ℕ) (no_body : Bool) (off : Option (List ℕ))
    → IsBlock off
    → IsBlock (put_length size off no_body n)
unfolding put_length
put_length-IsBlock size n true off h = h
put_length-IsBlock size n false off h =
    put-label size off length_label (decimal 20 n) h fixed-IsClean.0.1.1.0 (omega arith)
      (decimal-IsClean 20 n)

pub put_connection-IsBlock :
    (size : ℕ) (keep_alive : Bool) (off : Option (List ℕ))
    → IsBlock off
    → IsBlock (put_connection size off keep_alive)
unfolding put_connection
put_connection-IsBlock size true off h =
    put-label size off connection_label keep_alive_text h fixed-IsClean.0.1.1.1 (omega arith)
      fixed-IsClean.1.0.0
put_connection-IsBlock size false off h =
    put-label size off connection_label close_text h fixed-IsClean.0.1.1.1 (omega arith)
      fixed-IsClean.1.0.1.0

pub put_gzip-IsBlock :
    (size : ℕ) (gzipped : Bool) (off : Option (List ℕ))
    → IsBlock off
    → IsBlock (put_gzip size off gzipped)
unfolding put_gzip
put_gzip-IsBlock size true off h =
    put-two size off gzip_field vary_encoding h (fixed-IsClean.1.0.1.1.0, omega arith)
      (fixed-IsClean.1.0.1.1.1, omega arith)
put_gzip-IsBlock size false off h = h

pub put_modified-IsBlock :
    (e : Around) (size t : ℕ) (off : Option (List ℕ))
    → IsCleanAround e
    → IsBlock off
    → IsBlock (put_modified e size off t)
unfolding put_modified
put_modified-IsBlock e size t off (_, (dates, _)) h = elim (Bool-cases (t == 0)) [
  | inl z ↦ rw (put_modified, z) h
  | inr z ↦
      rw (put_modified, z)
        (put-label size off modified_label (e.http_date t) h fixed-IsClean.1.1.0.0 (omega arith)
          (dates t))
]

weak-IsClean :
    (gzipped : Bool) (etag : List ℕ)
    → IsClean etag
    → IsClean ((if gzipped then weak_prefix else []) ++ etag)
weak-IsClean true etag h = append-IsClean weak_prefix etag fixed-IsClean.1.1.0.1.1.0 h
weak-IsClean false etag h = h

pub put_etag-IsBlock :
    (size : ℕ) (gzipped : Bool) (etag : List ℕ) (off : Option (List ℕ))
    → IsBlock off
    → IsBlock (put_etag size off gzipped etag)
unfolding put_etag
put_etag-IsBlock size gzipped etag off h =
    elim (Bool-cases (is_empty etag || header_field_has_crlf etag)) [
      | inl t ↦ rw (put_etag, t) h
      | inr t ↦
          let clean = header_field_has_crlf-IsClean etag (ground (arith, t)) in
          rw (put_etag, t)
            (put-label size off etag_label ((if gzipped then weak_prefix else []) ++ etag) h
              fixed-IsClean.1.1.0.1.0 (omega arith) (weak-IsClean gzipped etag clean))
    ]

pub put_cors-IsBlock :
    (size : ℕ) (origin : List ℕ) (off : Option (List ℕ))
    → IsBlock off
    → IsBlock (put_cors size off origin)
unfolding put_cors
put_cors-IsBlock size origin off h = elim (Bool-cases (is_empty origin)) [
  | inl t ↦ rw (put_cors, t) h
  | inr t ↦ elim (Bool-cases (header_field_has_crlf origin)) [
    | inl u ↦ rw (put_cors, t, u) tt
    | inr u ↦
        let clean = header_field_has_crlf-IsClean origin u in
        elim (Bool-cases (is_star origin)) [
          | inl v ↦
              rw (put_cors, t, u, v)
                (put-label size off cors_label origin h fixed-IsClean.1.1.0.1.1.1 (omega arith)
                  clean)
          | inr v ↦
              rw (put_cors, t, u, v)
                (put-two size off (cors_label ++ origin) vary_origin h
                  (
                    append-IsClean cors_label origin fixed-IsClean.1.1.0.1.1.1 clean,
                    omega (arith, length-append cors_label origin),
                  )
                  (fixed-IsClean.1.1.1.0, omega arith))
        ]
  ]
]
