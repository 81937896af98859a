-- ===== src/Server/Frame/Extend.antt =====
-- A request of server/src/worker.c with the bytes of the next one behind it.
use codo.Prelude.{
  ℕ, ◌≤◌, ◌≡◌, refl, ap, ◌∙◌, List, ◌++◌, Bool-cases, inl, inr, arith, length, take, drop,
  length-append, take-append_le, drop-append_le,
}
use codo.Common.Http.Chunked.{http_chunked_decode}
use codo.Common.Http.Chunked.Extend.{http_chunked_decode-extend}
use codo.Server.Frame.{
  has_byte, lines, Framing, walk_lines, no_framing, received, body_verdict, chunked_verdict,
  check_request_frame, conn_consume_read,
}
use codo.Server.Frame.Scan.{header_end-bounds, header_end-append}
use codo.Server.Frame.Limits.{
  Parts, received-Parts, Parts-received, chunked_verdict-received, body_verdict-length,
}

body_verdict-append :
    (max_body header_len n : ℕ) (buf e : List ℕ) (f : Framing)
    → header_len ≤ length buf
    → body_verdict max_body header_len buf f ≡ received n
    → body_verdict max_body header_len (buf ++ e) f ≡ received n
unfolding body_verdict
body_verdict-append max_body header_len n buf e f within h = elim (Bool-cases f.chunked) [
  | inl c ↦ elim (Bool-cases f.saw_content_length) [
    | inl s ↦ absurd (ground (arith, c, s))
    | inr s ↦
        let whole : chunked_verdict max_body header_len (http_chunked_decode (drop header_len buf))
            ≡ received n =
          ground (arith, c, s) in
        let (out, (used, (done, _))) =
          chunked_verdict-received max_body header_len n (drop header_len buf) whole in
        let same = http_chunked_decode-extend (drop header_len buf) e (rw (done) refl) in
        rw (c, s, drop-append_le buf e header_len within, same) whole
  ]
  | inr c ↦ ground (arith, c, length-append buf e)
]

-- A request that was received is received alike with more bytes behind it: the next request's bytes
-- change neither its length nor its bytes, and they are what is left when it is taken.
pub check_request_frame-append :
    (buf e : List ℕ) (max_body n : ℕ)
    → (check_request_frame buf max_body).0 ≡ received n
    → ((check_request_frame (buf ++ e) max_body).0 ≡ received n)
      × ((take n (buf ++ e) ≡ take n buf)
          × (conn_consume_read (buf ++ e) n ≡ conn_consume_read buf n ++ e))
unfolding conn_consume_read
check_request_frame-append buf e max_body n h =
    let p = received-Parts buf max_body n h in
    let (low, (below, within)) = header_end-bounds buf 0 p.hdr_end p.header_len p.ends in
    let inside : p.header_len ≤ length buf = omega arith in
    let fits = body_verdict-length max_body p.header_len n buf p.framing inside p.body in
    let q : Parts (buf ++ e) max_body n = record {
      hdr_end = p.hdr_end;
      header_len = p.header_len;
      framing = p.framing;
      ends = header_end-append buf e 0 (p.hdr_end, p.header_len) p.ends;
      no_nul = ap (has_byte 0) (take-append_le buf e p.header_len inside) ∙ p.no_nul;
      walk =
          ap (λ t. walk_lines no_framing (lines t)) (take-append_le buf e p.hdr_end (omega arith))
          ∙ p.walk;
      body = body_verdict-append max_body p.header_len n buf e p.framing inside p.body;
    } in
    (
      Parts-received (buf ++ e) max_body n q,
      (take-append_le buf e n fits, drop-append_le buf e n fits),
    )
