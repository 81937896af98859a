-- ===== src/Server/Frame/Limits.antt =====
-- The parts of a request that `check_request_frame` of server/src/worker.c reports as received, and
-- their lengths.
use codo.Prelude.{
  ℕ, ◌+◌, ◌%◌, ◌≤◌, ◌≡◌, refl, subst, true, false, some, List, Bool-cases, Option-cases, inl, inr,
  ◌⊎◌, arith, length, take, drop, length-drop,
}
use codo.Common.Http.Chunked.{size_max, Decoded, complete, partial, malformed, http_chunked_decode}
use codo.Common.Http.Chunked.Bounds.{FitsIn, http_chunked_decode-FitsIn}
use codo.Server.Frame.{
  header_end, has_byte, lines, Framing, Refusal, bad_framing, bad_encoding, Walk, refused, walked,
  walk_lines, received, chunked_verdict, body_verdict, no_framing, walk_verdict,
  check_request_frame,
}
use codo.Server.Frame.Scan.{header_end-bounds}

pub Walk-cases :
    (w : Walk)
    → ((r : Refusal) × ((f : Framing) × (w ≡ refused r f))) ⊎ ((f : Framing) × (w ≡ walked f))
Walk-cases (refused r f) = inl (r, (f, refl))
Walk-cases (walked f) = inr (f, refl)

-- A whole request: where its headers end, and what they say of its body.
pub record Parts (buf : List ℕ) (max_body n : ℕ) : Type 0 where
  pub hdr_end : ℕ
  pub header_len : ℕ
  pub framing : Framing
  pub ends : header_end buf 0 ≡ some (hdr_end, header_len)
  pub no_nul : has_byte 0 (take header_len buf) ≡ false
  pub walk : walk_lines no_framing (lines (take hdr_end buf)) ≡ walked framing
  pub body : body_verdict max_body header_len buf framing ≡ received n

pub received-Parts :
    (buf : List ℕ) (max_body n : ℕ)
    → (check_request_frame buf max_body).0 ≡ received n
    → Parts buf max_body n
unfolding check_request_frame walk_verdict
received-Parts buf max_body n h = elim (Option-cases (header_end buf 0)) [
  | inl e ↦ absurd (ground (arith, e))
  | inr ((hdr_end, header_len), e) ↦ elim (Bool-cases (has_byte 0 (take header_len buf))) [
    | inl t ↦ absurd (ground (arith, e, t))
    | inr t ↦ elim (Walk-cases (walk_lines no_framing (lines (take hdr_end buf)))) [
      | inl (bad_framing, (f, w)) ↦ absurd (ground (arith, e, t, w))
      | inl (bad_encoding, (f, w)) ↦ absurd (ground (arith, e, t, w))
      | inr (f, w) ↦ record {
        hdr_end = hdr_end;
        header_len = header_len;
        framing = f;
        ends = e;
        no_nul = t;
        walk = w;
        body = ground (arith, e, t, w);
      }
    ]
  ]
]

-- The parts of a whole request make it one.
pub Parts-received :
    (buf : List ℕ) (max_body n : ℕ)
    → Parts buf max_body n
    → (check_request_frame buf max_body).0 ≡ received n
unfolding check_request_frame walk_verdict
Parts-received buf max_body n p =
    rw (check_request_frame, p.ends, p.no_nul, p.walk, walk_verdict) (p.body)

pub Decoded-cases :
    (r : Decoded)
    → (r ≡ malformed)
      ⊎ (((out : List ℕ) × ((used : ℕ) × (r ≡ partial out used)))
          ⊎ ((out : List ℕ) × ((used : ℕ) × (r ≡ complete out used))))
Decoded-cases malformed = inl refl
Decoded-cases (partial out used) = inr (inl (out, (used, refl)))
Decoded-cases (complete out used) = inr (inr (out, (used, refl)))

-- A chunked body with what follows the headers, decoded to at most `max_body` bytes.
abbrev pub IsChunkedBody : ℕ → ℕ → List ℕ → ℕ → Type 0
IsChunkedBody max_body header_len input n =
    (out : List ℕ) × ((used : ℕ) × ((http_chunked_decode input ≡ complete out used)
        × ((n ≡ header_len + used) × (length out ≤ max_body))))

-- Which body a whole request has: one framing decides it, never both.
abbrev pub HasBody : ℕ → ℕ → List ℕ → Framing → ℕ → Type 0
HasBody max_body header_len buf f n =
    ((f.chunked ≡ true)
      × ((f.saw_content_length ≡ false)
          × IsChunkedBody max_body header_len (drop header_len buf) n))
    ⊎ ((f.chunked ≡ false) × ((n ≡ header_len + f.content_length) × (f.content_length ≤ max_body)))

pub chunked_verdict-received :
    (max_body header_len n : ℕ) (input : List ℕ)
    → chunked_verdict max_body header_len (http_chunked_decode input) ≡ received n
    → IsChunkedBody max_body header_len input n
unfolding chunked_verdict
chunked_verdict-received max_body header_len n input h =
    elim (Decoded-cases (http_chunked_decode input)) [
      | inl e ↦ absurd (ground (arith, e))
      | inr (inl (out, (used, e))) ↦ absurd (ground (arith, e))
      | inr (inr (out, (used, e))) ↦ (out, (used, (e, (ground (arith, e), ground (arith, e)))))
    ]

-- With room for the sum in a word, the length is not wrapped.
pub body_verdict-HasBody :
    (max_body header_len n : ℕ) (buf : List ℕ) (f : Framing)
    → header_len + max_body ≤ size_max
    → body_verdict max_body header_len buf f ≡ received n
    → HasBody max_body header_len buf f n
unfolding body_verdict
body_verdict-HasBody max_body header_len n buf f room h = elim (Bool-cases f.chunked) [
  | inl c ↦ elim (Bool-cases f.saw_content_length) [
    | inl s ↦ absurd (ground (arith, c, s))
    | inr s ↦ inl (
      c,
      (
        s,
        chunked_verdict-received max_body header_len n (drop header_len buf) (ground (arith, c, s)),
      ),
    )
  ]
  | inr c ↦
      let small : f.content_length ≤ max_body = ground (arith, c) in
      let whole : (header_len + f.content_length) % (size_max + 1) ≡ header_len + f.content_length =
        omega arith in
      inr (c, (ground (arith, c, whole), small))
]

pub body_verdict-length :
    (max_body header_len n : ℕ) (buf : List ℕ) (f : Framing)
    → header_len ≤ length buf
    → body_verdict max_body header_len buf f ≡ received n
    → n ≤ length buf
unfolding body_verdict
body_verdict-length max_body header_len n buf f within h = elim (Bool-cases f.chunked) [
  | inl c ↦ elim (Bool-cases f.saw_content_length) [
    | inl s ↦ absurd (ground (arith, c, s))
    | inr s ↦
        let (out, (used, (e, (same, small)))) =
          chunked_verdict-received max_body header_len n (drop header_len buf)
            (ground (arith, c, s)) in
        let fits : FitsIn (length (drop header_len buf)) (complete out used) =
          subst (λ r. FitsIn (length (drop header_len buf)) r) e
            (http_chunked_decode-FitsIn (drop header_len buf)) in
        omega (arith, length-drop header_len buf, fits.1)
  ]
  | inr c ↦ ground (arith, c)
]

-- A request reported as received is its headers and the one body that they declare: it lies within
-- the bytes that have arrived, and the body is no longer than the limit.
pub check_request_frame-limits :
    (buf : List ℕ) (max_body n : ℕ)
    → length buf + max_body ≤ size_max
    → (check_request_frame buf max_body).0 ≡ received n
    → (p : Parts buf max_body n) × ((n ≤ length buf)
        × HasBody max_body p.header_len buf p.framing n)
check_request_frame-limits buf max_body n room h =
    let p = received-Parts buf max_body n h in
    let (low, (below, within)) = header_end-bounds buf 0 p.hdr_end p.header_len p.ends in
    (
      p,
      (
        body_verdict-length max_body p.header_len n buf p.framing (omega arith) p.body,
        body_verdict-HasBody max_body p.header_len n buf p.framing (omega arith) p.body,
      ),
    )
