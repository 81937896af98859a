-- ===== src/Server/WebSocket/Extend.antt =====
-- The frames of server/src/websocket.c when the bytes arrive in more than one read.
use codo.Prelude.{
  ℕ, ◌+◌, ◌-◌, ◌/◌, ◌%◌, ◌≤◌, ◌≡◌, refl, Bool, true, false, ◌||◌, not, some, List, [], ◌∷◌, ◌++◌,
  Bool-cases, Option-cases, inl, inr, ltb, ◌==◌, arith, length, take, drop, length-append,
  length-drop, take-append_le, drop-append_le,
}
use codo.Server.WebSocket.{
  Decoding, decoded, need_more, violation, ws_length, ws_payload, ws_decode_frame,
}

ws_length-append :
    (len : ℕ) (buf e : List ℕ) (x : ℕ × ℕ)
    → ws_length len buf ≡ some x
    → ws_length len (buf ++ e) ≡ some x
unfolding ws_length
ws_length-append len buf e x h = elim (Bool-cases (len == 126)) [
  | inl t ↦
      let enough : 4 ≤ length buf = ground (arith, t) in
      let late : drop 2 (buf ++ e) ≡ drop 2 buf ++ e = drop-append_le buf e 2 (omega arith) in
      let same : take 2 (drop 2 buf ++ e) ≡ take 2 (drop 2 buf) =
        take-append_le (drop 2 buf) e 2 (omega (arith, length-drop 2 buf)) in
      let more : ltb (length (buf ++ e)) 4 ≡ false = ground (arith, length-append buf e) in
      let now : ltb (length buf) 4 ≡ false = ground arith in
      rw (t, more, late, same) (ground (arith, t, now))
  | inr t ↦ elim (Bool-cases (len == 127)) [
    | inl u ↦
        let enough : 10 ≤ length buf = ground (arith, t, u) in
        let late : drop 2 (buf ++ e) ≡ drop 2 buf ++ e = drop-append_le buf e 2 (omega arith) in
        let same : take 8 (drop 2 buf ++ e) ≡ take 8 (drop 2 buf) =
          take-append_le (drop 2 buf) e 8 (omega (arith, length-drop 2 buf)) in
        let more : ltb (length (buf ++ e)) 10 ≡ false = ground (arith, length-append buf e) in
        let now : ltb (length buf) 10 ≡ false = ground arith in
        rw (t, u, more, late, same) (ground (arith, t, u, now))
    | inr u ↦ rw (t, u) (ground (arith, t, u))
  ]
]

-- What more bytes cannot change: a frame or a violation.
abbrev pub settled : Decoding → Bool
settled (decoded frame) = true
settled need_more = false
settled (violation code) = true

ws_payload-append :
    (b0 b1 limit len header : ℕ) (buf e : List ℕ)
    → settled (ws_payload b0 b1 limit buf len header) ≡ true
    → ws_payload b0 b1 limit (buf ++ e) len header ≡ ws_payload b0 b1 limit buf len header
unfolding ws_payload
ws_payload-append b0 b1 limit len header buf e h = elim (Bool-cases (ltb b1 128)) [
  | inl t ↦ rw (ws_payload, t) refl
  | inr t ↦ elim (Bool-cases (ltb limit (header + 4 + 1) || ltb (limit - 1 - header - 4) len)) [
    | inl u ↦ rw (ws_payload, t, u) refl
    | inr u ↦ elim (Bool-cases (ltb (length buf) (header + 4 + len))) [
      | inl v ↦ absurd (ground (arith, t, u, v))
      | inr v ↦
          let arrived : header + 4 + len ≤ length buf = ground (arith, v) in
          let more : ltb (length (buf ++ e)) (header + 4 + len) ≡ false =
            ground (arith, length-append buf e) in
          let at_key = drop-append_le buf e header (omega arith) in
          let key = take-append_le (drop header buf) e 4 (omega (arith, length-drop header buf)) in
          let at_text = drop-append_le buf e (header + 4) (omega arith) in
          let text =
            take-append_le (drop (header + 4) buf) e len
              (omega (arith, length-drop (header + 4) buf)) in
          rw (ws_payload, t, u, v, more, at_key, key, at_text, text) refl
    ]
  ]
]

pub ws_decode_frame-append :
    (limit : ℕ) (buf e : List ℕ)
    → settled (ws_decode_frame limit buf) ≡ true
    → ws_decode_frame limit (buf ++ e) ≡ ws_decode_frame limit buf
unfolding ws_decode_frame
ws_decode_frame-append limit [] e h = absurd (ground arith)
ws_decode_frame-append limit (b0 ∷ []) e h = absurd (ground arith)
ws_decode_frame-append limit (b0 ∷ b1 ∷ rest) e h = elim (Bool-cases (not (b0 / 16 % 8 == 0))) [
  | inl t ↦ rw (t) refl
  | inr t ↦ elim (Option-cases (ws_length (b1 % 128) (b0 ∷ b1 ∷ rest))) [
    | inl n ↦ absurd (ground (arith, t, n))
    | inr ((len, header), n) ↦
        let later = ws_length-append (b1 % 128) (b0 ∷ b1 ∷ rest) e (len, header) n in
        rw (t, n, later)
          (ws_payload-append b0 b1 limit len header (b0 ∷ b1 ∷ rest) e (ground (arith, t, n)))
  ]
]
