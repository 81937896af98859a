-- ===== src/Server/WebSocket/Split.antt =====
-- The loop over the frames in server/src/websocket.c: it ends, and it does not matter how the bytes
-- were cut into reads.
use codo.Prelude.{
  ℕ, zero, suc, ◌+◌, ◌-◌, ◌/◌, ◌%◌, ◌≤◌, ◌<◌, ◌≡◌, refl, ap, sym, subst, ◌∙◌, Bool, true, false,
  ◌||◌, not, some, List, [], ◌∷◌, ◌++◌, Bool-cases, Option-cases, inl, inr, ◌⊎◌, ltb, ◌==◌, arith,
  length, drop, length-append, length-drop, drop-append_le,
}
use codo.Common.Connection.{Buffer}
use codo.Server.WebSocket.{
  unmask, WsFrame, Decoding, decoded, need_more, violation, ws_length, ws_payload, ws_decode_frame,
  ws_append_close, ws_handle_frame, Processed, process_from, ws_process_frames,
}
use codo.Server.WebSocket.Extend.{ws_decode_frame-append}

pub Decoding-cases :
    (r : Decoding)
    → (r ≡ need_more)
      ⊎ (((code : ℕ) × (r ≡ violation code)) ⊎ ((frame : WsFrame) × (r ≡ decoded frame)))
Decoding-cases need_more = inl refl
Decoding-cases (violation code) = inr (inl (code, refl))
Decoding-cases (decoded frame) = inr (inr (frame, refl))

ws_length-header :
    (len header : ℕ) (buf : List ℕ) (n : ℕ) → ws_length n buf ≡ some (len, header) → 2 ≤ header
unfolding ws_length
ws_length-header len header buf n h = ground arith

-- A frame takes its two bytes and its key at least, and lies within the buffer.
abbrev Fits : List ℕ → Decoding → Type 0
Fits buf (decoded frame) = (6 ≤ frame.frame_end) × (frame.frame_end ≤ length buf)
Fits buf need_more = Unit
Fits buf (violation code) = Unit

ws_payload-Fits :
    (b0 b1 limit len header : ℕ) (buf : List ℕ)
    → 2 ≤ header
    → Fits buf (ws_payload b0 b1 limit buf len header)
unfolding ws_payload
ws_payload-Fits b0 b1 limit len header buf h = elim (Bool-cases (ltb b1 128)) [
  | inl t ↦ rw (ws_payload, t) tt
  | inr t ↦ elim (Bool-cases (ltb limit (header + 4 + 1) || ltb (limit - 1 - header - 4) len)) [
    | inl u ↦ rw (ws_payload, t, u) tt
    | inr u ↦ elim (Bool-cases (ltb (length buf) (header + 4 + len))) [
      | inl v ↦ rw (ws_payload, t, u, v) tt
      | inr v ↦ rw (ws_payload, t, u, v) (omega arith, ground (arith, v))
    ]
  ]
]

pub ws_decode_frame-Fits : (limit : ℕ) (buf : List ℕ) → Fits buf (ws_decode_frame limit buf)
unfolding ws_decode_frame
ws_decode_frame-Fits limit [] = tt
ws_decode_frame-Fits limit (b0 ∷ []) = tt
ws_decode_frame-Fits limit (b0 ∷ b1 ∷ rest) = elim (Bool-cases (not (b0 / 16 % 8 == 0))) [
  | inl t ↦ rw (t) tt
  | inr t ↦ elim (Option-cases (ws_length (b1 % 128) (b0 ∷ b1 ∷ rest))) [
    | inl n ↦ rw (t, n) tt
    | inr ((len, header), n) ↦
        rw (t, n)
          (ws_payload-Fits b0 b1 limit len header (b0 ∷ b1 ∷ rest)
            (ws_length-header len header (b0 ∷ b1 ∷ rest) (b1 % 128) n))
  ]
]

decoded-Fits :
    (limit : ℕ) (buf : List ℕ) (frame : WsFrame)
    → ws_decode_frame limit buf ≡ decoded frame
    → (6 ≤ frame.frame_end) × (frame.frame_end ≤ length buf)
decoded-Fits limit buf frame h = subst (Fits buf) h (ws_decode_frame-Fits limit buf)

-- The fuel never runs out: any above the length of the buffer gives the same result.
pub process_from-fuel :
    (n m : ℕ) (grants : ℕ → Bool) (limit : ℕ) (w : Buffer) (buf : List ℕ)
    → length buf < n
    → length buf < m
    → process_from n grants limit w buf ≡ process_from m grants limit w buf
unfolding process_from
process_from-fuel zero m grants limit w buf hn hm = absurd (omega arith)
process_from-fuel (suc n) zero grants limit w buf hn hm = absurd (omega arith)
process_from-fuel (suc n) (suc m) grants limit w buf hn hm =
    elim (Decoding-cases (ws_decode_frame limit buf)) [
      | inl d ↦ rw (process_from, d) refl
      | inr (inl (code, d)) ↦ rw (process_from, d) refl
      | inr (inr (frame, d)) ↦
          let (six, within) = decoded-Fits limit buf frame d in
          let less = length-drop frame.frame_end buf in
          let r = ws_handle_frame grants w frame (unmask frame.mask 0 frame.payload) in
          elim (Bool-cases r.0) [
            | inl c ↦ rw (process_from, d, c) refl
            | inr c ↦
                rw (process_from, d, c)
                  (process_from-fuel n m grants limit r.1 (drop frame.frame_end buf) (omega arith)
                    (omega arith))
          ]
    ]

-- What a second read adds to what the first one left.
unfoldable pub then_process : (ℕ → Bool) → ℕ → Processed → List ℕ → Processed
then_process grants limit r e = elim r.should_close [
  | true ↦ record r { left = r.left ++ e }
  | false ↦ ws_process_frames grants limit r.write (r.left ++ e)
]

process_from-append :
    (n m : ℕ) (grants : ℕ → Bool) (limit : ℕ) (w : Buffer) (buf e : List ℕ)
    → length buf < n
    → length (buf ++ e) < m
    → process_from m grants limit w (buf ++ e)
      ≡ then_process grants limit (process_from n grants limit w buf) e
unfolding process_from then_process ws_process_frames
process_from-append zero m grants limit w buf e hn hm = absurd (omega arith)
process_from-append (suc n) zero grants limit w buf e hn hm = absurd (omega arith)
process_from-append (suc n) (suc m) grants limit w buf e hn hm =
    elim (Decoding-cases (ws_decode_frame limit buf)) [
      | inl d ↦
          after (record { left = buf; write = w; should_close = false })
            (process_from-fuel (suc m) (suc (length (buf ++ e))) grants limit w (buf ++ e) hm
              (omega arith))
            (rw (process_from, d) refl)
      | inr (inl (code, d)) ↦
          let d' : ws_decode_frame limit (buf ++ e) ≡ violation code =
            ws_decode_frame-append limit buf e (rw (d) refl) ∙ d in
          after (record { left = buf; write = ws_append_close grants w code; should_close = true })
            (rw (process_from, d') refl) (rw (process_from, d) refl)
      | inr (inr (frame, d)) ↦
          let d' : ws_decode_frame limit (buf ++ e) ≡ decoded frame =
            ws_decode_frame-append limit buf e (rw (d) refl) ∙ d in
          let (six, within) = decoded-Fits limit buf frame d in
          let less = length-drop frame.frame_end buf in
          let total = length-append buf e in
          let total' = length-append (drop frame.frame_end buf) e in
          let behind = drop-append_le buf e frame.frame_end within in
          let r = ws_handle_frame grants w frame (unmask frame.mask 0 frame.payload) in
          elim (Bool-cases r.0) [
            | inl c ↦
                after (record { left = drop frame.frame_end buf; write = r.1; should_close = true })
                  (rw (process_from, d', c, behind) refl) (rw (process_from, d, c) refl)
            | inr c ↦
                after (process_from n grants limit r.1 (drop frame.frame_end buf))
                  (rw (process_from, d', c, behind)
                    (process_from-append n m grants limit r.1 (drop frame.frame_end buf) e
                      (omega arith) (omega arith)))
                  (rw (process_from, d, c) refl)
          ]
    ]
  where
    after :
        {x : Processed} (r : Processed)
        → x ≡ then_process grants limit r e
        → process_from (suc n) grants limit w buf ≡ r
        → x ≡ then_process grants limit (process_from (suc n) grants limit w buf) e
    after r whole first = whole ∙ sym (ap (λ r. then_process grants limit r e) first)

-- Frames that arrive in two reads are answered as if they had arrived in one, wherever the bytes
-- were cut: within a header, a key or a payload.
pub ws_process_frames-append :
    (grants : ℕ → Bool) (limit : ℕ) (w : Buffer) (buf e : List ℕ)
    → ws_process_frames grants limit w (buf ++ e)
      ≡ then_process grants limit (ws_process_frames grants limit w buf) e
unfolding ws_process_frames
ws_process_frames-append grants limit w buf e =
    process_from-append (suc (length buf)) (suc (length (buf ++ e))) grants limit w buf e
      (omega arith) (omega arith)
