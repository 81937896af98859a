-- ===== src/Server/WebSocket/Echo.antt =====
-- The replies of server/src/websocket.c in the write buffer.
use codo.Prelude.{
  ℕ, zero, suc, ◌+◌, ◌≤◌, ◌<◌, ◌≡◌, refl, sym, ap, subst, ◌∙◌, Bool, true, false, ◌||◌, List, [],
  ◌∷◌, ◌++◌, Bool-cases, inl, inr, ◌⊎◌, ltb, ◌==◌, arith, length, drop, length-append, drop-append,
  drop-append_self, if◌then◌else◌, append_nil,
}
use mathlib.Core.List.{append_assoc}
use codo.Common.Connection.{Buffer, max_response_size, conn_reserve_write}
use codo.Common.Connection.Growth.{
  IsWithin, IsReserved, conn_reserve_read-IsReserved, conn_reserve_read-succeeds,
  conn_reserve_write-read,
}
use codo.Server.WebSocket.{
  unmask, ws_header, ws_append_frame, ws_decode_frame, ws_handle_frame, process_from,
  ws_process_frames,
}
use codo.Server.WebSocket.Bytes.{unmask-twice, masked, length-masked, unmask-masked}
use codo.Server.WebSocket.Client.{
  Message, IsMessage, client_header, server_frame, ws_header-server_frame, client_frame, frame_size,
  length-client_frame, frame_of, ws_decode_frame-client_frame,
}
use codo.Server.WebSocket.Split.{process_from-fuel}

reserved :
    (grants : ℕ → Bool) (w : Buffer) (need : ℕ)
    → IsWithin max_response_size w
    → IsReserved w need max_response_size (conn_reserve_write grants w need)
reserved grants w need h =
    rw (conn_reserve_write-read grants w need)
      (conn_reserve_read-IsReserved grants w need max_response_size (omega arith) h)

-- A frame is appended whole or not at all, and never past the end of the write buffer.
pub ws_append_frame-IsWithin :
    (grants : ℕ → Bool) (w : Buffer) (opcode : ℕ) (payload : List ℕ)
    → IsWithin max_response_size w
    → IsWithin max_response_size (ws_append_frame grants w opcode payload).1
unfolding ws_append_frame
ws_append_frame-IsWithin grants w opcode payload h =
    let header = ws_header opcode (length payload) in
    let need = length w.used + length header + length payload in
    let (same, (within, (more, room))) = reserved grants w need h in
    elim (Bool-cases (conn_reserve_write grants w need).0) [
      | inl t ↦
          rw (ws_append_frame, t)
            (
              omega (
                arith,
                length-append (conn_reserve_write grants w need).1.used (header ++ payload),
                ap (λ l. length l) same,
                length-append header payload,
                (room t).0,
              ),
              within.1,
            )
      | inr t ↦ rw (ws_append_frame, t) within
    ]

-- With memory and room for it, a frame is appended.
ws_append_frame-appends :
    (grants : ℕ → Bool) (w : Buffer) (opcode : ℕ) (payload : List ℕ)
    → ((size : ℕ) → size ≤ max_response_size → grants size ≡ true)
    → IsWithin max_response_size w
    → length w.used + length (ws_header opcode (length payload) ++ payload) ≤ max_response_size
    → ((ws_append_frame grants w opcode payload).0 ≡ true)
      × ((ws_append_frame grants w opcode payload).1.used
          ≡ w.used ++ (ws_header opcode (length payload) ++ payload))
unfolding ws_append_frame
ws_append_frame-appends grants w opcode payload granted h fits =
    let header = ws_header opcode (length payload) in
    let need = length w.used + length header + length payload in
    let (same, _) = reserved grants w need h in
    let t : (conn_reserve_write grants w need).0 ≡ true =
      rw (conn_reserve_write-read grants w need) (
        conn_reserve_read-succeeds grants w need max_response_size (omega arith)
          (omega (arith, length-append header payload)) granted) in
    rw (ws_append_frame, t) (refl, ap (λ (l : List ℕ). l ++ (header ++ payload)) same)

-- What the server answers to a message: data is echoed, a ping is answered by a pong with its
-- payload, and a pong by nothing.
unfoldable pub reply : Message → List ℕ
reply m =
    if m.opcode == 1 || m.opcode == 2
    then server_frame m.opcode m.payload
    else (if m.opcode == 9 then server_frame 10 m.payload else [])

reply-echo :
    (m : Message)
    → (m.opcode == 1 || m.opcode == 2) ≡ true
    → reply m ≡ server_frame m.opcode m.payload
unfolding reply
reply-echo m code = rw (reply, code) refl

reply-ping :
    (m : Message)
    → (m.opcode == 1 || m.opcode == 2) ≡ false
    → (m.opcode == 9) ≡ true
    → reply m ≡ server_frame 10 m.payload
unfolding reply
reply-ping m no_data ping = rw (reply, no_data, ping) refl

reply-pong :
    (m : Message)
    → (m.opcode == 1 || m.opcode == 2) ≡ false
    → (m.opcode == 9) ≡ false
    → reply m ≡ []
unfolding reply
reply-pong m no_data no_ping = rw (reply, no_data, no_ping) refl

unfoldable pub replies : List Message → List ℕ
replies [] = []
replies (m ∷ ms) = reply m ++ replies ms

-- A message that does not end the conversation: whole data, a ping of a legal size, or a pong.
abbrev pub IsAnswered : Message → Type 0
IsAnswered m =
    (((m.opcode ≡ 1) ⊎ (m.opcode ≡ 2)) × (m.fin ≡ true))
    ⊎ (((m.opcode ≡ 9) × ((m.fin ≡ true) × (length m.payload ≤ 125))) ⊎ (m.opcode ≡ 10))

-- Messages that fit a read buffer of `limit` bytes.
abbrev pub AllAnswered : ℕ → List Message → Type 0
AllAnswered limit [] = Unit
AllAnswered limit (m ∷ ms) =
    (IsMessage m × ((frame_size m < limit) × IsAnswered m)) × AllAnswered limit ms

unfoldable pub frames : List Message → List ℕ → List ℕ
frames [] rest = rest
frames (m ∷ ms) rest = client_frame m (frames ms rest)

-- What one message leaves: no close, and the reply appended.
abbrev IsReplied : Buffer → Message → Bool × Buffer → Type 0
IsReplied w m r = (r.0 ≡ false) × ((r.1.used ≡ w.used ++ reply m) × IsWithin max_response_size r.1)

ws_handle_frame-IsReplied :
    (grants : ℕ → Bool) (w : Buffer) (m : Message)
    → ((size : ℕ) → size ≤ max_response_size → grants size ≡ true)
    → IsWithin max_response_size w
    → IsAnswered m
    → length w.used + length (reply m) ≤ max_response_size
    → IsReplied w m (ws_handle_frame grants w (frame_of m) m.payload)
unfolding ws_handle_frame
ws_handle_frame-IsReplied grants w m granted h (inl (op, fin)) fits =
    let code : (m.opcode == 1 || m.opcode == 2) ≡ true = elim op [
      | inl e ↦ ground arith
      | inr e ↦ ground arith
    ] in
    let the_reply : reply m ≡ ws_header m.opcode (length m.payload) ++ m.payload =
      reply-echo m code ∙ sym (ws_header-server_frame m.opcode m.payload) in
    let room : length w.used + length (ws_header m.opcode (length m.payload) ++ m.payload)
        ≤ max_response_size =
      omega (arith, ap (λ l. length l) the_reply) in
    let (t, used) = ws_append_frame-appends grants w m.opcode m.payload granted h room in
    rw (reply-echo m code, ws_handle_frame, code, fin, t)
      (
        refl,
        (
          used ∙ ap (◌++◌ w.used) (ws_header-server_frame m.opcode m.payload),
          ws_append_frame-IsWithin grants w m.opcode m.payload h,
        ),
      )
ws_handle_frame-IsReplied grants w m granted h (inr (inl (op, (fin, small)))) fits =
    let no_data : (m.opcode == 1 || m.opcode == 2) ≡ false = ground arith in
    let ping : (m.opcode == 9) ≡ true = ground arith in
    let short : ltb 125 (length m.payload) ≡ false = ground arith in
    let the_reply : reply m ≡ ws_header 10 (length m.payload) ++ m.payload =
      reply-ping m no_data ping ∙ sym (ws_header-server_frame 10 m.payload) in
    let room : length w.used + length (ws_header 10 (length m.payload) ++ m.payload)
        ≤ max_response_size =
      omega (arith, ap (λ l. length l) the_reply) in
    let (t, used) = ws_append_frame-appends grants w 10 m.payload granted h room in
    rw (reply-ping m no_data ping, ws_handle_frame, no_data, ping, fin, short)
      (
        refl,
        (
          used ∙ ap (◌++◌ w.used) (ws_header-server_frame 10 m.payload),
          ws_append_frame-IsWithin grants w 10 m.payload h,
        ),
      )
ws_handle_frame-IsReplied grants w m granted h (inr (inr op)) fits =
    let no_data : (m.opcode == 1 || m.opcode == 2) ≡ false = ground arith in
    let no_ping : (m.opcode == 9) ≡ false = ground arith in
    let pong : (m.opcode == 10) ≡ true = ground arith in
    rw (reply-pong m no_data no_ping, ws_handle_frame, no_data, no_ping, pong)
      (refl, (sym (append_nil w.used), h))

drop-client_frame :
    (m : Message) (rest : List ℕ) → IsMessage m → drop (frame_size m) (client_frame m rest) ≡ rest
unfolding client_frame frame_size
drop-client_frame m rest (_, (four, _)) =
    let len = length m.payload in
    let text = masked m.mask m.payload in
    drop-append (client_header m) (m.mask ++ (text ++ rest)) (length (client_header m) + 4 + len)
      (4 + len) (omega arith)
    ∙ drop-append m.mask (text ++ rest) (4 + len) len (omega arith)
    ∙ drop-append_self text rest len (sym (length-masked m.mask m.payload))

frame_size-positive : (m : Message) → 0 < frame_size m
unfolding frame_size
frame_size-positive m = omega arith

process_from-frames :
    (n : ℕ) (grants : ℕ → Bool) (limit : ℕ) (w : Buffer) (ms : List Message) (rest : List ℕ)
    → ((size : ℕ) → size ≤ max_response_size → grants size ≡ true)
    → AllAnswered limit ms
    → IsWithin max_response_size w
    → length w.used + length (replies ms) ≤ max_response_size
    → length (frames ms rest) < n
    → (w' : Buffer) × ((process_from n grants limit w (frames ms rest)
          ≡ ws_process_frames grants limit w' rest)
        × ((w'.used ≡ w.used ++ replies ms) × IsWithin max_response_size w'))
unfolding process_from ws_process_frames frames replies
process_from-frames zero grants limit w ms rest granted hs h fits hn = absurd (omega arith)
process_from-frames (suc n) grants limit w [] rest granted hs h fits hn = (
  w,
  (
    process_from-fuel (suc n) (suc (length rest)) grants limit w rest hn (omega arith),
    (sym (append_nil w.used), h),
  ),
)
process_from-frames (suc n) grants limit w (m ∷ ms) rest granted ((legal, (small, answered)), hs) h
      fits hn =
    let next = frames ms rest in
    let d = ws_decode_frame-client_frame limit m next legal small in
    let twice : unmask m.mask 0 (masked m.mask m.payload) ≡ m.payload =
      ap (unmask m.mask 0) (sym (unmask-masked m.mask m.payload legal.1.0))
      ∙ unmask-twice m.mask 0 m.payload legal.1.1.1 in
    let text = unmask m.mask 0 (masked m.mask m.payload) in
    let r = ws_handle_frame grants w (frame_of m) text in
    let both = length-append (reply m) (replies ms) in
    let replied : IsReplied w m r =
      subst (λ t. IsReplied w m (ws_handle_frame grants w (frame_of m) t)) (sym twice)
        (ws_handle_frame-IsReplied grants w m granted h answered (omega arith)) in
    let (stays, (used, within)) = replied in
    let size = length-client_frame m next legal in
    let six : 0 < frame_size m = frame_size-positive m in
    let total : length r.1.used ≡ length w.used + length (reply m) =
      ap (λ l. length l) used ∙ length-append w.used (reply m) in
    let (w', (same, (used', within'))) =
      process_from-frames n grants limit r.1 ms rest granted hs within (omega arith)
        (omega arith) in
    (
      w',
      (
        rw (process_from, d, stays, drop-client_frame m next legal) same,
        (
          used'
              ∙ ap (λ (l : List ℕ). l ++ replies ms) used
              ∙ append_assoc w.used (reply m) (replies ms),
          within',
        ),
      ),
    )

-- A conversation of whole messages, masked as RFC 6455 says and each fitting the read buffer, is
-- answered message by message in order, in whole unmasked frames with the length in network order,
-- when memory is granted and the answers fit the write buffer. The buffer is left empty and the
-- connection open.
pub ws_process_frames-replies :
    (grants : ℕ → Bool) (limit : ℕ) (w : Buffer) (ms : List Message)
    → ((size : ℕ) → size ≤ max_response_size → grants size ≡ true)
    → AllAnswered limit ms
    → IsWithin max_response_size w
    → length w.used + length (replies ms) ≤ max_response_size
    → ((ws_process_frames grants limit w (frames ms [])).left ≡ [])
      × (((ws_process_frames grants limit w (frames ms [])).should_close ≡ false)
          × ((ws_process_frames grants limit w (frames ms [])).write.used ≡ w.used ++ replies ms))
unfolding ws_process_frames process_from ws_decode_frame
ws_process_frames-replies grants limit w ms granted hs h fits =
    let (w', (same, (used, _))) =
      process_from-frames (suc (length (frames ms []))) grants limit w ms [] granted hs h fits
        (omega arith) in
    rw (ws_process_frames, same) (refl, (refl, used))
