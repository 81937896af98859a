-- ===== src/Server/WebSocket.antt =====
-- The WebSocket frames of server/src/websocket.c. A byte is a number below 256; the part of the read
-- buffer from an offset on is the list of its bytes.
pub mod Bytes
pub mod Client
pub mod Extend
pub mod Echo
pub mod Split
use codo.Prelude.{
  ℕ, zero, suc, ◌+◌, ◌-◌, ◌*◌, ◌/◌, ◌%◌, ◌^◌, Bool, true, false, ◌||◌, not, Option, none, some,
  List, [], ◌∷◌, ◌++◌, ltb, leb, ◌==◌, if◌then◌else◌, length, take, drop, get_or,
}
use codo.Common.Connection.{Buffer, conn_reserve_write}

abbrev pub ws_op_text : ℕ
ws_op_text = 1

abbrev pub ws_op_binary : ℕ
ws_op_binary = 2

abbrev pub ws_op_close : ℕ
ws_op_close = 8

abbrev pub ws_op_ping : ℕ
ws_op_ping = 9

abbrev pub ws_op_pong : ℕ
ws_op_pong = 10

abbrev pub ws_close_normal : ℕ
ws_close_normal = 1000

abbrev pub ws_close_protocol_error : ℕ
ws_close_protocol_error = 1002

abbrev pub ws_close_unsupported_data : ℕ
ws_close_unsupported_data = 1003

abbrev pub ws_close_message_too_big : ℕ
ws_close_message_too_big = 1009

-- `count` bytes of a number, the most significant first.
unfoldable pub big_endian : ℕ → ℕ → List ℕ
big_endian zero n = []
big_endian (suc count) n = n / 256 ^ count % 256 ∷ big_endian count n

-- `len = (len << 8) | b` over the bytes.
unfoldable pub from_bytes : ℕ → List ℕ → ℕ
from_bytes acc [] = acc
from_bytes acc (b ∷ p) = from_bytes (acc * 256 + b) p

-- The exclusive or of the `bits` low bits.
unfoldable pub xor_bits : ℕ → ℕ → ℕ → ℕ
xor_bits zero a b = 0
xor_bits (suc bits) a b = (a % 2 + b % 2) % 2 + 2 * xor_bits bits (a / 2) (b / 2)

-- The loop that unmasks the payload, from index `i` on.
unfoldable pub unmask : List ℕ → ℕ → List ℕ → List ℕ
unmask mask i [] = []
unmask mask i (c ∷ p) = xor_bits 8 c (get_or mask (i % 4) 0) ∷ unmask mask (i + 1) p

-- The header that `ws_append_frame` builds.
unfoldable pub ws_header : ℕ → ℕ → List ℕ
ws_header opcode len =
    if ltb len 126
    then (128 + opcode) ∷ len ∷ []
    else (if leb len 65535
        then (128 + opcode) ∷ 126 ∷ big_endian 2 len
        else (128 + opcode) ∷ 127 ∷ big_endian 8 len)

-- The write buffer after a frame was appended, with whether it was.
unfoldable pub ws_append_frame : (ℕ → Bool) → Buffer → ℕ → List ℕ → Bool × Buffer
ws_append_frame grants w opcode payload =
    let header = ws_header opcode (length payload) in
    let (room, w) = conn_reserve_write grants w (length w.used + length header + length payload) in
    if room then (true, record w { used = w.used ++ (header ++ payload) }) else (false, w)

unfoldable pub ws_append_close : (ℕ → Bool) → Buffer → ℕ → Buffer
ws_append_close grants w code =
    let (appended, w) = ws_append_frame grants w ws_op_close (code / 256 % 256 ∷ code % 256 ∷ []) in
    w

-- `ws_frame_t`, with the masked payload in place of its offset.
pub record WsFrame : Type 0 where
  pub fin : Bool
  pub opcode : ℕ
  pub mask : List ℕ
  pub payload : List ℕ
  pub frame_end : ℕ

-- 1, 0, and -1 with `*close_code`.
pub data Decoding : Type 0 where
  decoded : WsFrame → Decoding
  need_more : Decoding
  violation : ℕ → Decoding

-- The length of the payload and of the header: `none` when bytes of the length are missing.
unfoldable pub ws_length : ℕ → List ℕ → Option (ℕ × ℕ)
ws_length len buf =
    if len == 126
    then (if ltb (length buf) 4 then none else some (from_bytes 0 (take 2 (drop 2 buf)), 4))
    else (if len == 127
        then (if ltb (length buf) 10 then none else some (from_bytes 0 (take 8 (drop 2 buf)), 10))
        else some (len, 2))

-- What follows the length: the limit of the buffer, the masking key and the payload.
unfoldable pub ws_payload : ℕ → ℕ → ℕ → List ℕ → ℕ → ℕ → Decoding
ws_payload b0 b1 cap buf len header =
    if ltb b1 128
    then violation ws_close_protocol_error
    else (if ltb cap (header + 4 + 1) || ltb (cap - 1 - header - 4) len
        then violation ws_close_message_too_big
        else (if ltb (length buf) (header + 4 + len)
            then need_more
            else decoded (record {
              fin = leb 128 b0;
              opcode = b0 % 16;
              mask = take 4 (drop header buf);
              payload = take len (drop (header + 4) buf);
              frame_end = header + 4 + len;
            })))

unfoldable pub ws_decode_frame : ℕ → List ℕ → Decoding
ws_decode_frame cap [] = need_more
ws_decode_frame cap (b0 ∷ []) = need_more
ws_decode_frame cap (b0 ∷ b1 ∷ rest) =
    if not (b0 / 16 % 8 == 0)
    then violation ws_close_protocol_error
    else (elim (ws_length (b1 % 128) (b0 ∷ b1 ∷ rest)) [
      | none ↦ need_more
      | some (len, header) ↦ ws_payload b0 b1 cap (b0 ∷ b1 ∷ rest) len header
    ])

-- The status that a Close frame carries.
abbrev pub close_status : List ℕ → ℕ
close_status [] = ws_close_normal
close_status (a ∷ []) = ws_close_normal
close_status (a ∷ b ∷ rest) = a * 256 + b

-- Whether the connection is to be shut down, and the write buffer.
unfoldable pub ws_handle_frame : (ℕ → Bool) → Buffer → WsFrame → List ℕ → Bool × Buffer
ws_handle_frame grants w frame payload =
    if frame.opcode == ws_op_text || frame.opcode == ws_op_binary
    then (if not frame.fin
        then (true, ws_append_close grants w ws_close_unsupported_data)
        else (let (appended, w) = ws_append_frame grants w frame.opcode payload in
            if appended
            then (false, w)
            else (true, ws_append_close grants w ws_close_message_too_big)))
    else (if frame.opcode == ws_op_ping
        then (if not frame.fin || ltb 125 (length payload)
            then (true, ws_append_close grants w ws_close_protocol_error)
            else (let (appended, w) = ws_append_frame grants w ws_op_pong payload in (false, w)))
        else (if frame.opcode == ws_op_pong
            then (false, w)
            else (if frame.opcode == ws_op_close
                then (true, ws_append_close grants w (close_status payload))
                else (true, ws_append_close grants w ws_close_protocol_error))))

-- What is left of the read buffer, the write buffer, and `*should_close`.
pub record Processed : Type 0 where
  pub left : List ℕ
  pub write : Buffer
  pub should_close : Bool

-- The loop over the frames of a read buffer of capacity `cap`. A frame takes six bytes at least, so
-- that fuel for the buffer is enough.
unfoldable pub process_from : ℕ → (ℕ → Bool) → ℕ → Buffer → List ℕ → Processed
process_from zero grants cap w buf = record { left = buf; write = w; should_close = false }
process_from (suc n) grants cap w buf = elim (ws_decode_frame cap buf) [
  | need_more ↦ record { left = buf; write = w; should_close = false }
  | violation code ↦ record {
    left = buf;
    write = ws_append_close grants w code;
    should_close = true;
  }
  | decoded frame ↦
      let (close, w) = ws_handle_frame grants w frame (unmask frame.mask 0 frame.payload) in
      elim close [
        | true ↦ record { left = drop frame.frame_end buf; write = w; should_close = true }
        | false ↦ process_from n grants cap w (drop frame.frame_end buf)
      ]
]

unfoldable pub ws_process_frames : (ℕ → Bool) → ℕ → Buffer → List ℕ → Processed
ws_process_frames grants cap w buf = process_from (suc (length buf)) grants cap w buf
