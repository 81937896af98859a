-- ===== src/Tests/Frames.antt =====
-- server/src/websocket.c at short frames.
use codo.Prelude.{◌+◌, ◌≤◌, ◌<◌, ◌≡◌, refl, true, false, [], ◌∷◌, ◌++◌, inl, inr, arith, length}
use codo.Common.Connection.{Buffer, max_response_size}
use codo.Server.WebSocket.{ws_process_frames}
use codo.Server.WebSocket.Client.{
  Message, short_length, long_length, client_header, server_frame, frame_size,
}
use codo.Server.WebSocket.Echo.{reply, replies, frames, ws_process_frames-replies}
use codo.Server.WebSocket.Split.{then_process, ws_process_frames-append}

abbrev empty_buffer : Buffer
empty_buffer = record { allocated = false; cap = 0; used = [] }

-- The text "hello" and an empty ping.
abbrev hello : Message
hello = record {
  fin = true;
  opcode = 1;
  mask = 1 ∷ 2 ∷ 3 ∷ 4 ∷ [];
  payload = b'h' ∷ b'e' ∷ b'l' ∷ b'l' ∷ b'o' ∷ [];
}

abbrev ping : Message
ping = record { fin = true; opcode = 9; mask = 5 ∷ 6 ∷ 7 ∷ 8 ∷ []; payload = [] }

hello-small : frame_size hello < 64
unfolding frame_size client_header short_length long_length
hello-small = omega arith

ping-small : frame_size ping < 64
unfolding frame_size client_header short_length long_length
ping-small = omega arith

answers-small : 0 + length (replies (hello ∷ ping ∷ [])) ≤ max_response_size
unfolding replies reply server_frame short_length long_length
answers-small = omega arith

ws_process_frames-replies_example :
    ((ws_process_frames (λ size. true) 64 empty_buffer (frames (hello ∷ ping ∷ []) [])).left ≡ [])
    × (((ws_process_frames
            (λ size. true)
            64
            empty_buffer
            (frames (hello ∷ ping ∷ []) [])).should_close
          ≡ false)
        × ((ws_process_frames
              (λ size. true)
              64
              empty_buffer
              (frames (hello ∷ ping ∷ []) [])).write.used
            ≡ [] ++ replies (hello ∷ ping ∷ [])))
ws_process_frames-replies_example =
    ws_process_frames-replies (λ size. true) 64 empty_buffer (hello ∷ ping ∷ []) (λ size h. refl)
      (
        (
          (
            omega arith,
            (
              refl,
              (
                omega arith,
                (omega arith, (omega arith, (omega arith, (omega arith, (omega arith, tt))))),
              ),
            ),
          ),
          (hello-small, inl (inl refl, refl)),
        ),
        (
          (
            (omega arith, (refl, (omega arith, tt))),
            (ping-small, inr (inl (refl, (refl, omega arith)))),
          ),
          tt,
        ),
      )
      (omega arith, omega arith) answers-small

-- A masked ping, cut behind its second byte.
ws_process_frames-append_example :
    ws_process_frames (λ size. true) 64 empty_buffer ((137 ∷ 128 ∷ []) ++ (5 ∷ 6 ∷ 7 ∷ 8 ∷ []))
    ≡ then_process
        (λ size. true)
        64
        (ws_process_frames (λ size. true) 64 empty_buffer (137 ∷ 128 ∷ []))
        (5 ∷ 6 ∷ 7 ∷ 8 ∷ [])
ws_process_frames-append_example =
    ws_process_frames-append (λ size. true) 64 empty_buffer (137 ∷ 128 ∷ []) (5 ∷ 6 ∷ 7 ∷ 8 ∷ [])
