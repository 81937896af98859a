-- ===== src/Server/WebSocket/Client.antt =====
-- The frames that a client sends (RFC 6455, section 5.2), and that server/src/websocket.c reads them
-- back.
use codo.Prelude.{
  ℕ, ◌+◌, ◌-◌, ◌/◌, ◌%◌, ◌≤◌, ◌<◌, ◌≡◌, refl, ap, ap₂, ◌∙◌, sym, Bool, true, false, ◌||◌, some,
  List, [], ◌∷◌, ◌++◌, Bool-cases, inl, inr, ltb, leb, ◌==◌, arith, if◌then◌else◌, length, drop,
  length-append, drop-append, take-append_self, drop-append_self,
}
use codo.Server.WebSocket.{ws_header, WsFrame, decoded, ws_length, ws_payload, ws_decode_frame}
use codo.Server.WebSocket.Bytes.{
  AllBytes, masked, length-masked, octets_2, octets_8, big_endian_2-octets, big_endian_8-octets,
  from_bytes-octets_2, from_bytes-octets_8,
}

pub record Message : Type 0 where
  pub fin : Bool
  pub opcode : ℕ
  pub mask : List ℕ
  pub payload : List ℕ

abbrev pub IsMessage : Message → Type 0
IsMessage m =
    (m.opcode < 16)
    × ((length m.mask ≡ 4) × ((length m.payload < 9223372036854775808) × AllBytes m.payload))

-- The seven bits of the length, and the bytes that extend them.
unfoldable pub short_length : ℕ → ℕ
short_length len = if ltb len 126 then len else (if ltb len 65536 then 126 else 127)

unfoldable pub long_length : ℕ → List ℕ
long_length len = if ltb len 126 then [] else (if ltb len 65536 then octets_2 len else octets_8 len)

abbrev pub first_byte : Message → ℕ
first_byte m = (if m.fin then 128 else 0) + m.opcode

unfoldable pub client_header : Message → List ℕ
client_header m =
    first_byte m ∷ (128 + short_length (length m.payload)) ∷ long_length (length m.payload)

-- The frame of a server, which masks nothing and sends its messages whole: the FIN bit and the
-- opcode, the length, the text.
unfoldable pub server_frame : ℕ → List ℕ → List ℕ
server_frame opcode text =
    (128 + opcode) ∷ short_length (length text) ∷ (long_length (length text) ++ text)

pub ws_header-server_frame :
    (opcode : ℕ) (text : List ℕ) → ws_header opcode (length text) ++ text ≡ server_frame opcode text
unfolding ws_header server_frame short_length long_length
ws_header-server_frame opcode text = elim (Bool-cases (ltb (length text) 126)) [
  | inl t ↦ rw (ws_header, server_frame, short_length, long_length, t) refl
  | inr t ↦ elim (Bool-cases (ltb (length text) 65536)) [
    | inl u ↦
        let v : leb (length text) 65535 ≡ true = ground (arith, u) in
        rw (ws_header, server_frame, short_length, long_length, t, u, v)
          (ap (λ (l : List ℕ). (128 + opcode) ∷ 126 ∷ (l ++ text))
            (big_endian_2-octets (length text)))
    | inr u ↦
        let v : leb (length text) 65535 ≡ false = ground (arith, u) in
        rw (ws_header, server_frame, short_length, long_length, t, u, v)
          (ap (λ (l : List ℕ). (128 + opcode) ∷ 127 ∷ (l ++ text))
            (big_endian_8-octets (length text)))
  ]
]

-- The frame, then `rest`.
unfoldable pub client_frame : Message → List ℕ → List ℕ
client_frame m rest = client_header m ++ (m.mask ++ (masked m.mask m.payload ++ rest))

-- The size of a frame on the wire.
unfoldable pub frame_size : Message → ℕ
frame_size m = length (client_header m) + 4 + length m.payload

pub length-client_frame :
    (m : Message) (rest : List ℕ)
    → IsMessage m
    → length (client_frame m rest) ≡ frame_size m + length rest
unfolding client_frame frame_size
length-client_frame m rest (_, (four, _)) =
    let text = masked m.mask m.payload in
    omega (
      arith,
      length-append (client_header m) (m.mask ++ (text ++ rest)),
      length-append m.mask (text ++ rest),
      length-append text rest,
      length-masked m.mask m.payload,
      four,
    )

ws_length-client_frame :
    (m : Message) (rest : List ℕ)
    → IsMessage m
    → ws_length (short_length (length m.payload)) (client_frame m rest)
      ≡ some (length m.payload, length (client_header m))
unfolding client_frame client_header short_length long_length ws_length octets_2 octets_8
ws_length-client_frame m rest (_, (four, (small, _))) =
    let len = length m.payload in
    let behind = m.mask ++ (masked m.mask m.payload ++ rest) in
    elim (Bool-cases (ltb len 126)) [
      | inl t ↦
          let a : (len == 126) ≡ false = ground (arith, t) in
          let b : (len == 127) ≡ false = ground (arith, t) in rw (t, a, b) refl
      | inr t ↦ elim (Bool-cases (ltb len 65536)) [
        | inl u ↦
            let enough : ltb (length (first_byte m ∷ (128 + 126) ∷ (octets_2 len ++ behind))) 4
                ≡ false =
              ground (arith, length-append (octets_2 len) behind) in
            let bytes = take-append_self (octets_2 len) behind 2 refl in
            rw (t, u, enough, bytes, from_bytes-octets_2 len (ground (arith, u))) refl
        | inr u ↦
            let enough : ltb (length (first_byte m ∷ (128 + 127) ∷ (octets_8 len ++ behind))) 10
                ≡ false =
              ground (arith, length-append (octets_8 len) behind) in
            let bytes = take-append_self (octets_8 len) behind 8 refl in
            rw (t, u, enough, bytes, from_bytes-octets_8 len (omega arith)) refl
      ]
    ]

-- A header, a key and a payload that are all there and fit the buffer are taken apart.
ws_payload-fits :
    (b0 b1 limit len : ℕ) (head key text rest : List ℕ)
    → length text ≡ len
    → 128 ≤ b1
    → length key ≡ 4
    → length head + 4 + len < limit
    → ws_payload b0 b1 limit (head ++ (key ++ (text ++ rest))) len (length head)
      ≡ decoded (record {
        fin = leb 128 b0;
        opcode = b0 % 16;
        mask = key;
        payload = text;
        frame_end = length head + 4 + len;
      })
unfolding ws_payload
ws_payload-fits b0 b1 limit len head key text rest same masked four fits =
    let buf = head ++ (key ++ (text ++ rest)) in
    let fresh : ltb b1 128 ≡ false = ground arith in
    let room : (ltb limit (length head + 4 + 1) || ltb (limit - 1 - length head - 4) len) ≡ false =
      ground arith in
    let arrived : ltb (length buf) (length head + 4 + len) ≡ false = ground (
      arith,
      length-append head (key ++ (text ++ rest)),
      length-append key (text ++ rest),
      length-append text rest,
    ) in
    let at_key = drop-append_self head (key ++ (text ++ rest)) (length head) refl in
    let the_key = take-append_self key (text ++ rest) 4 (sym four) in
    let at_text : drop (length head + 4) buf ≡ text ++ rest =
      drop-append head (key ++ (text ++ rest)) (length head + 4) 4 refl
      ∙ drop-append_self key (text ++ rest) 4 (sym four) in
    let the_text = take-append_self text rest len (sym same) in
    rw (ws_payload, fresh, room, arrived, at_key, the_key, at_text, the_text) refl

-- The frame that the decoder makes of a client's message.
abbrev pub frame_of : Message → WsFrame
frame_of m = record {
  fin = m.fin;
  opcode = m.opcode;
  mask = m.mask;
  payload = masked m.mask m.payload;
  frame_end = frame_size m;
}

first_byte-bits :
    (fin : Bool) (op : ℕ)
    → op < 16
    → ((((if fin then 128 else 0) + op) / 16 % 8 == 0) ≡ true)
      × ((leb 128 ((if fin then 128 else 0) + op) ≡ fin)
          × (((if fin then 128 else 0) + op) % 16 ≡ op))
first_byte-bits true op h = (ground arith, (ground arith, omega arith))
first_byte-bits false op h = (ground arith, (ground arith, omega arith))

short_length-bits : (len : ℕ) → (128 + short_length len) % 128 ≡ short_length len
unfolding short_length
short_length-bits len = ground arith

-- A client's frame that fits the read buffer is decoded to the message, whatever follows it.
pub ws_decode_frame-client_frame :
    (limit : ℕ) (m : Message) (rest : List ℕ)
    → IsMessage m
    → frame_size m < limit
    → ws_decode_frame limit (client_frame m rest) ≡ decoded (frame_of m)
unfolding ws_decode_frame client_frame client_header frame_size
ws_decode_frame-client_frame limit m rest h fits =
    let len = length m.payload in
    let b1 = 128 + short_length len in
    let (reserved, (fin, op)) = first_byte-bits m.fin m.opcode h.0 in
    let text = masked m.mask m.payload in
    let same = length-masked m.mask m.payload in
    let whole : ws_payload (first_byte m) b1 limit (client_frame m rest) len
          (length (client_header m))
        ≡ decoded (frame_of m) =
      ws_payload-fits (first_byte m) b1 limit len (client_header m) m.mask text rest same
        (omega arith) h.1.0 fits
      ∙ ap₂ (λ (f : Bool) (o : ℕ). decoded (record (frame_of m) { fin = f; opcode = o })) fin op in
    rw (ws_decode_frame, reserved, short_length-bits len, ws_length-client_frame m rest h) whole
