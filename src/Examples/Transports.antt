-- ===== src/Examples/Transports.antt =====
-- WebSocket frames, the broker's messages and a pin.
use de_be_os_rdp.Prelude.{
  ℕ, suc, ◌≡◌, refl, List, [], ◌∷◌, ◌++◌, true, false, Option, none, some, arith, length,
}
use de_be_os_rdp.WebSocket.{
  Port, WebSocket, frame_bytes, apply_mask, frame, drain_step, drain_frames,
}
use de_be_os_rdp.WebSocket.Frames.{drain_step-frame_bytes}
use de_be_os_rdp.WebSocket.{drain_loop, length_bytes}
use de_be_os_rdp.WebSocket.Peer.{peer_bytes}
use de_be_os_rdp.WebSocket.Fuel.{drain_loop_fuel}
use de_be_os_rdp.WebSocket.Drain.{Data, IsData, encode_frames, payloads, drain_frames-encode}
use de_be_os_rdp.Broker.{curl_prefix, plain_prefix, decode_certificate_pin}
use de_be_os_rdp.Broker.Pins.{hex, colons, decode_certificate_pin-hex}

-- A network that counts what was sent, with one mask and no bytes to read.
abbrev quiet : Port ℕ
quiet = record {
  random_mask = λ n. (n, some (1 ∷ 2 ∷ 3 ∷ 4 ∷ []));
  raw_send = λ n bytes. (suc n, true);
  raw_read = λ n. (n, some []);
  shut_down = λ n. n;
}

abbrev mask : List ℕ
mask = 17 ∷ 34 ∷ 51 ∷ 68 ∷ []

drain_step-frame_bytes_example :
    drain_step (frame_bytes 2 mask (72 ∷ 105 ∷ []) ++ 130 ∷ [])
    ≡ frame 2 (72 ∷ 105 ∷ []) (length (frame_bytes 2 mask (72 ∷ 105 ∷ [])))
drain_step-frame_bytes_example =
    drain_step-frame_bytes 2 mask (72 ∷ 105 ∷ []) (130 ∷ []) (omega arith) refl (omega arith)

abbrev hi : Data
hi = record { first = 0x82; mask = some mask; payload = 72 ∷ 105 ∷ [] }

-- A frame as a server sends it: without a mask, and not the last of its message.
abbrev first_part : Data
first_part = record { first = 0x02; mask = none; payload = 72 ∷ 105 ∷ [] }

hi-IsData : IsData hi
hi-IsData = record { opcode = omega arith; mask = refl; payload = omega arith }

first_part-IsData : IsData first_part
first_part-IsData = record { opcode = omega arith; mask = tt; payload = omega arith }

abbrev connected : WebSocket ℕ
connected = record {
  network = 0;
  frame_buffer = encode_frames (first_part ∷ hi ∷ []);
  incoming = 9 ∷ [];
  is_open = true;
  peer_closed = false;
}

drain_frames-encode_example : drain_frames quiet connected ≡ (
  record connected {
    frame_buffer = [];
    incoming = connected.incoming ++ payloads (first_part ∷ hi ∷ []);
  },
  none,
)
drain_frames-encode_example =
    drain_frames-encode quiet (first_part ∷ hi ∷ []) connected (first_part-IsData, (hi-IsData, tt))
      refl (omega arith)

abbrev no_base64 : List ℕ → Option (List ℕ)
no_base64 text = none

abbrev digest : List ℕ
digest =
    1 ∷ 2 ∷ 3 ∷ 4 ∷ 5 ∷ 6 ∷ 7 ∷ 8 ∷ 9 ∷ 10 ∷ 11 ∷ 12 ∷ 13 ∷ 14 ∷ 15 ∷ 16 ∷ 161 ∷ 162 ∷ 163 ∷ 164
    ∷ 165 ∷ 166 ∷ 167 ∷ 168 ∷ 169 ∷ 170 ∷ 171 ∷ 172 ∷ 173 ∷ 174 ∷ 175 ∷ 176 ∷ []

decode_certificate_pin-hex_example :
    (decode_certificate_pin no_base64 (hex digest) ≡ some digest)
    × (decode_certificate_pin no_base64 (curl_prefix ++ hex digest) ≡ some digest)
    × (decode_certificate_pin no_base64 (plain_prefix ++ hex digest) ≡ some digest)
    × (decode_certificate_pin no_base64 (colons digest) ≡ some digest)
    × (decode_certificate_pin no_base64 (curl_prefix ++ colons digest) ≡ some digest)
    × (decode_certificate_pin no_base64 (plain_prefix ++ colons digest) ≡ some digest)
decode_certificate_pin-hex_example = decode_certificate_pin-hex no_base64 digest (omega arith) refl

drain_loop_fuel_example :
    drain_loop quiet 100 (encode_frames (hi ∷ [])) connected
    ≡ drain_loop quiet 20 (encode_frames (hi ∷ [])) connected
unfolding length_bytes apply_mask peer_bytes
drain_loop_fuel_example =
    drain_loop_fuel quiet 100 20 (encode_frames (hi ∷ [])) connected (omega arith) (omega arith)
