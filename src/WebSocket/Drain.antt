-- ===== src/WebSocket/Drain.antt =====
-- drain_frames on a buffer of whole data frames.
use de_be_os_rdp.Prelude.{
  ℕ, some, some, Option, true, bit_and, ◌==◌, ◌||◌, zero, suc, ◌+◌, ◌≤◌, ◌<◌, ◌≡◌, refl, ap, ◌∙◌,
  List, [], ◌∷◌, ◌++◌, append_assoc, append-nil, le→ltb, none, arith, length, length-append,
  drop-length_append,
}
use de_be_os_rdp.WebSocket.{
  Port, WebSocket, SocketError, drain_step, handle_frame, drain_loop, drain_frames,
  max_frame_payload, max_buffered_bytes,
}
use de_be_os_rdp.WebSocket.Peer.{peer_bytes, IsMask, drain_step-peer_bytes}

-- A data frame: its first byte, its mask, if it has one, and its payload.
pub record Data : Type 0 where
  pub first : ℕ
  pub mask : Option (List ℕ)
  pub payload : List ℕ

-- The opcode is that of a continuation, a text or a binary frame.
pub record IsData (f : Data) : Type 0 where
  pub opcode : bit_and f.first 0x0f ≤ 2
  pub mask : IsMask f.mask
  pub payload : length f.payload ≤ max_frame_payload

abbrev pub AllData : List Data → Type 0
AllData [] = Unit
AllData (f ∷ fs) = IsData f × AllData fs

abbrev pub encode_frames : List Data → List ℕ
encode_frames [] = []
encode_frames (f ∷ fs) = peer_bytes f.first f.mask f.payload ++ encode_frames fs

abbrev pub payloads : List Data → List ℕ
payloads [] = []
payloads (f ∷ fs) = f.payload ++ payloads fs

peer_bytes-cons :
    (first : ℕ) (mask : Option (List ℕ)) (payload : List ℕ)
    → 0 < length (peer_bytes first mask payload)
unfolding peer_bytes
peer_bytes-cons first none payload = omega arith
peer_bytes-cons first (some mask) payload = omega arith

is_data_opcode : (opcode : ℕ) → opcode ≤ 2 → (opcode == 0 || (opcode == 1 || opcode == 2)) ≡ true
is_data_opcode opcode h = ground arith

module _ {N : Type 0} (port : Port N) where
  drain_loop-end :
      (fuel : ℕ) (w : WebSocket N)
      → drain_loop port (suc fuel) [] w ≡ (record w { frame_buffer = [] }, none)
  unfolding drain_loop drain_step
  drain_loop-end fuel w = refl

  handle_frame-data :
      (opcode : ℕ) (payload : List ℕ) (w : WebSocket N)
      → opcode ≤ 2
      → length (w.incoming ++ payload) ≤ max_buffered_bytes
      → handle_frame port opcode payload w ≡ (record w { incoming = w.incoming ++ payload }, none)
  unfolding handle_frame
  handle_frame-data opcode payload w h room =
      rw (is_data_opcode opcode h, le→ltb max_buffered_bytes (length (w.incoming ++ payload)) room)
        refl

  drain_loop-data :
      (fuel : ℕ) (f : Data) (rest : List ℕ) (w : WebSocket N)
      → IsData f
      → length (w.incoming ++ f.payload) ≤ max_buffered_bytes
      → drain_loop port (suc fuel) (peer_bytes f.first f.mask f.payload ++ rest) w
        ≡ drain_loop port fuel rest (record w { incoming = w.incoming ++ f.payload })
  unfolding drain_loop
  drain_loop-data fuel f rest w v room =
      let bytes = peer_bytes f.first f.mask f.payload in
      let step = drain_step-peer_bytes f.first f.mask f.payload rest v.mask v.payload in
      let handled = handle_frame-data (bit_and f.first 0x0f) f.payload w v.opcode room in
      rw (step, drain_loop, handled, drop-length_append bytes rest)
        (ap (λ (r : WebSocket N × Option SocketError). drain_loop port fuel rest r.0) handled)

  drain_loop-encode :
      (fuel : ℕ) (fs : List Data) (w : WebSocket N)
      → AllData fs
      → length w.incoming + length (payloads fs) ≤ max_buffered_bytes
      → length (encode_frames fs) < fuel
      → drain_loop port fuel (encode_frames fs) w
        ≡ (record w { frame_buffer = []; incoming = w.incoming ++ payloads fs }, none)
  drain_loop-encode zero fs w v room h = absurd (omega arith)
  drain_loop-encode (suc fuel) [] w v room h =
      drain_loop-end fuel w ∙ rw (append-nil w.incoming) refl
  drain_loop-encode (suc fuel) (f ∷ fs) w v room h =
      let w' : WebSocket N = record w { incoming = w.incoming ++ f.payload } in
      let bytes = peer_bytes f.first f.mask f.payload in
      let n = length-append w.incoming f.payload in
      let m = length-append f.payload (payloads fs) in
      drain_loop-data fuel f (encode_frames fs) w v.0 (omega (arith, n, m))
      ∙ drain_loop-encode fuel fs w' v.1 (omega (arith, n, m)) (
          omega (
            arith,
            length-append bytes (encode_frames fs),
            peer_bytes-cons f.first f.mask f.payload,
          ))
      ∙ rw (append_assoc w.incoming f.payload (payloads fs)) refl

  -- Where the buffer is a sequence of whole data frames (continuation, text or binary, each with a
  -- mask of four bytes or without one, and with a payload of at most 64 MiB), and their payloads fit
  -- into the receive buffer of 256 MiB, drain_frames appends the payloads, unmasked, in order to the
  -- received bytes, empties the frame buffer, sends nothing and reports no error.
  pub drain_frames-encode :
      (fs : List Data) (w : WebSocket N)
      → AllData fs
      → w.frame_buffer ≡ encode_frames fs
      → length w.incoming + length (payloads fs) ≤ max_buffered_bytes
      → drain_frames port w
        ≡ (record w { frame_buffer = []; incoming = w.incoming ++ payloads fs }, none)
  unfolding drain_frames
  drain_frames-encode fs w v buffer room =
      ap (λ (b : List ℕ). drain_loop port (suc (length b)) b w) buffer
      ∙ drain_loop-encode (suc (length (encode_frames fs))) fs w v room (omega arith)
