-- ===== src/Session/Handshake.antt =====
-- session.cpp: ingest of the bytes that hold the server's acknowledgement.
use de_be_os_rdp.Prelude.{
  ℕ, ◌+◌, ◌≤◌, ◌≡◌, ◌≢◌, refl, sym, ap, ◌∙◌, List, [], ◌∷◌, ◌++◌, append_assoc, Bool, true, false,
  ◌&&◌, ◌||◌, none, length, length-append, ◌==◌, if◌then◌else◌, arith, All, IsByte, u64, Option,
}
use de_be_os_rdp.Protocol.Opcode.{value, hello_ack}
use de_be_os_rdp.Protocol.Writer
use de_be_os_rdp.Protocol.Framer
use de_be_os_rdp.Protocol.Framer.{
  Message, FrameError, max_message_size, message_header_size, take_pending,
}
use de_be_os_rdp.Protocol.Framer.Stream.{encode}
use de_be_os_rdp.Protocol.Framer.RoundTrip.{IsPlain, feed-encode, All-encode}
use de_be_os_rdp.Protocol.Framer.Until.{feed-until}
use de_be_os_rdp.WireDecoder.{Codec}
use de_be_os_rdp.Session.{Drawing, FontFiles}
use de_be_os_rdp.Session.Messages.{handle_all}
use de_be_os_rdp.Session.Ingest.{
  Session, StreamError, last_is, plain_bytes, as_framing, feed_segments, agrees_compression,
  after_ack, after_frames, absorb_awaiting, ingest_awaiting, route, ingest,
}
use de_be_os_rdp.Session.Plain.{handle_all-append, ingest_plain-ok, with_fonts-same}

last_is-append :
    (op : ℕ) (ms : List Message) (m : Message) → last_is op (ms ++ m ∷ []) ≡ (m.op == op)
unfolding last_is
last_is-append op [] m = refl
last_is-append op (a ∷ []) m = refl
last_is-append op (a ∷ b ∷ ms) m = last_is-append op (b ∷ ms) m

and_false : (b : Bool) → (b && false) ≡ false
and_false true = refl
and_false false = refl

module _ {P S K Z : Type 0} (drawing : Drawing P S K) (codec : Codec Z) where
  after_frames-acked :
      (s : Session P S K Z) → after_frames drawing codec true s ≡ after_ack drawing codec s
  after_frames-acked s = rw (and_false s.framer.segment_start_seen) refl

  abbrev acknowledgement : List ℕ → Message
  acknowledgement payload = record { op = value hello_ack; payload = payload }

  -- The session when the messages up to the acknowledgement are handled, and the bytes behind it
  -- taken from the framer.
  abbrev pub answered : Session P S K Z → List Message → List ℕ → List ℕ → Session P S K Z
  answered s ms payload behind =
      let desk = handle_all drawing s.desk (ms ++ acknowledgement payload ∷ []) in
      let framed = length (encode ms) + (length payload + message_header_size) in
      record s {
        desk = desk;
        framer = record s.framer {
          buffer = [];
          stream_offset = u64 (u64 (s.framer.stream_offset + framed) + length behind);
          segment_start_seen = s.framer.segment_start_seen || false;
        };
        awaiting_hello_ack = false;
        compressed = agrees_compression drawing codec (record s { desk = desk });
      }

  -- Where the bytes behind the acknowledgement go.
  abbrev pub follow : List ℕ → Session P S K Z → Session P S K Z × Option StreamError
  follow behind s =
      if s.compressed
      then feed_segments drawing codec behind s
      else plain_bytes drawing codec behind s

  route-awaiting :
      (bytes : List ℕ) (s : Session P S K Z)
      → s.compressed ≡ false
      → s.awaiting_hello_ack ≡ true
      → route drawing codec bytes s ≡ ingest_awaiting drawing codec bytes s
  route-awaiting bytes s c w = simp (c, w) refl

  -- While the acknowledgement is awaited, the font files are the same, and the framer has not failed
  -- and has nothing buffered, an ingest of at most 64 MiB that are plain messages (opcodes below
  -- 0x2808, none an acknowledgement), the acknowledgement and any bytes behind it handles those messages and the
  -- acknowledgement in order, and then gives the bytes behind it to the segment decoder if the
  -- capabilities that the acknowledgement leaves have the compression bit, and to the framer if not.
  pub ingest-acknowledged :
      (files : FontFiles) (s : Session P S K Z) (ms : List Message) (payload behind : List ℕ)
      → s.compressed ≡ false
      → s.awaiting_hello_ack ≡ true
      → files.files_generation ≡ s.desk.font_generation_seen
      → s.framer.failure ≡ none
      → s.framer.buffer ≡ []
      → All IsPlain ms
      → All (λ m. m.op ≢ value hello_ack) ms
      → IsPlain (record { op = value hello_ack; payload = payload })
      → All IsByte behind
      → length (encode ms ++ (Writer.frame (value hello_ack) payload ++ behind)) ≤ max_message_size
      → ingest drawing codec files
          (encode ms ++ (Writer.frame (value hello_ack) payload ++ behind))
          s
        ≡ follow behind (answered s ms payload behind)
  unfolding ingest ingest_awaiting take_pending
  ingest-acknowledged files s ms payload behind c w f live empty plain others ack bytes n =
      let sent = encode ms ++ (Writer.frame (value hello_ack) payload ++ behind) in
      let all = ms ++ acknowledgement payload ∷ [] in
      let framed = length (encode ms) + (length payload + message_header_size) in
      let g : Framer.Framer = record s.framer {
        buffer = behind;
        stream_offset = u64 (s.framer.stream_offset + framed);
        segment_start_seen = s.framer.segment_start_seen || false;
      } in
      let is_last : last_is (value hello_ack) all ≡ true =
        last_is-append (value hello_ack) ms (acknowledgement payload) in
      let handled : Session P S K Z = record s {
        framer = g;
        desk = handle_all drawing s.desk all;
      } in
      ap (route drawing codec sent) (with_fonts-same drawing codec files s f)
      ∙ route-awaiting sent s c w
      ∙ ap (absorb_awaiting drawing codec s) (
          feed-until s.framer ms (acknowledgement payload) behind true live empty plain others ack
            bytes n)
      ∙ ap (λ (b : Bool). after_frames drawing codec b handled) is_last
      ∙ after_frames-acked handled

  follow-plain :
      (behind : List ℕ) (s : Session P S K Z)
      → s.compressed ≡ false
      → follow behind s ≡ plain_bytes drawing codec behind s
  follow-plain behind s c = simp c refl

  abbrev Handles : Session P S K Z → List Message → Session P S K Z × Option StreamError → Type 0
  Handles s ms r = (r.1 ≡ none) × (r.0.desk ≡ handle_all drawing s.desk ms)

  -- Where the acknowledgement leaves the compression bit unset and plain messages follow it in the
  -- same ingest, the messages before it, the acknowledgement and the messages behind it are all
  -- handled in order, and nothing is thrown.
  pub ingest-uncompressed :
      (files : FontFiles) (s : Session P S K Z) (ms ns : List Message) (payload : List ℕ)
      → s.compressed ≡ false
      → s.awaiting_hello_ack ≡ true
      → files.files_generation ≡ s.desk.font_generation_seen
      → s.framer.failure ≡ none
      → s.framer.buffer ≡ []
      → All IsPlain ms
      → All IsPlain ns
      → All (λ m. m.op ≢ value hello_ack) ms
      → IsPlain (record { op = value hello_ack; payload = payload })
      → length (encode ms ++ (Writer.frame (value hello_ack) payload ++ encode ns))
        ≤ max_message_size
      → (answered s ms payload (encode ns)).compressed ≡ false
      → Handles s (ms ++ acknowledgement payload ∷ ns) (
          ingest drawing codec files
            (encode ms ++ (Writer.frame (value hello_ack) payload ++ encode ns))
            s)
  unfolding plain_bytes
  ingest-uncompressed files s ms ns payload c w f live empty plain plain_behind others ack n off =
      let s' = answered s ms payload (encode ns) in
      let behind = Writer.frame (value hello_ack) payload ++ encode ns in
      let fits : length (encode ns) ≤ max_message_size = omega (
        arith,
        length-append (encode ms) behind,
        length-append (Writer.frame (value hello_ack) payload) (encode ns),
      ) in
      let fed = feed-encode s'.framer ns false live refl plain_behind fits in
      let ran =
        ingest-acknowledged files s ms payload (encode ns) c w f live empty plain others ack
          (All-encode ns plain_behind) n
        ∙ follow-plain (encode ns) s' off
        ∙ ap (as_framing drawing codec) (ingest_plain-ok drawing codec (encode ns) s' _ ns fed) in
      (
        ap (λ (r : Session P S K Z × Option StreamError). r.1) ran,
        ap (λ (r : Session P S K Z × Option StreamError). r.0.desk) ran
            ∙ sym (handle_all-append drawing s.desk (ms ++ acknowledgement payload ∷ []) ns)
            ∙ ap (handle_all drawing s.desk) (append_assoc ms (acknowledgement payload ∷ []) ns),
      )
