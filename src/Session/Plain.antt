-- ===== src/Session/Plain.antt =====
-- session.cpp: ingest of a stream that is not compressed, in chunks.
use de_be_os_rdp.Prelude.{
  ℕ, ◌+◌, ◌≤◌, ◌≡◌, refl, sym, ap, ◌∙◌, subst, List, [], ◌∷◌, ◌++◌, true, false, Option, none, some,
  Result, ok, err, length, ◌==◌, ==_iff,
}
use de_be_os_rdp.Protocol.Framer
use de_be_os_rdp.Protocol.Framer.{Message, FrameError, max_message_size}
use de_be_os_rdp.Protocol.Framer.Lossless.{IsFramer}
use de_be_os_rdp.Protocol.Framer.Chunks.{feed-append}
use de_be_os_rdp.WireDecoder.{Codec}
use de_be_os_rdp.Session.{Desk, Drawing, FontFiles}
use de_be_os_rdp.Session.Messages.{handle, handle_all}
use de_be_os_rdp.Session.Ingest.{
  Session, StreamError, ingest_plain, absorb_plain, plain_bytes, ingest, route, with_fonts,
  as_framing,
}

module _ {P S K : Type 0} (drawing : Drawing P S K) where
  pub handle_all-append :
      (d : Desk P S K) (ms ns : List Message)
      → handle_all drawing d (ms ++ ns) ≡ handle_all drawing (handle_all drawing d ms) ns
  unfolding handle_all
  handle_all-append d [] ns = refl
  handle_all-append d (m ∷ ms) ns = handle_all-append (handle drawing d m) ms ns

module _ {P S K Z : Type 0} (drawing : Drawing P S K) (codec : Codec Z) where
  -- What a feed that returns makes of the session.
  pub ingest_plain-ok :
      (bytes : List ℕ) (s : Session P S K Z) (g : Framer.Framer) (ms : List Message)
      → Framer.feed s.framer bytes none false ≡ (g, ok ms)
      → ingest_plain drawing codec bytes s
        ≡ (record s { framer = g; desk = handle_all drawing s.desk ms }, none)
  unfolding ingest_plain
  ingest_plain-ok bytes s g ms e = ap (absorb_plain drawing codec s) e

  absorb_plain-fed :
      (s s' : Session P S K Z) (r : Framer.Framer × Result FrameError (List Message))
      → absorb_plain drawing codec s r ≡ (s', none)
      → (ms : List Message) × (r ≡ (r.0, ok ms))
        × (s' ≡ record s { framer = r.0; desk = handle_all drawing s.desk ms })
  absorb_plain-fed s s' (g, ok ms) e =
      (ms, refl, sym (ap (λ (x : Session P S K Z × Option FrameError). x.0) e))
  absorb_plain-fed s s' (g, err x) e = absurd (cc)

  -- Two chunks one after the other, or both at once.
  pub ingest_plain-append :
      (a b : List ℕ) (s s1 s2 : Session P S K Z)
      → IsFramer s.framer
      → length s.framer.buffer + length a + length b ≤ max_message_size
      → ingest_plain drawing codec a s ≡ (s1, none)
      → ingest_plain drawing codec b s1 ≡ (s2, none)
      → ingest_plain drawing codec (a ++ b) s ≡ (s2, none)
  unfolding ingest_plain
  ingest_plain-append a b s s1 s2 v n first second =
      let (ms, fed1, e1) = absorb_plain-fed s s1 (Framer.feed s.framer a none false) first in
      let g = (Framer.feed s.framer a none false).0 in
      let after : Session P S K Z = record s { framer = g; desk = handle_all drawing s.desk ms } in
      let second' : ingest_plain drawing codec b after ≡ (s2, none) =
        subst (λ x. ingest_plain drawing codec b x ≡ (s2, none)) e1 second in
      let (ns, fed2, e2) = absorb_plain-fed after s2 (Framer.feed g b none false) second' in
      let h = (Framer.feed g b none false).0 in
      ap (absorb_plain drawing codec s) (feed-append s.framer g h a b false ms ns v n fed1 fed2)
      ∙ ap (λ (x : Session P S K Z). (x, none))
          (ap (λ (d : Desk P S K). record s { framer = h; desk = d })
              (handle_all-append drawing s.desk ms ns)
            ∙ sym e2)

  -- The flags are those from before.
  ingest_plain-flags :
      (bytes : List ℕ) (s s' : Session P S K Z)
      → ingest_plain drawing codec bytes s ≡ (s', none)
      → (s'.compressed ≡ s.compressed) × (s'.awaiting_hello_ack ≡ s.awaiting_hello_ack)
  unfolding ingest_plain
  ingest_plain-flags bytes s s' e =
      let (ms, fed, same) = absorb_plain-fed s s' (Framer.feed s.framer bytes none false) e in
      (
        ap (λ (x : Session P S K Z). x.compressed) same,
        ap (λ (x : Session P S K Z). x.awaiting_hello_ack) same,
      )

  pub with_fonts-same :
      (files : FontFiles) (s : Session P S K Z)
      → files.files_generation ≡ s.desk.font_generation_seen
      → with_fonts drawing codec files s ≡ s
  with_fonts-same files s e =
      let t : files.files_generation == s.desk.font_generation_seen ≡ true = (==_iff _ _).1 e in
      simp t refl

  ingest-plain_bytes :
      (files : FontFiles) (bytes : List ℕ) (s : Session P S K Z)
      → s.compressed ≡ false
      → s.awaiting_hello_ack ≡ false
      → files.files_generation ≡ s.desk.font_generation_seen
      → ingest drawing codec files bytes s ≡ plain_bytes drawing codec bytes s
  unfolding ingest
  ingest-plain_bytes files bytes s c w f =
      ap (route drawing codec bytes) (with_fonts-same files s f) ∙ simp (c, w) refl

  plain_bytes-ok :
      (r : Session P S K Z × Option FrameError) (s : Session P S K Z)
      → as_framing drawing codec r ≡ (s, none)
      → r ≡ (s, none)
  plain_bytes-ok (s', none) s e = ap (λ (x : Session P S K Z × Option StreamError). (x.0, none)) e
  plain_bytes-ok (s', some x) s e = absurd (cc)

  -- On a stream that is not compressed and waits for no acknowledgement, while the font files stay
  -- the same and the buffered bytes and both chunks are within 64 MiB, ingest of two chunks that throws nothing leaves the session of one ingest of both.
  pub ingest-append :
      (files : FontFiles) (a b : List ℕ) (s s1 s2 : Session P S K Z)
      → s.compressed ≡ false
      → s.awaiting_hello_ack ≡ false
      → files.files_generation ≡ s.desk.font_generation_seen
      → files.files_generation ≡ s1.desk.font_generation_seen
      → IsFramer s.framer
      → length s.framer.buffer + length a + length b ≤ max_message_size
      → ingest drawing codec files a s ≡ (s1, none)
      → ingest drawing codec files b s1 ≡ (s2, none)
      → ingest drawing codec files (a ++ b) s ≡ (s2, none)
  unfolding plain_bytes
  ingest-append files a b s s1 s2 c w f f1 v n first second =
      let fed1 =
        plain_bytes-ok (ingest_plain drawing codec a s) s1
          (sym (ingest-plain_bytes files a s c w f) ∙ first) in
      let (same_c, same_w) = ingest_plain-flags a s s1 fed1 in
      let fed2 =
        plain_bytes-ok (ingest_plain drawing codec b s1) s2
          (sym (ingest-plain_bytes files b s1 (same_c ∙ c) (same_w ∙ w) f1) ∙ second) in
      ingest-plain_bytes files (a ++ b) s c w f
      ∙ ap (as_framing drawing codec) (ingest_plain-append a b s s1 s2 v n fed1 fed2)
