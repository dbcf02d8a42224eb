-- ===== src/Session/Start.antt =====
-- session.cpp: the two messages of start, as a server takes them apart.
use native.Mathlib.Nat.{zero-add}
use de_be_os_rdp.Prelude.{
  All-append, IsByte, ℕ, ◌≡◌, refl, sym, ap, ap₂, subst, ◌∙◌, List, [], ◌∷◌, ◌++◌, append_assoc,
  append-nil, Bool, true, false, none, ok, Result, arith, length, IsU32, ℤ, IsI32, pattern32,
  if◌then◌else◌, ltb, ◌==◌,
}
use de_be_os_rdp.Protocol.Bytes.{le16, le32, All-le32}
use de_be_os_rdp.Protocol.Opcode.{
  value, value-lt, init_connection, hello, draw_string_result, string_width_result,
  read_bitmap_result,
}
use de_be_os_rdp.Protocol.Writer
use de_be_os_rdp.Protocol.Writer.{Writer, start-bytes, finish, finish-frame, write_u32-bytes}
use de_be_os_rdp.Protocol.Framer.{Message, FrameError, Framer, feed}
use de_be_os_rdp.Protocol.Framer.Stream.{encode}
use de_be_os_rdp.Protocol.Framer.RoundTrip.{IsPlain, feed-encode}
use de_be_os_rdp.Protocol.Reader.{R, ◌>>=◌, return, read_u32, read_i32}
use de_be_os_rdp.Protocol.Reader.Layout.{
  Reads, Reads->>=, Reads-return, read_u32-Reads, read_i32-Reads,
}
use de_be_os_rdp.Session.{
  Desk, protocol_version, capabilities, hello_message, send_message, count_reply, reply_op,
  start_desk,
}

module _ {P S K : Type 0} where
  sent_if :
      (b : Bool) (x y : Desk P S K) (l : List (List ℕ))
      → x.sent ≡ l
      → y.sent ≡ l
      → (if b then x else y).sent ≡ l
  sent_if true x y l hx hy = hx
  sent_if false x y l hx hy = hy

  count_reply-sent : (op : ℕ) (d : Desk P S K) → (count_reply op d).sent ≡ d.sent
  unfolding count_reply
  count_reply-sent op d = sent_if (op == value draw_string_result) _ _ d.sent refl (
      sent_if (op == value string_width_result) _ _ d.sent refl
        (sent_if (op == value read_bitmap_result) _ _ d.sent refl refl))

  -- Whatever is counted, the message goes out.
  pub send_message-sent :
      (d : Desk P S K) (bytes : List ℕ) → (send_message d bytes).sent ≡ d.sent ++ bytes ∷ []
  unfolding send_message
  send_message-sent d bytes =
      sent_if (ltb (length bytes) 2) _ _ (d.sent ++ bytes ∷ []) refl
        (count_reply-sent (reply_op bytes) (record d { sent = d.sent ++ bytes ∷ [] }))

-- What a server reads from the hello.
abbrev pub read_hello : R (ℕ × ℕ × ℕ × ℕ × ℤ × ℤ)
read_hello = do
  version ← read_u32
  offered ← read_u32
  decode_width ← read_u32
  decode_height ← read_u32
  width ← read_i32
  height ← read_i32
  return (version, offered, decode_width, decode_height, width, height)

abbrev hello_payload : ℕ → ℤ → ℤ → List ℕ
hello_payload offered width height =
    le32 protocol_version
    ++ (le32 offered
        ++ (le32 0 ++ (le32 0 ++ (le32 (pattern32 width) ++ (le32 (pattern32 height) ++ [])))))

hello-Reads :
    (offered : ℕ) (width height : ℤ)
    → IsU32 offered
    → IsI32 width
    → IsI32 height
    → Reads read_hello (hello_payload offered width height) (1, offered, 0, 0, width, height)
hello-Reads offered width height o w h = Reads->>= _ _ (read_u32-Reads 1 (omega arith)) (
    Reads->>= _ _ (read_u32-Reads offered o) (
      Reads->>= _ _ (read_u32-Reads 0 (omega arith)) (
        Reads->>= _ _ (read_u32-Reads 0 (omega arith)) (
          Reads->>= _ _ (read_i32-Reads width w)
            (Reads->>= _ _ (read_i32-Reads height h) (Reads-return _ _ refl))))))

capabilities-IsU32 : (offer : Bool) → IsU32 (capabilities offer)
capabilities-IsU32 true = omega arith
capabilities-IsU32 false = omega arith

module _ {P S K : Type 0} (d : Desk P S K) (offer : Bool) where
  hello-frame :
      hello_message offer d
      ≡ Writer.frame
          (value hello)
          (hello_payload (capabilities offer) d.requested_width d.requested_height)
  hello-frame = finish-frame _ _ _ bytes
    where
      w : Writer.Writer
      w = Writer.start (value hello)

      w1 : Writer.Writer
      w1 = Writer.write_u32 w protocol_version

      w2 : Writer.Writer
      w2 = Writer.write_u32 w1 (capabilities offer)

      w3 : Writer.Writer
      w3 = Writer.write_u32 w2 0

      w4 : Writer.Writer
      w4 = Writer.write_u32 w3 0

      w5 : Writer.Writer
      w5 = Writer.write_u32 w4 (pattern32 d.requested_width)

      bytes :
          (Writer.write_u32 w5 (pattern32 d.requested_height)).bytes
          ≡ (le16 (value hello) ++ le32 0)
            ++ hello_payload (capabilities offer) d.requested_width d.requested_height
      bytes =
          rw
            (
              write_u32-bytes w5 (pattern32 d.requested_height),
              write_u32-bytes w4 (pattern32 d.requested_width),
              write_u32-bytes w3 0,
              write_u32-bytes w2 0,
              write_u32-bytes w1 (capabilities offer),
              write_u32-bytes w protocol_version,
              start-bytes (value hello),
            )
            (simp (append_assoc, append-nil))

  init-frame :
      finish (Writer.start (value init_connection)) ≡ Writer.frame (value init_connection) []
  init-frame = finish-frame _ _ _ (start-bytes (value init_connection) ∙ sym (append-nil _))

  start_desk-sent :
      (start_desk offer d).sent
      ≡ (d.sent ++ finish (Writer.start (value init_connection)) ∷ []) ++ hello_message offer d ∷ []
  unfolding start_desk
  start_desk-sent =
      let init = finish (Writer.start (value init_connection)) in
      send_message-sent (send_message d init) (hello_message offer d)
      ∙ ap (λ (l : List (List ℕ)). l ++ hello_message offer d ∷ []) (send_message-sent d init)

init-IsPlain : IsPlain (record { op = value init_connection; payload = [] })
init-IsPlain = record { op_fits = value-lt init_connection; bytes = tt; size_fits = omega arith }

hello-IsPlain :
    (offered : ℕ) (width height : ℤ)
    → IsPlain (record { op = value hello; payload = hello_payload offered width height })
hello-IsPlain offered width height = record {
  op_fits = value-lt hello;
  bytes = All-append IsByte (le32 1) _ (All-le32 1) (
      All-append IsByte (le32 offered) _ (All-le32 offered) (
        All-append IsByte (le32 0) _ (All-le32 0) (
          All-append IsByte (le32 0) _ (All-le32 0) (
            All-append IsByte (le32 (pattern32 width)) _ (All-le32 (pattern32 width))
              (All-append IsByte (le32 (pattern32 height)) [] (All-le32 (pattern32 height)) tt)))));
  size_fits = unfold le32 in omega arith;
}

abbrev pub joined : List (List ℕ) → List ℕ
joined [] = []
joined (bytes ∷ more) = bytes ++ joined more

-- The messages that were sent after those of `before`: two, the first with nothing in it, and the
-- second a hello that reads as `greeting`.
pub record Greets (f : Framer) (before after : List (List ℕ)) (greeting : ℕ × ℕ × ℕ × ℕ × ℤ × ℤ)
    : Type 0 where
  pub new : List (List ℕ)
  pub payload : List ℕ
  pub appended : after ≡ before ++ new
  pub framed :
      (feed f (joined new) none false).1
      ≡ ok (
          record { op = value init_connection; payload = [] }
          ∷ record { op = value hello; payload = payload }
          ∷ [])
  pub decoded :
      read_hello (record { bytes = payload; offset = 0 })
      ≡ ok (greeting, record { bytes = payload; offset = length payload })

-- A server whose framer has nothing buffered gets from start the connection request and then a
-- hello, in which it reads protocol version 1, the client's capabilities, two zeros and the display
-- size. The capabilities have the compression bit exactly when compression is offered.
pub start_desk-Greets :
    {P S K : Type 0} (d : Desk P S K) (offer : Bool) (f : Framer)
    → f.failure ≡ none
    → f.buffer ≡ []
    → IsI32 d.requested_width
    → IsI32 d.requested_height
    → Greets f d.sent
        (start_desk offer d).sent
        (1, if offer then 247 else 245, 0, 0, d.requested_width, d.requested_height)
start_desk-Greets d offer f live empty w h =
    let offered = capabilities offer in
    let payload = hello_payload offered d.requested_width d.requested_height in
    let reads =
      hello-Reads offered d.requested_width d.requested_height (capabilities-IsU32 offer) w h in
    let messages : List Message =
      record { op = value init_connection; payload = [] }
      ∷ record { op = value hello; payload = payload }
      ∷ [] in
    let same : encode messages
        ≡ joined (finish (Writer.start (value init_connection)) ∷ hello_message offer d ∷ []) =
      ap₂ (λ (a b : List ℕ). a ++ (b ++ [])) (sym (init-frame d offer))
        (sym (hello-frame d offer)) in
    record {
      new = finish (Writer.start (value init_connection)) ∷ hello_message offer d ∷ [];
      payload = payload;
      appended =
          start_desk-sent d offer
          ∙ append_assoc d.sent (finish (Writer.start (value init_connection)) ∷ [])
              (hello_message offer d ∷ []);
      framed =
          subst (λ (b : List ℕ). (feed f b none false).1 ≡ ok messages) same
            (ap (λ (r : Framer × Result FrameError (List Message)). r.1)
              (feed-encode f messages false live empty
                (init-IsPlain, (hello-IsPlain offered d.requested_width d.requested_height, tt))
                (unfold le16 le32 in omega arith)));
      decoded =
          reads.run (record { bytes = payload; offset = 0 }) [] (sym (append-nil payload))
          ∙ rw (zero-add (length payload)) refl;
    }
