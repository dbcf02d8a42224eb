-- ===== src/Session/Replies.antt =====
-- session.cpp: the server waits for some of its requests to be answered; what handle sends when such
-- a request cannot be decoded.
use de_be_os_rdp.Prelude.{
  ℕ, ◌≡◌, refl, ap, ◌∙◌, List, [], ◌∷◌, ◌++◌, append_assoc, true, false, some, length, ltb, arith,
  ℤ, pattern32,
}
use de_be_os_rdp.Protocol.Bytes.{le16, le32}
use de_be_os_rdp.Protocol.Opcode.{
  Op, value, of_value, draw_string, draw_string_with_offsets, draw_string_result, string_width,
  string_width_result, read_bitmap, read_bitmap_result,
}
use de_be_os_rdp.Protocol.Writer
use de_be_os_rdp.Protocol.Writer.{
  Writer, write_i32, write_f32, write_point, finish, finish-frame, start-bytes, write_i32-bytes,
  write_f32-bytes,
}
use de_be_os_rdp.Protocol.Reader.Records.{Point}
use de_be_os_rdp.Protocol.Framer.{Message}
use de_be_os_rdp.Session.{Desk, Drawing, count, reply_op, count_reply, send_message}
use de_be_os_rdp.Session.Messages.{
  recover, owed_reply, answer_after_failure, decode, unless_decoded, handle, pen_reply, answer_with,
  send_owed,
}

-- The opcode that the server waits for after a request.
pub data Waits : Op → Op → Type 0 where
  string_waits : Waits draw_string draw_string_result
  offsets_wait : Waits draw_string_with_offsets draw_string_result
  width_waits : Waits string_width string_width_result
  bitmap_waits : Waits read_bitmap read_bitmap_result

-- A message with an opcode, long enough for it.
abbrev pub IsReply : Op → List ℕ → Type 0
IsReply op bytes = (reply_op bytes ≡ value op) × ((ltb (length bytes) 2) ≡ false)

frame-IsReply :
    (op : Op) (w : Writer) (payload : List ℕ)
    → reply_op (Writer.frame (value op) payload) ≡ value op
    → w.bytes ≡ (le16 (value op) ++ le32 0) ++ payload
    → IsReply op (finish w)
unfolding le16
frame-IsReply op w payload h e = rw (finish-frame w (value op) payload e) (h, ground arith)

pen-bytes :
    (op : Op) (token : ℤ) (x y : ℕ)
    → (write_point (write_i32 (Writer.start (value op)) token) x y).bytes
      ≡ (le16 (value op) ++ le32 0) ++ (le32 (pattern32 token) ++ (le32 x ++ le32 y))
unfolding write_point
pen-bytes op token x y =
    rw
      (
        write_f32-bytes (write_f32 (write_i32 (Writer.start (value op)) token) x) y,
        write_f32-bytes (write_i32 (Writer.start (value op)) token) x,
        write_i32-bytes (Writer.start (value op)) token,
        start-bytes (value op),
      )
      (simp append_assoc)

width-bytes :
    (op : Op) (token : ℤ)
    → (write_f32 (write_i32 (Writer.start (value op)) token) 0).bytes
      ≡ (le16 (value op) ++ le32 0) ++ (le32 (pattern32 token) ++ le32 0)
width-bytes op token =
    rw
      (
        write_f32-bytes (write_i32 (Writer.start (value op)) token) 0,
        write_i32-bytes (Writer.start (value op)) token,
        start-bytes (value op),
      )
      (append_assoc (le16 (value op) ++ le32 0) (le32 (pattern32 token)) (le32 0))

module _ {P S K : Type 0} (drawing : Drawing P S K) where
  -- A counted reply.
  send_message-IsReply :
      (d : Desk P S K) (bytes : List ℕ) (request op : Op)
      → Waits request op
      → IsReply op bytes
      → ((send_message d bytes).sent ≡ d.sent ++ bytes ∷ [])
        × ((send_message d bytes).sync_replies ≡ count d.sync_replies)
  unfolding send_message value
  send_message-IsReply d bytes request op w (e, long) =
      let d' : Desk P S K = record d { sent = d.sent ++ bytes ∷ [] } in
      let sent : (count_reply (value op) d').sent ≡ d'.sent = sent_of request op w d' in
      let replies : (count_reply (value op) d').sync_replies ≡ count d'.sync_replies =
        counted request op w d' in
      simp (long, e) (sent, replies)
    where
      sent_of :
          (request op : Op)
          → Waits request op
          → (d' : Desk P S K) → (count_reply (value op) d').sent ≡ d'.sent
      sent_of _ _ string_waits d' = refl
      sent_of _ _ offsets_wait d' = refl
      sent_of _ _ width_waits d' = refl
      sent_of _ _ bitmap_waits d' = refl

      counted :
          (request op : Op)
          → Waits request op
          → (d' : Desk P S K) → (count_reply (value op) d').sync_replies ≡ count d'.sync_replies
      counted _ _ string_waits d' = refl
      counted _ _ offsets_wait d' = refl
      counted _ _ width_waits d' = refl
      counted _ _ bitmap_waits d' = refl

  -- The reply that is owed, if the readback is one too.
  owed_reply-IsReply :
      (canvas : P) (request op : Op) (token : ℤ) (pen : Point)
      → Waits request op
      → ((c : P) (t : ℤ) → IsReply read_bitmap_result (drawing.readback c t))
      → (bytes : List ℕ) × (owed_reply drawing canvas (some request) token pen ≡ some bytes)
        × IsReply op bytes
  unfolding owed_reply value le16
  owed_reply-IsReply canvas _ _ token pen string_waits r = (
    pen_reply drawing token pen,
    refl,
    frame-IsReply draw_string_result _ _ refl (pen-bytes draw_string_result token pen.x pen.y),
  )
  owed_reply-IsReply canvas _ _ token pen offsets_wait r = (
    pen_reply drawing token pen,
    refl,
    frame-IsReply draw_string_result _ _ refl (pen-bytes draw_string_result token pen.x pen.y),
  )
  owed_reply-IsReply canvas _ _ token pen width_waits r =
      (_, refl, frame-IsReply string_width_result _ _ refl (width-bytes string_width_result token))
  owed_reply-IsReply canvas _ _ token pen bitmap_waits r =
      (drawing.readback canvas token, refl, r canvas token)

  answer-sends :
      (d : Desk P S K) (m : Message) (request op : Op) (bytes : List ℕ)
      → of_value m.op ≡ some request
      → (let found = recover drawing (some request) m.payload in
          owed_reply drawing d.surface (some request) found.0 found.1 ≡ some bytes)
      → answer_after_failure drawing d m ≡ send_message d bytes
  unfolding answer_after_failure answer_with
  answer-sends d m request op bytes o e =
      ap (answer_with drawing d m.payload) o ∙ ap (send_owed drawing d) e

  -- When a request that the server waits for cannot be decoded, whatever its bytes are and wherever
  -- the decoding stopped, handle sends one more message, and it is the reply that ends the wait:
  -- its opcode is the one waited for, and it is counted. Asked of the drawing is only that a
  -- readback of an empty rectangle is such a reply itself.
  pub handle-answers :
      (d d' : Desk P S K) (m : Message) (request op : Op)
      → ((c : P) (t : ℤ) → IsReply read_bitmap_result (drawing.readback c t))
      → of_value m.op ≡ some request
      → Waits request op
      → decode drawing (record d { message_count = count d.message_count }) m ≡ (d', true)
      → (bytes : List ℕ) × IsReply op bytes
        × ((handle drawing d m).sent ≡ d'.sent ++ bytes ∷ [])
        × ((handle drawing d m).sync_replies ≡ count d'.sync_replies)
  unfolding handle
  handle-answers d d' m request op readback o w failed =
      let found = recover drawing (some request) m.payload in
      let (bytes, owed, good) =
        owed_reply-IsReply d'.surface request op found.0 found.1 w readback in
      let answered =
        ap (unless_decoded drawing m) failed ∙ answer-sends d' m request op bytes o owed in
      let (sent, counted) = send_message-IsReply d' bytes request op w good in
      (
        bytes,
        good,
        ap (λ (x : Desk P S K). x.sent) answered ∙ sent,
        ap (λ (x : Desk P S K). x.sync_replies) answered ∙ counted,
      )
