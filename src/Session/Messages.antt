-- ===== src/Session/Messages.antt =====
-- session.cpp: what a message does to the desk: handle, handle_session, handle_token and the answer
-- that is owed when a message cannot be decoded. A pair's Boolean says whether a handler threw.
use de_be_os_rdp.Prelude.{
  ℕ, zero, suc, List, [], ◌∷◌, Bool, true, false, not, ◌&&◌, Option, none, some, ok, err, leb, ◌==◌,
  if◌then◌else◌, min, bit_and, ℤ, pos,
}
use de_be_os_rdp.Protocol.Opcode.{
  Op, value, of_value, is_session_level, init_connection, get_system_palette,
  get_system_palette_result, hello_ack, resync, glyph_rasterizer, create_state, delete_state,
  copy_rect_no_clipping, fill_region_color_no_clipping, set_cursor, set_cursor_visible,
  move_cursor_to, invalidate_rect, invalidate_region, close_connection, draw_string,
  draw_string_with_offsets, draw_string_result, string_width, string_width_result, read_bitmap,
}
use de_be_os_rdp.Protocol.Writer.{start, write_i32, write_f32, write_point, finish}
use de_be_os_rdp.Protocol.Reader.{Reader, read_u32, read_i32, read_string, remaining}
use de_be_os_rdp.Protocol.Reader.Records.{
  Color, FontIdentity, Point, read_color, read_point, read_glyph_rasterizer,
}
use de_be_os_rdp.Protocol.Framer.{Message}
use de_be_os_rdp.Session.{
  Desk, Drawing, same_int, count, cap_resync, send_message, observe_generation, note_font_identity,
  discard_drawing_state, display_mode_message,
}

abbrev pub reader_of : List ℕ → Reader
reader_of payload = record { bytes = payload; offset = 0 }

-- `states_[token]`, with the state that it makes where there is none.
unfoldable pub state_of : {S : Type 0} → S → ℤ → List (ℤ × S) → S
state_of fresh token [] = fresh
state_of fresh token (p ∷ states) =
    let rest = state_of fresh token states in if same_int p.0 token then p.1 else rest

unfoldable pub put_state : {S : Type 0} → ℤ → S → List (ℤ × S) → List (ℤ × S)
put_state token s [] = (token, s) ∷ []
put_state token s (p ∷ states) =
    let rest = put_state token s states in
    if same_int p.0 token then (token, s) ∷ states else p ∷ rest

unfoldable pub erase_state : {S : Type 0} → ℤ → List (ℤ × S) → List (ℤ × S)
erase_state token [] = []
erase_state token (p ∷ states) =
    let rest = erase_state token states in if same_int p.0 token then states else p ∷ rest

-- `++unhandled_[op]`
unfoldable pub note_unhandled : ℕ → List (ℕ × ℕ) → List (ℕ × ℕ)
note_unhandled op [] = (op, 1) ∷ []
note_unhandled op (p ∷ counts) =
    let rest = note_unhandled op counts in if p.0 == op then (op, count p.1) ∷ counts else p ∷ rest

-- The colours read before the payload ran out, if it did.
unfoldable pub palette_loop : ℕ → Reader → List Color × Bool
palette_loop zero r = ([], false)
palette_loop (suc n) r = elim (read_color r) [
  | ok (color, r') ↦ let rest = palette_loop n r' in (color ∷ rest.0, rest.1)
  | err e ↦ ([], true)
]

module _ {P S K : Type 0} where
  unfoldable pub send_replies : Desk P S K → List (List ℕ) → Desk P S K
  unfolding send_message
  send_replies d [] = d
  send_replies d (bytes ∷ messages) = send_replies (send_message d bytes) messages

  -- The ack's session id and generation, where the ack has them.
  unfoldable pub ack_identity : Desk P S K → Reader → Desk P S K × Bool
  unfolding observe_generation
  ack_identity d r =
      if not (bit_and d.negotiated_capabilities cap_resync == 0) && leb 8 (remaining r)
      then elim (read_u32 r) [
        | ok (session_id, r') ↦ elim (read_u32 r') [
          | ok (generation, r'') ↦ (observe_generation d session_id generation, false)
          | err e ↦ (d, true)
        ]
        | err e ↦ (d, true)
      ]
      else (d, false)

  unfoldable pub hello_ack_arm : Desk P S K → Reader → Desk P S K × Bool
  unfolding ack_identity
  hello_ack_arm d r = elim (read_u32 r) [
    | ok (version, r') ↦
        let d' : Desk P S K = record d { negotiated_version = version } in
        elim (read_u32 r') [
          | ok (capabilities, r'') ↦
              ack_identity (record d' { negotiated_capabilities = capabilities }) r''
          | err e ↦ (d', true)
        ]
    | err e ↦ (d, true)
  ]

  module _ (drawing : Drawing P S K) where
    abbrev canvas_arm : Op → Desk P S K → Reader → Desk P S K × Bool
    canvas_arm op d r =
        let drawn = drawing.canvas_op op d.palette d.surface d.cursor r in
        (record d { surface = drawn.0.0; cursor = drawn.0.1 }, drawn.1)

    abbrev token_arm : Desk P S K → Reader → (ℤ → Desk P S K) → Desk P S K × Bool
    token_arm d r k = elim (read_i32 r) [ ok (token, r') ↦ (k token, false) | err e ↦ (d, true) ]

    unfoldable pub handle_session : Op → Desk P S K → Reader → Desk P S K × Bool
    unfolding send_message hello_ack_arm palette_loop erase_state put_state note_unhandled
        discard_drawing_state observe_generation
    handle_session init_connection d r =
        let d' = send_message d (finish (start (value get_system_palette))) in
        (send_message d' (display_mode_message d'), false)
    handle_session hello_ack d r = hello_ack_arm d r
    handle_session glyph_rasterizer d r = elim (read_glyph_rasterizer r) [
      | ok (g, r') ↦ (record d { server_rasterizer = some g }, false)
      | err e ↦ (d, true)
    ]
    handle_session resync d r = elim (read_u32 r) [
      | ok (generation, r') ↦
          (discard_drawing_state drawing (observe_generation d d.session_id generation), false)
      | err e ↦ (d, true)
    ]
    handle_session get_system_palette_result d r = elim (read_u32 r) [
      | ok (n, r') ↦
          let read = palette_loop (min n 4096) r' in (record d { palette = read.0 }, read.1)
      | err e ↦ (d, true)
    ]
    handle_session create_state d r =
        token_arm d r λ token. record d { states = put_state token drawing.fresh_state d.states }
    handle_session delete_state d r =
        token_arm d r λ token. record d { states = erase_state token d.states }
    handle_session copy_rect_no_clipping d r = canvas_arm copy_rect_no_clipping d r
    handle_session fill_region_color_no_clipping d r = canvas_arm fill_region_color_no_clipping d r
    handle_session set_cursor d r = canvas_arm set_cursor d r
    handle_session set_cursor_visible d r = canvas_arm set_cursor_visible d r
    handle_session move_cursor_to d r = canvas_arm move_cursor_to d r
    handle_session invalidate_rect d r = (d, false)
    handle_session invalidate_region d r = (d, false)
    handle_session close_connection d r = (record d { server_closed = true }, false)
    handle_session op d r = (record d { unhandled = note_unhandled (value op) d.unhandled }, false)

    abbrev note_font : Option (FontIdentity × Bool) → Desk P S K → Desk P S K
    note_font none d = d
    note_font (some (identity, known)) d = note_font_identity d identity known

    -- The switch of handle_token, on the state that `token` has or gets.
    unfoldable pub handle_token : ℕ → ℤ → Desk P S K → Reader → Desk P S K × Bool
    unfolding state_of put_state send_replies note_unhandled note_font_identity of_value
    handle_token op token d r =
        let before = state_of drawing.fresh_state token d.states in
        let touched : Desk P S K = record d { states = put_state token before d.states } in
        elim (of_value op) [
          | none ↦ (record touched { unhandled = note_unhandled op d.unhandled }, false)
          | some known ↦
              let drawn =
                drawing.token_op known token d.palette d.negotiated_capabilities before d.surface
                  d.cursor r in
              let painted : Desk P S K = record touched {
                states = put_state token drawn.state d.states;
                surface = drawn.canvas;
                unhandled = if drawn.unhandled then note_unhandled op d.unhandled else d.unhandled;
              } in
              (send_replies (note_font drawn.font painted) drawn.replies, drawn.thrown)
        ]

    -- What could be recovered of the token and the pen.
    unfoldable pub recover_pen : Option Op → Reader → Point
    recover_pen (some draw_string) r = elim (read_point r) [
      | ok (pen, r') ↦ pen
      | err e ↦ record { x = 0; y = 0 }
    ]
    recover_pen (some draw_string_with_offsets) r = elim (read_string r) [
      | ok (text, r') ↦ elim (read_point r') [
        | ok (pen, r'') ↦ pen
        | err e ↦ record { x = 0; y = 0 }
      ]
      | err e ↦ record { x = 0; y = 0 }
    ]
    recover_pen _ r = record { x = 0; y = 0 }

    unfoldable pub recover : Option Op → List ℕ → ℤ × Point
    unfolding recover_pen
    recover op payload = elim (read_i32 (reader_of payload)) [
      | ok (token, r) ↦ (token, recover_pen op r)
      | err e ↦ (pos 0, record { x = 0; y = 0 })
    ]

    abbrev pub pen_reply : ℤ → Point → List ℕ
    pen_reply token pen =
        finish (write_point (write_i32 (start (value draw_string_result)) token) pen.x pen.y)

    -- The reply that a request is owed, if it is one that the server waits for.
    unfoldable pub owed_reply : P → Option Op → ℤ → Point → Option (List ℕ)
    owed_reply canvas (some draw_string) token pen = some (pen_reply token pen)
    owed_reply canvas (some draw_string_with_offsets) token pen = some (pen_reply token pen)
    owed_reply canvas (some string_width) token pen =
        some (finish (write_f32 (write_i32 (start (value string_width_result)) token) 0))
    owed_reply canvas (some read_bitmap) token pen = some (drawing.readback canvas token)
    owed_reply canvas _ token pen = none

    abbrev pub send_owed : Desk P S K → Option (List ℕ) → Desk P S K
    send_owed d none = d
    send_owed d (some bytes) = send_message d bytes

    -- The answer to a payload of an opcode.
    unfoldable pub answer_with : Desk P S K → List ℕ → Option Op → Desk P S K
    unfolding recover owed_reply send_message
    answer_with d payload op =
        let found = recover op payload in send_owed d (owed_reply d.surface op found.0 found.1)

    unfoldable pub answer_after_failure : Desk P S K → Message → Desk P S K
    unfolding answer_with of_value
    answer_after_failure d m = answer_with d m.payload (of_value m.op)

    -- The `try` of `handle`.
    unfoldable pub decode : Desk P S K → Message → Desk P S K × Bool
    unfolding handle_session handle_token is_session_level
    decode d m =
        if is_session_level m.op
        then elim (of_value m.op) [
          | some op ↦ handle_session op d (reader_of m.payload)
          | none ↦ (d, false)
        ]
        else elim (read_i32 (reader_of m.payload)) [
          | ok (token, r) ↦ handle_token m.op token d r
          | err e ↦ (d, true)
        ]

    abbrev pub unless_decoded : Message → Desk P S K × Bool → Desk P S K
    unless_decoded m (d, false) = d
    unless_decoded m (d, true) = answer_after_failure d m

    unfoldable pub handle : Desk P S K → Message → Desk P S K
    unfolding decode answer_after_failure
    handle d m = unless_decoded m (decode (record d { message_count = count d.message_count }) m)

    -- `for (const auto& message : messages) handle(message);`
    unfoldable pub handle_all : Desk P S K → List Message → Desk P S K
    unfolding handle
    handle_all d [] = d
    handle_all d (m ∷ messages) = handle_all (handle d m) messages
