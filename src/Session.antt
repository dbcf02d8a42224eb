-- ===== src/Session.antt =====
-- session.cpp: class Session beside its drawing. The desk is what the messages change; the stream
-- is how the server's bytes become messages (Session/Ingest). What draws (class Surface, the
-- drawing states, the cursor's picture, the text engine) is the parameter `drawing`.
pub mod Messages
pub mod Ingest
pub mod Generation
pub mod Replies
pub mod Start
pub mod Plain
pub mod Handshake
pub mod History
use de_be_os_rdp.Prelude.{
  ℕ, zero, suc, ◌+◌, ◌*◌, ◌^◌, List, [], ◌∷◌, ◌++◌, Bool, true, false, not, ◌&&◌, ◌||◌, Option,
  none, some, leb, ltb, ◌==◌, if◌then◌else◌, length, get_or, bit_and, bit_or, u16, u32, u64, ℤ, pos,
  negsuc, pattern32,
}
use de_be_os_rdp.Protocol.Opcode.{
  Op, value, init_connection, hello, update_display_mode, resync, draw_string_result,
  string_width_result, read_bitmap_result,
}
use de_be_os_rdp.Protocol.Writer.{start, write_u32, write_i32, finish}
use de_be_os_rdp.Protocol.Reader.{Reader, ReadError}
use de_be_os_rdp.Protocol.Reader.Records.{Color, GlyphRasterizer, FontIdentity}
use de_be_os_rdp.Protocol.Framer.{Framer}
use de_be_os_rdp.KnownBrokers.{lowered, same_text}

abbrev pub protocol_version : ℕ
protocol_version = 1

abbrev pub cap_string_width_reply : ℕ
cap_string_width_reply = 1

abbrev pub cap_compress_zstd : ℕ
cap_compress_zstd = 2

abbrev pub cap_resync : ℕ
cap_resync = 4

abbrev pub cap_secure_attention : ℕ
cap_secure_attention = 16

abbrev pub cap_font_identity : ℕ
cap_font_identity = 32

abbrev pub cap_subpixel_precise : ℕ
cap_subpixel_precise = 64

abbrev pub cap_glyph_rasterizer : ℕ
cap_glyph_rasterizer = 128

abbrev pub max_dimension : ℕ
max_dimension = 16384

-- What one drawing operation leaves: the state of its token, the canvas, the messages that it sent,
-- the font that it named with the answer of `has_identical_face`, whether the switch has no arm for
-- it, and whether it threw.
pub record Drawn (P S : Type 0) : Type 0 where
  pub state : S
  pub canvas : P
  pub replies : List (List ℕ)
  pub font : Option (FontIdentity × Bool)
  pub unhandled : Bool
  pub thrown : Bool

-- The parts that draw. `token_op` is the switch of `handle_token`, with the palette and the
-- negotiated capabilities; `canvas_op` the arms of `handle_session` that touch the canvas or the
-- cursor; `readback` a `read_bitmap_reply` to an empty rectangle.
pub record Drawing (P S K : Type 0) : Type 0 where
  pub fresh_state : S
  pub fresh_cursor : K
  pub resize : P → ℤ → ℤ → P
  pub token_op : Op → ℤ → List Color → ℕ → S → P → K → Reader → Drawn P S
  pub canvas_op : Op → List Color → P → K → Reader → (P × K) × Bool
  pub readback : P → ℤ → List ℕ

-- The state that the messages change. `sent` is what was given to `send_`, in order.
pub record Desk (P S K : Type 0) : Type 0 where
  pub requested_width : ℤ
  pub requested_height : ℤ
  pub surface : P
  pub states : List (ℤ × S)
  pub palette : List Color
  pub cursor : K
  pub message_count : ℕ
  pub sync_replies : ℕ
  pub draw_string_replies : ℕ
  pub string_width_replies : ℕ
  pub negotiated_version : ℕ
  pub negotiated_capabilities : ℕ
  pub server_rasterizer : Option GlyphRasterizer
  pub session_id : ℕ
  pub generation : ℕ
  pub generation_changed : Bool
  pub server_closed : Bool
  pub unhandled : List (ℕ × ℕ)
  pub fonts_checked : List (ℕ × ℕ × ℕ)
  pub fonts_wanted : List FontIdentity
  pub font_generation_seen : ℕ
  pub sent : List (List ℕ)

-- The font files of the text engine: their generation, and whether one is the named face.
pub record FontFiles : Type 0 where
  pub files_generation : ℕ
  pub has_identical_face : FontIdentity → Bool

abbrev pub count : ℕ → ℕ
count n = u64 (suc n)

-- The opcode at the front of a message.
abbrev pub reply_op : List ℕ → ℕ
reply_op bytes = u16 (bit_or (get_or bytes 0 0) (get_or bytes 1 0 * 2 ^ 8))

-- `width >= 1 && width <= Surface::max_dimension`
abbrev pub valid_dimension : ℤ → Bool
valid_dimension (pos n) = leb 1 n && leb n max_dimension
valid_dimension (negsuc n) = false

abbrev pub valid_display_size : ℤ → ℤ → Bool
valid_display_size width height = valid_dimension width && valid_dimension height

abbrev pub same_int : ℤ → ℤ → Bool
same_int (pos m) (pos n) = m == n
same_int (negsuc m) (negsuc n) = m == n
same_int _ _ = false

abbrev font_key : FontIdentity → ℕ × ℕ × ℕ
font_key f = (f.checksum_adjustment, f.font_revision, f.face_index)

unfoldable pub has_key : ℕ × ℕ × ℕ → List (ℕ × ℕ × ℕ) → Bool
has_key key [] = false
has_key key (k ∷ keys) = k.0 == key.0 && (k.1 == key.1 && k.2 == key.2) || has_key key keys

-- `std::remove_if`
unfoldable pub missing_fonts : FontFiles → List FontIdentity → List FontIdentity
missing_fonts files [] = []
missing_fonts files (f ∷ fonts) =
    let rest = missing_fonts files fonts in if files.has_identical_face f then rest else f ∷ rest

pub data DisplayModeChange : Type 0 where
  sent_it send_failed unchanged invalid : DisplayModeChange

abbrev pub capabilities : Bool → ℕ
capabilities offer =
    let own =
      bit_or
        (bit_or
          (bit_or (bit_or (bit_or cap_string_width_reply cap_resync) cap_secure_attention)
            cap_font_identity)
          cap_subpixel_precise)
        cap_glyph_rasterizer in
    if offer then bit_or own cap_compress_zstd else own

module _ {P S K : Type 0} where
  -- The counters of the replies that the server waits for.
  unfoldable pub count_reply : ℕ → Desk P S K → Desk P S K
  unfolding value
  count_reply op d =
      if op == value draw_string_result
      then record d {
        draw_string_replies = count d.draw_string_replies;
        sync_replies = count d.sync_replies;
      }
      else if op == value string_width_result
      then record d {
        string_width_replies = count d.string_width_replies;
        sync_replies = count d.sync_replies;
      }
      else if op == value read_bitmap_result
      then record d { sync_replies = count d.sync_replies }
      else d

  unfoldable pub send_message : Desk P S K → List ℕ → Desk P S K
  unfolding count_reply
  send_message d bytes =
      let d' : Desk P S K = record d { sent = d.sent ++ bytes ∷ [] } in
      if ltb (length bytes) 2 then d' else count_reply (reply_op bytes) d'

  abbrev pub display_mode_message : Desk P S K → List ℕ
  display_mode_message d = finish (
      write_i32 (write_i32 (start (value update_display_mode)) d.requested_width)
        d.requested_height)

  unfoldable pub request_full_repaint : Desk P S K → Desk P S K
  unfolding send_message
  request_full_repaint d = send_message d (display_mode_message d)

  unfoldable pub observe_generation : Desk P S K → ℕ → ℕ → Desk P S K
  observe_generation d session_id generation = record d {
    generation_changed =
        if not (d.session_id == 0) && (session_id == d.session_id && ltb d.generation generation)
        then true
        else d.generation_changed;
    session_id = session_id;
    generation = generation;
  }

  -- `known` is what `has_identical_face` says of the identity.
  unfoldable pub note_font_identity : Desk P S K → FontIdentity → Bool → Desk P S K
  unfolding has_key
  note_font_identity d identity known =
      let checked : Desk P S K = record d {
        fonts_checked = d.fonts_checked ++ font_key identity ∷ [];
      } in
      if identity.checksum_adjustment == 0
      then d
      else if has_key (font_key identity) d.fonts_checked
      then d
      else if known
      then checked
      else record checked { fonts_wanted = d.fonts_wanted ++ identity ∷ [] }

  unfoldable pub refresh_fonts : FontFiles → Desk P S K → Desk P S K × Bool
  unfolding missing_fonts request_full_repaint
  refresh_fonts files d =
      let d' : Desk P S K = record d { font_generation_seen = files.files_generation } in
      let wanted = missing_fonts files d.fonts_wanted in
      if length d.fonts_wanted == 0
      then (d', false)
      else if length wanted == length d.fonts_wanted
      then (record d' { fonts_wanted = wanted }, false)
      else (request_full_repaint (record d' { fonts_wanted = wanted }), true)

  module _ (drawing : Drawing P S K) where
    unfoldable pub discard_drawing_state : Desk P S K → Desk P S K
    discard_drawing_state d = record d { states = []; cursor = drawing.fresh_cursor }

    unfoldable pub set_display_size : Desk P S K → ℤ → ℤ → Desk P S K × Bool
    set_display_size d width height =
        if valid_display_size width height
        then (
          record d {
            surface = drawing.resize d.surface width height;
            requested_width = width;
            requested_height = height;
          },
          true,
        )
        else (d, false)

    -- `link` says whether `send_` got the last of the messages given to it away.
    unfoldable pub change_display_mode :
        (List (List ℕ) → Bool) → Desk P S K → ℤ → ℤ → Desk P S K × DisplayModeChange
    unfolding set_display_size request_full_repaint
    change_display_mode link d width height =
        let d' = request_full_repaint (set_display_size d width height).0 in
        if not (valid_display_size width height)
        then (d, invalid)
        else if same_int width d.requested_width && same_int height d.requested_height
        then (d, unchanged)
        else (d', if link d'.sent then sent_it else send_failed)

    -- The part of `reset` that is not about the stream.
    unfoldable pub reset_desk : Desk P S K → Desk P S K
    unfolding discard_drawing_state
    reset_desk d = record (discard_drawing_state d) {
      palette = [];
      message_count = 0;
      negotiated_version = 0;
      negotiated_capabilities = 0;
      server_rasterizer = none;
      server_closed = false;
      unhandled = [];
      fonts_checked = [];
      fonts_wanted = [];
    }

  unfoldable pub request_resync : (List (List ℕ) → Bool) → Desk P S K → Desk P S K × Bool
  unfolding send_message
  request_resync link d =
      let d' = send_message d (finish (write_u32 (start (value resync)) d.generation)) in
      if bit_and d.negotiated_capabilities cap_resync == 0 then (d, false) else (d', link d'.sent)

  abbrev pub hello_message : Bool → Desk P S K → List ℕ
  hello_message offer d = finish (
      write_u32
        (write_u32
          (write_u32
            (write_u32
              (write_u32 (write_u32 (start (value hello)) protocol_version) (capabilities offer)) 0)
            0)
          (pattern32 d.requested_width))
        (pattern32 d.requested_height))

  -- The messages of `start`.
  unfoldable pub start_desk : Bool → Desk P S K → Desk P S K
  unfolding send_message
  start_desk offer d =
      send_message (send_message d (finish (start (value init_connection)))) (hello_message offer d)

-- `HAIKU_REMOTE_COMPRESSION`, none where it is not set.
unfoldable pub compression_enabled_by_environment : Option (List ℕ) → Bool
unfolding lowered same_text
compression_enabled_by_environment none = true
compression_enabled_by_environment (some value) =
    let text = lowered value in
    not (
      same_text text (b'0' ∷ [])
      || (same_text text (b'f' ∷ b'a' ∷ b'l' ∷ b's' ∷ b'e' ∷ [])
          || (same_text text (b'o' ∷ b'f' ∷ b'f' ∷ []) || same_text text (b'n' ∷ b'o' ∷ []))))
