-- ===== src/Protocol/Opcode.antt =====
-- The opcode table of protocol.hpp (HAIKU_REMOTE_OP_TABLE) and what is generated from it: the
-- enumeration, its values, its wire names, and the list of all opcodes.
use Prim.Native.String.{String}
use de_be_os_rdp.Prelude.{
  ℕ, ◌<◌, ◌≡◌, refl, ap, ◌∙◌, List, [], ◌∷◌, ◌++◌, Bool, true, false, Option, none, some, arith,
  ◌==◌, ==_iff, if◌then◌else◌, codes, to_string, Bool-cases, inl, inr,
}

pub data Op : Type 0 where
  init_connection update_display_mode close_connection get_system_palette
        get_system_palette_result :
      Op
  hello hello_ack resync authenticate auth_result : Op
  session_cookie glyph_rasterizer create_state delete_state enable_sync_drawing : Op
  disable_sync_drawing invalidate_rect invalidate_region set_offsets set_high_color : Op
  set_low_color set_pen_size set_stroke_mode set_blending_mode set_pattern : Op
  set_drawing_mode set_font set_transform set_subpixel_precise constrain_clipping_region : Op
  copy_rect_no_clipping invert_rect draw_bitmap draw_bitmap_rects stroke_arc : Op
  stroke_bezier stroke_ellipse stroke_polygon stroke_rect stroke_round_rect : Op
  stroke_shape stroke_triangle stroke_line stroke_line_array fill_arc : Op
  fill_bezier fill_ellipse fill_polygon fill_rect fill_round_rect : Op
  fill_shape fill_triangle fill_region fill_arc_gradient fill_bezier_gradient : Op
  fill_ellipse_gradient fill_polygon_gradient fill_rect_gradient fill_round_rect_gradient
        fill_shape_gradient :
      Op
  fill_triangle_gradient fill_region_gradient stroke_point_color stroke_line_1px_color
        stroke_rect_1px_color :
      Op
  fill_rect_color fill_region_color_no_clipping draw_string draw_string_with_offsets
        draw_string_result :
      Op
  string_width string_width_result read_bitmap read_bitmap_result set_cursor : Op
  set_cursor_visible move_cursor_to mouse_moved mouse_down mouse_up : Op
  mouse_wheel_changed key_down key_up unmapped_key_down unmapped_key_up : Op
  modifiers_changed secure_attention stroke_arc_gradient stroke_bezier_gradient
        stroke_ellipse_gradient :
      Op
  stroke_polygon_gradient stroke_rect_gradient stroke_round_rect_gradient stroke_shape_gradient
        stroke_triangle_gradient :
      Op
  stroke_line_gradient tier_begin_frame codec_tile tier_end_frame audio_packet : Op
  frame_ack : Op

-- The value of an enumerator.
unfoldable pub value : Op → ℕ
value init_connection = 1
value update_display_mode = 2
value close_connection = 3
value get_system_palette = 4
value get_system_palette_result = 5
value hello = 6
value hello_ack = 7
value resync = 8
value authenticate = 10
value auth_result = 11
value session_cookie = 12
value glyph_rasterizer = 13
value create_state = 20
value delete_state = 21
value enable_sync_drawing = 22
value disable_sync_drawing = 23
value invalidate_rect = 24
value invalidate_region = 25
value set_offsets = 40
value set_high_color = 41
value set_low_color = 42
value set_pen_size = 43
value set_stroke_mode = 44
value set_blending_mode = 45
value set_pattern = 46
value set_drawing_mode = 47
value set_font = 48
value set_transform = 49
value set_subpixel_precise = 50
value constrain_clipping_region = 60
value copy_rect_no_clipping = 61
value invert_rect = 62
value draw_bitmap = 63
value draw_bitmap_rects = 64
value stroke_arc = 80
value stroke_bezier = 81
value stroke_ellipse = 82
value stroke_polygon = 83
value stroke_rect = 84
value stroke_round_rect = 85
value stroke_shape = 86
value stroke_triangle = 87
value stroke_line = 88
value stroke_line_array = 89
value fill_arc = 100
value fill_bezier = 101
value fill_ellipse = 102
value fill_polygon = 103
value fill_rect = 104
value fill_round_rect = 105
value fill_shape = 106
value fill_triangle = 107
value fill_region = 108
value fill_arc_gradient = 120
value fill_bezier_gradient = 121
value fill_ellipse_gradient = 122
value fill_polygon_gradient = 123
value fill_rect_gradient = 124
value fill_round_rect_gradient = 125
value fill_shape_gradient = 126
value fill_triangle_gradient = 127
value fill_region_gradient = 128
value stroke_point_color = 140
value stroke_line_1px_color = 141
value stroke_rect_1px_color = 142
value fill_rect_color = 160
value fill_region_color_no_clipping = 161
value draw_string = 180
value draw_string_with_offsets = 181
value draw_string_result = 182
value string_width = 183
value string_width_result = 184
value read_bitmap = 185
value read_bitmap_result = 186
value set_cursor = 200
value set_cursor_visible = 201
value move_cursor_to = 202
value mouse_moved = 220
value mouse_down = 221
value mouse_up = 222
value mouse_wheel_changed = 223
value key_down = 240
value key_up = 241
value unmapped_key_down = 242
value unmapped_key_up = 243
value modifiers_changed = 244
value secure_attention = 245
value stroke_arc_gradient = 260
value stroke_bezier_gradient = 261
value stroke_ellipse_gradient = 262
value stroke_polygon_gradient = 263
value stroke_rect_gradient = 264
value stroke_round_rect_gradient = 265
value stroke_shape_gradient = 266
value stroke_triangle_gradient = 267
value stroke_line_gradient = 268
value tier_begin_frame = 280
value codec_tile = 281
value tier_end_frame = 282
value audio_packet = 283
value frame_ack = 284

unfoldable pub wire_name : Op → String
wire_name init_connection = "RP_INIT_CONNECTION"
wire_name update_display_mode = "RP_UPDATE_DISPLAY_MODE"
wire_name close_connection = "RP_CLOSE_CONNECTION"
wire_name get_system_palette = "RP_GET_SYSTEM_PALETTE"
wire_name get_system_palette_result = "RP_GET_SYSTEM_PALETTE_RESULT"
wire_name hello = "RP_HELLO"
wire_name hello_ack = "RP_HELLO_ACK"
wire_name resync = "RP_RESYNC"
wire_name authenticate = "RP_AUTHENTICATE"
wire_name auth_result = "RP_AUTH_RESULT"
wire_name session_cookie = "RP_SESSION_COOKIE"
wire_name glyph_rasterizer = "RP_GLYPH_RASTERIZER"
wire_name create_state = "RP_CREATE_STATE"
wire_name delete_state = "RP_DELETE_STATE"
wire_name enable_sync_drawing = "RP_ENABLE_SYNC_DRAWING"
wire_name disable_sync_drawing = "RP_DISABLE_SYNC_DRAWING"
wire_name invalidate_rect = "RP_INVALIDATE_RECT"
wire_name invalidate_region = "RP_INVALIDATE_REGION"
wire_name set_offsets = "RP_SET_OFFSETS"
wire_name set_high_color = "RP_SET_HIGH_COLOR"
wire_name set_low_color = "RP_SET_LOW_COLOR"
wire_name set_pen_size = "RP_SET_PEN_SIZE"
wire_name set_stroke_mode = "RP_SET_STROKE_MODE"
wire_name set_blending_mode = "RP_SET_BLENDING_MODE"
wire_name set_pattern = "RP_SET_PATTERN"
wire_name set_drawing_mode = "RP_SET_DRAWING_MODE"
wire_name set_font = "RP_SET_FONT"
wire_name set_transform = "RP_SET_TRANSFORM"
wire_name set_subpixel_precise = "RP_SET_SUBPIXEL_PRECISE"
wire_name constrain_clipping_region = "RP_CONSTRAIN_CLIPPING_REGION"
wire_name copy_rect_no_clipping = "RP_COPY_RECT_NO_CLIPPING"
wire_name invert_rect = "RP_INVERT_RECT"
wire_name draw_bitmap = "RP_DRAW_BITMAP"
wire_name draw_bitmap_rects = "RP_DRAW_BITMAP_RECTS"
wire_name stroke_arc = "RP_STROKE_ARC"
wire_name stroke_bezier = "RP_STROKE_BEZIER"
wire_name stroke_ellipse = "RP_STROKE_ELLIPSE"
wire_name stroke_polygon = "RP_STROKE_POLYGON"
wire_name stroke_rect = "RP_STROKE_RECT"
wire_name stroke_round_rect = "RP_STROKE_ROUND_RECT"
wire_name stroke_shape = "RP_STROKE_SHAPE"
wire_name stroke_triangle = "RP_STROKE_TRIANGLE"
wire_name stroke_line = "RP_STROKE_LINE"
wire_name stroke_line_array = "RP_STROKE_LINE_ARRAY"
wire_name fill_arc = "RP_FILL_ARC"
wire_name fill_bezier = "RP_FILL_BEZIER"
wire_name fill_ellipse = "RP_FILL_ELLIPSE"
wire_name fill_polygon = "RP_FILL_POLYGON"
wire_name fill_rect = "RP_FILL_RECT"
wire_name fill_round_rect = "RP_FILL_ROUND_RECT"
wire_name fill_shape = "RP_FILL_SHAPE"
wire_name fill_triangle = "RP_FILL_TRIANGLE"
wire_name fill_region = "RP_FILL_REGION"
wire_name fill_arc_gradient = "RP_FILL_ARC_GRADIENT"
wire_name fill_bezier_gradient = "RP_FILL_BEZIER_GRADIENT"
wire_name fill_ellipse_gradient = "RP_FILL_ELLIPSE_GRADIENT"
wire_name fill_polygon_gradient = "RP_FILL_POLYGON_GRADIENT"
wire_name fill_rect_gradient = "RP_FILL_RECT_GRADIENT"
wire_name fill_round_rect_gradient = "RP_FILL_ROUND_RECT_GRADIENT"
wire_name fill_shape_gradient = "RP_FILL_SHAPE_GRADIENT"
wire_name fill_triangle_gradient = "RP_FILL_TRIANGLE_GRADIENT"
wire_name fill_region_gradient = "RP_FILL_REGION_GRADIENT"
wire_name stroke_point_color = "RP_STROKE_POINT_COLOR"
wire_name stroke_line_1px_color = "RP_STROKE_LINE_1PX_COLOR"
wire_name stroke_rect_1px_color = "RP_STROKE_RECT_1PX_COLOR"
wire_name fill_rect_color = "RP_FILL_RECT_COLOR"
wire_name fill_region_color_no_clipping = "RP_FILL_REGION_COLOR_NO_CLIPPING"
wire_name draw_string = "RP_DRAW_STRING"
wire_name draw_string_with_offsets = "RP_DRAW_STRING_WITH_OFFSETS"
wire_name draw_string_result = "RP_DRAW_STRING_RESULT"
wire_name string_width = "RP_STRING_WIDTH"
wire_name string_width_result = "RP_STRING_WIDTH_RESULT"
wire_name read_bitmap = "RP_READ_BITMAP"
wire_name read_bitmap_result = "RP_READ_BITMAP_RESULT"
wire_name set_cursor = "RP_SET_CURSOR"
wire_name set_cursor_visible = "RP_SET_CURSOR_VISIBLE"
wire_name move_cursor_to = "RP_MOVE_CURSOR_TO"
wire_name mouse_moved = "RP_MOUSE_MOVED"
wire_name mouse_down = "RP_MOUSE_DOWN"
wire_name mouse_up = "RP_MOUSE_UP"
wire_name mouse_wheel_changed = "RP_MOUSE_WHEEL_CHANGED"
wire_name key_down = "RP_KEY_DOWN"
wire_name key_up = "RP_KEY_UP"
wire_name unmapped_key_down = "RP_UNMAPPED_KEY_DOWN"
wire_name unmapped_key_up = "RP_UNMAPPED_KEY_UP"
wire_name modifiers_changed = "RP_MODIFIERS_CHANGED"
wire_name secure_attention = "RP_SECURE_ATTENTION"
wire_name stroke_arc_gradient = "RP_STROKE_ARC_GRADIENT"
wire_name stroke_bezier_gradient = "RP_STROKE_BEZIER_GRADIENT"
wire_name stroke_ellipse_gradient = "RP_STROKE_ELLIPSE_GRADIENT"
wire_name stroke_polygon_gradient = "RP_STROKE_POLYGON_GRADIENT"
wire_name stroke_rect_gradient = "RP_STROKE_RECT_GRADIENT"
wire_name stroke_round_rect_gradient = "RP_STROKE_ROUND_RECT_GRADIENT"
wire_name stroke_shape_gradient = "RP_STROKE_SHAPE_GRADIENT"
wire_name stroke_triangle_gradient = "RP_STROKE_TRIANGLE_GRADIENT"
wire_name stroke_line_gradient = "RP_STROKE_LINE_GRADIENT"
wire_name tier_begin_frame = "RP_TIER_BEGIN_FRAME"
wire_name codec_tile = "RP_CODEC_TILE"
wire_name tier_end_frame = "RP_TIER_END_FRAME"
wire_name audio_packet = "RP_AUDIO_PACKET"
wire_name frame_ack = "RP_FRAME_ACK"

-- Every opcode, in table order.
unfoldable pub all_ops : List Op
all_ops =
    init_connection ∷ update_display_mode ∷ close_connection ∷ get_system_palette
    ∷ get_system_palette_result ∷ hello ∷ hello_ack ∷ resync ∷ authenticate ∷ auth_result
    ∷ session_cookie ∷ glyph_rasterizer ∷ create_state ∷ delete_state ∷ enable_sync_drawing
    ∷ disable_sync_drawing ∷ invalidate_rect ∷ invalidate_region ∷ set_offsets ∷ set_high_color
    ∷ set_low_color ∷ set_pen_size ∷ set_stroke_mode ∷ set_blending_mode ∷ set_pattern
    ∷ set_drawing_mode ∷ set_font ∷ set_transform ∷ set_subpixel_precise ∷ constrain_clipping_region
    ∷ copy_rect_no_clipping ∷ invert_rect ∷ draw_bitmap ∷ draw_bitmap_rects ∷ stroke_arc
    ∷ stroke_bezier ∷ stroke_ellipse ∷ stroke_polygon ∷ stroke_rect ∷ stroke_round_rect
    ∷ stroke_shape ∷ stroke_triangle ∷ stroke_line ∷ stroke_line_array ∷ fill_arc ∷ fill_bezier
    ∷ fill_ellipse ∷ fill_polygon ∷ fill_rect ∷ fill_round_rect ∷ fill_shape ∷ fill_triangle
    ∷ fill_region ∷ fill_arc_gradient ∷ fill_bezier_gradient ∷ fill_ellipse_gradient
    ∷ fill_polygon_gradient ∷ fill_rect_gradient ∷ fill_round_rect_gradient ∷ fill_shape_gradient
    ∷ fill_triangle_gradient ∷ fill_region_gradient ∷ stroke_point_color ∷ stroke_line_1px_color
    ∷ stroke_rect_1px_color ∷ fill_rect_color ∷ fill_region_color_no_clipping ∷ draw_string
    ∷ draw_string_with_offsets ∷ draw_string_result ∷ string_width ∷ string_width_result
    ∷ read_bitmap ∷ read_bitmap_result ∷ set_cursor ∷ set_cursor_visible ∷ move_cursor_to
    ∷ mouse_moved ∷ mouse_down ∷ mouse_up ∷ mouse_wheel_changed ∷ key_down ∷ key_up
    ∷ unmapped_key_down ∷ unmapped_key_up ∷ modifiers_changed ∷ secure_attention
    ∷ stroke_arc_gradient ∷ stroke_bezier_gradient ∷ stroke_ellipse_gradient
    ∷ stroke_polygon_gradient ∷ stroke_rect_gradient ∷ stroke_round_rect_gradient
    ∷ stroke_shape_gradient ∷ stroke_triangle_gradient ∷ stroke_line_gradient ∷ tier_begin_frame
    ∷ codec_tile ∷ tier_end_frame ∷ audio_packet ∷ frame_ack ∷ []

find_value : List Op → ℕ → Option Op
find_value [] v = none
find_value (op ∷ ops) v = if value op == v then some op else find_value ops v

-- The enumerator with a value, if the protocol defines one. A raw `Op` is any 16-bit value.
unfoldable pub of_value : ℕ → Option Op
unfolding find_value all_ops value
of_value v = find_value all_ops v

-- The wire name of a raw opcode; one that the table lacks is reported with its number.
unfoldable pub op_name : ℕ → List ℕ
unfolding of_value wire_name
op_name v = elim (of_value v) [
  | some op ↦ codes (wire_name op)
  | none ↦ codes "RP_UNKNOWN(" ++ (to_string v ++ codes ")")
]

session_level : Op → Bool
session_level init_connection = true
session_level close_connection = true
session_level hello_ack = true
session_level glyph_rasterizer = true
session_level resync = true
session_level get_system_palette_result = true
session_level create_state = true
session_level delete_state = true
session_level invalidate_rect = true
session_level invalidate_region = true
session_level copy_rect_no_clipping = true
session_level fill_region_color_no_clipping = true
session_level set_cursor = true
session_level set_cursor_visible = true
session_level move_cursor_to = true
session_level _ = false

-- Messages that belong to the session and not to a drawing state.
unfoldable pub is_session_level : ℕ → Bool
unfolding of_value session_level
is_session_level v = elim (of_value v) [ some op ↦ session_level op | none ↦ false ]

-- The table gives every opcode a value of its own: looking the value up finds the opcode.
pub of_value-value : (op : Op) → of_value (value op) ≡ some op
unfolding of_value value
of_value-value init_connection = refl
of_value-value _ = refl

-- What the static_assert in protocol.cpp holds the table to: every value is below 0x2808.
pub value-lt : (op : Op) → value op < 0x2808
unfolding value
value-lt init_connection = omega arith
value-lt _ = omega arith

find_value-eq : (ops : List Op) (v : ℕ) {op : Op} → find_value ops v ≡ some op → value op ≡ v
unfolding find_value
find_value-eq [] v h = cc
find_value-eq (x ∷ ops) v {op} h = elim (Bool-cases (value x == v)) [
  | inl hit ↦ found hit (rw (hit, find_value) at h)
  | inr miss ↦ find_value-eq ops v (rw (miss, find_value) at h)
]
  where
    found : (value x == v) ≡ true → some x ≡ some op → value op ≡ v
    found hit e = let same : op ≡ x = cc in ap value same ∙ (==_iff (value x) v).0 hit

-- Only the opcode with a value is found under it.
pub of_value-eq : (v : ℕ) {op : Op} → of_value v ≡ some op → value op ≡ v
unfolding of_value
of_value-eq v h = find_value-eq all_ops v h
