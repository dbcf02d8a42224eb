-- ===== src/Protocol/Reader/Records.antt =====
-- The composite reads of class Reader: geometry, colours, fonts, transforms and regions.
use de_be_os_rdp.Prelude.{ℕ, ◌/◌, ◌%◌, ◌^◌, List, Bool, not, ◌==◌, if◌then◌else◌, bit_and}
use de_be_os_rdp.Protocol.Reader.{
  R, ◌>>=◌, return, read_u8, read_boolean, read_u16, read_u32, read_i32, read_f32, read_f64,
  read_string, read_counted, bad_rect_count,
}

pub record Point : Type 0 where
  pub x : ℕ
  pub y : ℕ

pub record Rect : Type 0 where
  pub left : ℕ
  pub top : ℕ
  pub right : ℕ
  pub bottom : ℕ

pub record Color : Type 0 where
  pub red : ℕ
  pub green : ℕ
  pub blue : ℕ
  pub alpha : ℕ

unfoldable pub read_point : R Point
read_point = do x ← read_f32; y ← read_f32; return (record { x = x; y = y })

unfoldable pub read_rect : R Rect
read_rect = do
  l ← read_f32
  t ← read_f32
  r ← read_f32
  b ← read_f32
  return (record { left = l; top = t; right = r; bottom = b })

unfoldable pub read_color : R Color
read_color = do
  r ← read_u8
  g ← read_u8
  b ← read_u8
  a ← read_u8
  return (record { red = r; green = g; blue = b; alpha = a })

pub record Font : Type 0 where
  pub direction : ℕ
  pub encoding : ℕ
  pub flags : ℕ
  pub spacing : ℕ
  pub shear : ℕ
  pub rotation : ℕ
  pub false_bold_width : ℕ
  pub size : ℕ
  pub face : ℕ
  pub family : ℕ
  pub style : ℕ

unfoldable pub read_font : R Font
read_font = do
  direction ← read_u8
  encoding ← read_u8
  flags ← read_u32
  spacing ← read_u8
  shear ← read_f32
  rotation ← read_f32
  false_bold_width ← read_f32
  size ← read_f32
  face ← read_u16
  family_and_style ← read_u32
  return (record {
    direction = direction;
    encoding = encoding;
    flags = flags;
    spacing = spacing;
    shear = shear;
    rotation = rotation;
    false_bold_width = false_bold_width;
    size = size;
    face = face;
    family = family_and_style / 2 ^ 16 % 2 ^ 16;
    style = bit_and family_and_style 0xffff % 2 ^ 16;
  })

pub record GlyphRasterizer : Type 0 where
  pub engine : ℕ
  pub version : ℕ
  pub flags : ℕ
  pub tt_interpreter : ℕ

unfoldable pub read_glyph_rasterizer : R GlyphRasterizer
read_glyph_rasterizer = do
  engine ← read_u32
  version ← read_u32
  flags ← read_u32
  tt_interpreter ← read_u32
  return (record {
    engine = engine;
    version = version;
    flags = flags;
    tt_interpreter = tt_interpreter;
  })

pub record FontIdentity : Type 0 where
  pub family : List ℕ
  pub style : List ℕ
  pub face_index : ℕ
  pub checksum_adjustment : ℕ
  pub font_revision : ℕ
  pub hinting : Bool
  pub subpixel : Bool
  pub path : List ℕ

unfoldable pub read_font_identity : R FontIdentity
read_font_identity = do
  family ← read_string
  style ← read_string
  face_index ← read_u32
  checksum_adjustment ← read_u32
  font_revision ← read_u32
  render_flags ← read_u8
  path ← read_string
  return (record {
    family = family;
    style = style;
    face_index = face_index;
    checksum_adjustment = checksum_adjustment;
    font_revision = font_revision;
    hinting = not (bit_and render_flags 0x01 == 0);
    subpixel = not (bit_and render_flags 0x02 == 0);
    path = path;
  })

pub record Transform : Type 0 where
  pub sx : ℕ
  pub shy : ℕ
  pub shx : ℕ
  pub sy : ℕ
  pub tx : ℕ
  pub ty : ℕ

-- The pattern of the double 1.0.
abbrev pub one_f64 : ℕ
one_f64 = 0x3ff0_0000_0000_0000

abbrev pub identity : Transform
identity = record { sx = one_f64; shy = 0; shx = 0; sy = one_f64; tx = 0; ty = 0 }

unfoldable pub read_matrix : R Transform
read_matrix = do
  sx ← read_f64
  shy ← read_f64
  shx ← read_f64
  sy ← read_f64
  tx ← read_f64
  ty ← read_f64
  return (record { sx = sx; shy = shy; shx = shx; sy = sy; tx = tx; ty = ty })

unfoldable pub read_transform : R Transform
unfolding read_matrix
read_transform = do is_identity ← read_boolean; if is_identity then return identity else read_matrix

unfoldable pub read_region : R (List Rect)
unfolding read_counted
read_region = do count ← read_i32; read_counted count (2 ^ 20) bad_rect_count read_rect
