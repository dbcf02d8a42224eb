-- ===== src/Examples/Payloads.antt =====
-- The composite reads on short payloads.
use de_be_os_rdp.Prelude.{ℕ, List, [], ◌∷◌, true, false, arith}
use de_be_os_rdp.Protocol.Reader.{Reader}
use de_be_os_rdp.Protocol.Reader.Records.{
  Font, FontIdentity, Rect, read_font, read_font_identity, read_glyph_rasterizer, read_transform,
  read_region,
}
use de_be_os_rdp.Protocol.Reader.Gradient.{read_gradient}
use de_be_os_rdp.Protocol.Reader.Bounds.{Within, decoders-Within}
use de_be_os_rdp.Protocol.Reader.RoundTrip.{IsFont, IsFontIdentity, IsRect}

abbrev at : List ℕ → Reader
at bytes = record { bytes = bytes; offset = 0 }

decoders-Within_example :
    Within (at (1 ∷ 2 ∷ [])) (read_font (at (1 ∷ 2 ∷ [])))
    × Within (at (1 ∷ 2 ∷ [])) (read_font_identity (at (1 ∷ 2 ∷ [])))
    × Within (at (1 ∷ 2 ∷ [])) (read_glyph_rasterizer (at (1 ∷ 2 ∷ [])))
    × Within (at (1 ∷ 2 ∷ [])) (read_transform (at (1 ∷ 2 ∷ [])))
    × Within (at (1 ∷ 2 ∷ [])) (read_gradient (at (1 ∷ 2 ∷ [])))
    × Within (at (1 ∷ 2 ∷ [])) (read_region (at (1 ∷ 2 ∷ [])))
decoders-Within_example = decoders-Within (at (1 ∷ 2 ∷ [])) (omega arith)

-- A font of 12 points, family 3, style 1.
abbrev sans : Font
sans = record {
  direction = 0;
  encoding = 0;
  flags = 0;
  spacing = 0;
  shear = 0x42b40000;
  rotation = 0;
  false_bold_width = 0;
  size = 0x41400000;
  face = 64;
  family = 3;
  style = 1;
}

sans-IsFont : IsFont sans
sans-IsFont = record {
  direction = omega arith;
  encoding = omega arith;
  flags = omega arith;
  spacing = omega arith;
  shear = omega arith;
  rotation = omega arith;
  false_bold_width = omega arith;
  size = omega arith;
  face = omega arith;
  family = omega arith;
  style = omega arith;
}

abbrev noto : FontIdentity
noto = record {
  family = 78 ∷ 111 ∷ [];
  style = 82 ∷ [];
  face_index = 0;
  checksum_adjustment = 0xb1b0afba;
  font_revision = 0x20000;
  hinting = true;
  subpixel = false;
  path = 47 ∷ 102 ∷ [];
}

noto-IsFontIdentity : IsFontIdentity noto
noto-IsFontIdentity = record {
  family = omega arith;
  style = omega arith;
  face_index = omega arith;
  checksum_adjustment = omega arith;
  font_revision = omega arith;
  path = omega arith;
}

abbrev unit_rect : Rect
unit_rect = record { left = 0; top = 0; right = 0x3f800000; bottom = 0x3f800000 }

unit_rect-IsRect : IsRect unit_rect
unit_rect-IsRect = record {
  left = omega arith;
  top = omega arith;
  right = omega arith;
  bottom = omega arith;
}
