-- ===== src/Protocol/Reader/RoundTrip.antt =====
-- Every composite read against the layout in which the server writes the value.
use de_be_os_rdp.Prelude.{
  ℕ, ◌+◌, ◌*◌, ◌/◌, ◌%◌, ◌^◌, ◌≤◌, ◌<◌, ◌≡◌, refl, ◌∙◌, List, [], ◌∷◌, ◌++◌, append-nil, ok, err,
  arith, length, All, IsByte, IsU16, IsU32, ℤ, pos, Bool, true, false, le→ltb, lt→ltb, negsuc,
  IsI32, if◌then◌else◌, bit_and, bit_and-u16, pattern32, not, ◌==◌,
}
use de_be_os_rdp.Protocol.Bytes.{le16, le32}
use de_be_os_rdp.Protocol.Reader.{
  Reader, ReadError, R, here, advance, read_i32, read_counted, read_times, bad_rect_count,
}
use de_be_os_rdp.Protocol.Reader.Records.{
  Rect, Font, FontIdentity, read_rect, read_font, read_font_identity, read_region,
}
use de_be_os_rdp.Protocol.Reader.Layout.{
  Reads, >>=-run, Reads-return, Reads->>=, read_u8-Reads, read_u16-Reads, read_u32-Reads,
  read_f32-Reads, read_i32-Reads, read_string-Reads, string_bytes,
}

pub record IsRect (r : Rect) : Type 0 where
  pub left : IsU32 r.left
  pub top : IsU32 r.top
  pub right : IsU32 r.right
  pub bottom : IsU32 r.bottom

abbrev pub rect_bytes : Rect → List ℕ
rect_bytes r = le32 r.left ++ (le32 r.top ++ (le32 r.right ++ (le32 r.bottom ++ [])))

read_rect-Reads : (r : Rect) → IsRect r → Reads read_rect (rect_bytes r) r
unfolding read_rect
read_rect-Reads r h = Reads->>= _ _ (read_f32-Reads r.left h.left) (
    Reads->>= _ _ (read_f32-Reads r.top h.top) (
      Reads->>= _ _ (read_f32-Reads r.right h.right)
        (Reads->>= _ _ (read_f32-Reads r.bottom h.bottom) (Reads-return _ _ refl))))

pub record IsFont (f : Font) : Type 0 where
  pub direction : IsByte f.direction
  pub encoding : IsByte f.encoding
  pub flags : IsU32 f.flags
  pub spacing : IsByte f.spacing
  pub shear : IsU32 f.shear
  pub rotation : IsU32 f.rotation
  pub false_bold_width : IsU32 f.false_bold_width
  pub size : IsU32 f.size
  pub face : IsU16 f.face
  pub family : IsU16 f.family
  pub style : IsU16 f.style

-- The font record as it stands in RP_SET_FONT: 29 bytes, the family above the style in one word.
abbrev pub font_bytes : Font → List ℕ
font_bytes f =
    (f.direction ∷ [])
    ++ ((f.encoding ∷ [])
        ++ (le32 f.flags
            ++ ((f.spacing ∷ [])
                ++ (le32 f.shear
                    ++ (le32 f.rotation
                        ++ (le32 f.false_bold_width
                            ++ (le32 f.size
                                ++ (le16 f.face ++ (le32 (f.family * 65536 + f.style) ++ [])))))))))

-- Splitting the last word gives the two halves back.
font_word :
    (f : Font)
    → IsFont f
    → record f {
      family = (f.family * 65536 + f.style) / 2 ^ 16 % 2 ^ 16;
      style = bit_and (f.family * 65536 + f.style) 0xffff % 2 ^ 16;
    }
      ≡ f
font_word f h = ground (arith, bit_and-u16 (f.family * 65536 + f.style))

read_font-Reads : (f : Font) → IsFont f → Reads read_font (font_bytes f) f
unfolding read_font
read_font-Reads f h = Reads->>= _ _ (read_u8-Reads f.direction) (
    Reads->>= _ _ (read_u8-Reads f.encoding) (
      Reads->>= _ _ (read_u32-Reads f.flags h.flags) (
        Reads->>= _ _ (read_u8-Reads f.spacing) (
          Reads->>= _ _ (read_f32-Reads f.shear h.shear) (
            Reads->>= _ _ (read_f32-Reads f.rotation h.rotation) (
              Reads->>= _ _ (read_f32-Reads f.false_bold_width h.false_bold_width) (
                Reads->>= _ _ (read_f32-Reads f.size h.size) (
                  Reads->>= _ _ (read_u16-Reads f.face h.face) (
                    Reads->>= _ _
                      (read_u32-Reads (f.family * 65536 + f.style)
                        (omega (arith, h.family, h.style)))
                      (Reads-return _ _ (font_word f h)))))))))))

-- From the 29 bytes of a font record, whatever follows them, Reader::font reads that record and
-- steps over just those bytes.
pub font_layout :
    (f : Font) (r : Reader) (tail : List ℕ)
    → IsFont f
    → here r ≡ font_bytes f ++ tail
    → read_font r ≡ ok (f, advance r 29)
unfolding le16 le32
font_layout f r tail h e = (read_font-Reads f h).run r tail e

abbrev flag_byte : Bool → Bool → ℕ
flag_byte hinting subpixel = (if hinting then 1 else 0) + (if subpixel then 2 else 0)

-- The identity block of RP_SET_FONT, as RemoteMessage::AddFontIdentity writes it.
abbrev pub identity_bytes : FontIdentity → List ℕ
identity_bytes f =
    string_bytes f.family
    ++ (string_bytes f.style
        ++ (le32 f.face_index
            ++ (le32 f.checksum_adjustment
                ++ (le32 f.font_revision
                    ++ ((flag_byte f.hinting f.subpixel ∷ []) ++ (string_bytes f.path ++ []))))))

pub record IsFontIdentity (f : FontIdentity) : Type 0 where
  pub family : IsU32 (length f.family)
  pub style : IsU32 (length f.style)
  pub face_index : IsU32 f.face_index
  pub checksum_adjustment : IsU32 f.checksum_adjustment
  pub font_revision : IsU32 f.font_revision
  pub path : IsU32 (length f.path)

hinting_bit : (a b : Bool) → not (bit_and (flag_byte a b) 0x01 == 0) ≡ a
hinting_bit true true = refl
hinting_bit true false = refl
hinting_bit false true = refl
hinting_bit false false = refl

subpixel_bit : (a b : Bool) → not (bit_and (flag_byte a b) 0x02 == 0) ≡ b
subpixel_bit true true = refl
subpixel_bit true false = refl
subpixel_bit false true = refl
subpixel_bit false false = refl

read_font_identity-Reads :
    (f : FontIdentity) → IsFontIdentity f → Reads read_font_identity (identity_bytes f) f
unfolding read_font_identity
read_font_identity-Reads f h = Reads->>= _ _ (read_string-Reads f.family h.family) (
    Reads->>= _ _ (read_string-Reads f.style h.style) (
      Reads->>= _ _ (read_u32-Reads f.face_index h.face_index) (
        Reads->>= _ _ (read_u32-Reads f.checksum_adjustment h.checksum_adjustment) (
          Reads->>= _ _ (read_u32-Reads f.font_revision h.font_revision) (
            Reads->>= _ _ (read_u8-Reads (flag_byte f.hinting f.subpixel)) (
              Reads->>= _ _ (read_string-Reads f.path h.path) (
                Reads-return _ _ (
                  rw (hinting_bit f.hinting f.subpixel, subpixel_bit f.hinting f.subpixel)
                    refl))))))))

-- From the identity block that the server writes, Reader::font_identity reads the names, numbers,
-- both flags and the path back, and leaves what a later revision adds behind the path unread.
pub font_identity_layout :
    (f : FontIdentity) (r : Reader) (tail : List ℕ)
    → IsFontIdentity f
    → here r ≡ identity_bytes f ++ tail
    → read_font_identity r ≡ ok (f, advance r (length (identity_bytes f)))
font_identity_layout f r tail h e = (read_font_identity-Reads f h).run r tail e

abbrev rects_bytes : List Rect → List ℕ
rects_bytes [] = []
rects_bytes (r ∷ rs) = rect_bytes r ++ rects_bytes rs

-- A region on the wire: an `int32_t` count, and the rectangles.
abbrev pub region_bytes : List Rect → List ℕ
region_bytes rs = le32 (length rs) ++ rects_bytes rs

read_rects-Reads :
    (rs : List Rect) → All IsRect rs → Reads (read_times (length rs) read_rect) (rects_bytes rs) rs
unfolding read_times
read_rects-Reads [] h = Reads-return _ _ refl
read_rects-Reads (r ∷ rs) h = Reads->>= _ _ (read_rect-Reads r h.0) (
    rw (← append-nil (rects_bytes rs))
      (Reads->>= _ _ (read_rects-Reads rs h.1) (Reads-return _ _ refl)))

read_region-Reads :
    (rs : List Rect) → All IsRect rs → length rs ≤ 2 ^ 20 → Reads read_region (region_bytes rs) rs
unfolding read_region pattern32
read_region-Reads rs h n =
    Reads->>= _ _ (read_i32-Reads (pos (length rs)) (omega arith))
      (rw (le→ltb (2 ^ 20) (length rs) n) (read_rects-Reads rs h))

-- A region of at most 2 ^ 20 rectangles is read back, in order.
pub region_layout :
    (rs : List Rect) (r : Reader) (tail : List ℕ)
    → All IsRect rs
    → length rs ≤ 2 ^ 20
    → here r ≡ region_bytes rs ++ tail
    → read_region r ≡ ok (rs, advance r (length (region_bytes rs)))
region_layout rs r tail h n e = (read_region-Reads rs h n).run r tail e

abbrev pub IsBadCount : ℕ → ℤ → Type 0
IsBadCount limit (pos n) = limit < n
IsBadCount limit (negsuc n) = Unit

read_counted-refused :
    {A : Type 0} (p : R A) (z : ℤ) (limit : ℕ) (e : ReadError) (r : Reader)
    → IsBadCount limit z
    → read_counted z limit e p r ≡ err e
unfolding read_counted
read_counted-refused p (pos n) limit e r h = rw (lt→ltb limit n h)
read_counted-refused p (negsuc n) limit e r h = refl

-- A rectangle count that is negative, or above 2 ^ 20, is refused before any rectangle is read.
pub region_refused :
    (z : ℤ) (r : Reader) (tail : List ℕ)
    → IsI32 z
    → IsBadCount (2 ^ 20) z
    → here r ≡ le32 (pattern32 z) ++ tail
    → read_region r ≡ err bad_rect_count
unfolding read_region
region_refused z r tail h bad e =
    >>=-run read_i32 (λ count. read_counted count (2 ^ 20) bad_rect_count read_rect) r
      ((read_i32-Reads z h).run r tail e)
    ∙ read_counted-refused read_rect z (2 ^ 20) bad_rect_count (advance r _) bad
