-- ===== src/Protocol/Reader/Bounds.antt =====
-- No read leaves the payload: each keeps the bytes, moves the offset forward only, and never past
-- the end, whatever the bytes are.
use de_be_os_rdp.Prelude.{
  ℕ, zero, suc, ◌≤◌, ◌≡◌, refl, ◌∙◌, List, Bool, true, false, Result, ok, err, ltb, arith, get_or,
  length, ℤ, pos, negsuc, if◌then◌else◌,
}
use de_be_os_rdp.Protocol.Bytes.{read_u16_le, read_u32_le, read_u64_le}
use de_be_os_rdp.Protocol.Reader.{
  Reader, ReadError, R, ◌>>=◌, ◌>>◌, return, throw, fetch, remaining, require, read_u8,
  read_boolean, read_u16, read_u32, read_i32, read_f32, read_f64, read_raw, read_string, read_times,
  read_counted,
}
use de_be_os_rdp.Protocol.Reader.Records.{
  read_point, read_rect, read_color, read_font, read_glyph_rasterizer, read_font_identity,
  read_matrix, read_transform, read_region,
}
use de_be_os_rdp.Protocol.Reader.Gradient.{
  Kind, linear, radial, radial_focus, diamond, conic, no_kind, read_geometry, read_stop,
  read_gradient,
}

abbrev pub Within : {A : Type 0} → Reader → Result ReadError (A × Reader) → Type 0
Within r (ok (a, r')) = (r'.bytes ≡ r.bytes) × (r.offset ≤ r'.offset) × (r'.offset ≤ length r.bytes)
Within r (err e) = Unit

-- The read `p` stays within the payload.
pub record IsBounded {A : Type 0} (p : R A) : Type 0 where
  pub within : (r : Reader) → r.offset ≤ length r.bytes → Within r (p r)

module _ {A B : Type 0} where
  >>=-Within :
      (r : Reader) (m : Result ReadError (A × Reader)) (f : A → R B)
      → Within r m
      → ((a : A) → IsBounded (f a))
      → Within r (elim m [ ok (a, r') ↦ f a r' | err e ↦ err e ])
  >>=-Within r (err e) f h k = tt
  >>=-Within r (ok (a, r')) f h k = join (f a r') ((k a).within r' (rw h.0 h.2))
    where
      join : (q : Result ReadError (B × Reader)) → Within r' q → Within r q
      join (err e) w = tt
      join (ok (b, r'')) w = (w.0 ∙ h.0, omega arith, rw (← h.0) w.2)

  IsBounded->>= :
      (p : R A) (f : A → R B) → IsBounded p → ((a : A) → IsBounded (f a)) → IsBounded (p >>= f)
  IsBounded->>= p f h k = record { within = λ r i. >>=-Within r (p r) f (h.within r i) k }

IsBounded-return : {A : Type 0} (a : A) → IsBounded (return a)
IsBounded-return a = record { within = λ r i. (refl, omega arith, i) }

fetch-IsBounded : (n : ℕ) (read : List ℕ → ℕ) → IsBounded (require n >> fetch n read)
unfolding require remaining
fetch-IsBounded n read = record { within = λ r i. ground arith }

read_raw-IsBounded : (n : ℕ) → IsBounded (read_raw n)
unfolding read_raw remaining
read_raw-IsBounded n = record { within = λ r i. ground arith }

throw-IsBounded : {A : Type 0} (e : ReadError) → IsBounded (throw {A = A} e)
throw-IsBounded e = record { within = λ r i. tt }

read_u8-IsBounded : IsBounded read_u8
unfolding read_u8
read_u8-IsBounded = fetch-IsBounded 1 (λ p. get_or p 0 0)

read_u16-IsBounded : IsBounded read_u16
unfolding read_u16
read_u16-IsBounded = fetch-IsBounded 2 read_u16_le

read_u32-IsBounded : IsBounded read_u32
unfolding read_u32
read_u32-IsBounded = fetch-IsBounded 4 read_u32_le

read_f64-IsBounded : IsBounded read_f64
unfolding read_f64
read_f64-IsBounded = fetch-IsBounded 8 read_u64_le

read_f32-IsBounded : IsBounded read_f32
unfolding read_f32
read_f32-IsBounded = read_u32-IsBounded

read_boolean-IsBounded : IsBounded read_boolean
unfolding read_boolean
read_boolean-IsBounded = IsBounded->>= _ _ read_u8-IsBounded λ v. IsBounded-return _

ruleset words = (
  IsBounded->>=, IsBounded-return, read_u8-IsBounded, read_u16-IsBounded, read_u32-IsBounded,
  read_f32-IsBounded, read_f64-IsBounded, read_boolean-IsBounded, read_raw-IsBounded,
)

read_i32-IsBounded : IsBounded read_i32
unfolding read_i32
read_i32-IsBounded = search words

read_string-IsBounded : IsBounded read_string
unfolding read_string
read_string-IsBounded = search words

read_point-IsBounded : IsBounded read_point
unfolding read_point
read_point-IsBounded = search words depth 7

read_rect-IsBounded : IsBounded read_rect
unfolding read_rect
read_rect-IsBounded = search words depth 7

read_color-IsBounded : IsBounded read_color
unfolding read_color
read_color-IsBounded = search words depth 7

read_font-IsBounded : IsBounded read_font
unfolding read_font
read_font-IsBounded = search words depth 14

read_glyph_rasterizer-IsBounded : IsBounded read_glyph_rasterizer
unfolding read_glyph_rasterizer
read_glyph_rasterizer-IsBounded = search words depth 7

read_font_identity-IsBounded : IsBounded read_font_identity
unfolding read_font_identity
read_font_identity-IsBounded = search (words, read_string-IsBounded) depth 10

if-IsBounded :
    {A : Type 0} (b : Bool) {p q : R A} → IsBounded p → IsBounded q → IsBounded (if b then p else q)
if-IsBounded true h k = h
if-IsBounded false h k = k

read_matrix-IsBounded : IsBounded read_matrix
unfolding read_matrix
read_matrix-IsBounded = search words depth 9

read_transform-IsBounded : IsBounded read_transform
unfolding read_transform
read_transform-IsBounded =
    IsBounded->>= _ _ read_boolean-IsBounded
      λ b. if-IsBounded b (IsBounded-return _) (search read_matrix-IsBounded)

module _ {A : Type 0} {p : R A} (h : IsBounded p) where
  read_times-IsBounded : (n : ℕ) → IsBounded (read_times n p)
  unfolding read_times
  read_times-IsBounded zero = IsBounded-return _
  read_times-IsBounded (suc n) =
      IsBounded->>= _ _ h λ a. IsBounded->>= _ _ (read_times-IsBounded n) λ as'. IsBounded-return _

  read_counted-IsBounded :
      (z : ℤ) (limit : ℕ) (e : ReadError) → IsBounded (read_counted z limit e p)
  unfolding read_counted
  read_counted-IsBounded (negsuc n) limit e = throw-IsBounded e
  read_counted-IsBounded (pos n) limit e =
      if-IsBounded (ltb limit n) (throw-IsBounded e) (read_times-IsBounded n)

read_region-IsBounded : IsBounded read_region
unfolding read_region
read_region-IsBounded =
    IsBounded->>= _ _ read_i32-IsBounded λ z. read_counted-IsBounded read_rect-IsBounded z _ _

read_geometry-IsBounded : (k : Kind) → IsBounded (read_geometry k)
unfolding read_geometry
read_geometry-IsBounded linear = search (words, read_point-IsBounded) depth 7
read_geometry-IsBounded radial = search (words, read_point-IsBounded) depth 7
read_geometry-IsBounded radial_focus = search (words, read_point-IsBounded) depth 7
read_geometry-IsBounded diamond = search (words, read_point-IsBounded) depth 7
read_geometry-IsBounded conic = search (words, read_point-IsBounded) depth 7
read_geometry-IsBounded no_kind = IsBounded-return _

read_stop-IsBounded : IsBounded read_stop
unfolding read_stop
read_stop-IsBounded = search (words, read_color-IsBounded) depth 7

read_gradient-IsBounded : IsBounded read_gradient
unfolding read_gradient
read_gradient-IsBounded = IsBounded->>= _ _ read_u32-IsBounded λ raw.
    IsBounded->>= _ _ (read_geometry-IsBounded _) λ g. IsBounded->>= _ _ read_i32-IsBounded λ z.
      IsBounded->>= _ _ (read_counted-IsBounded read_stop-IsBounded z _ _)
        λ stops. IsBounded-return _

-- Whatever a payload holds, from an offset within it every composite read throws, or returns with
-- the same payload and an offset that went no way back and not past the end.
pub decoders-Within :
    (r : Reader)
    → r.offset ≤ length r.bytes
    → Within r (read_font r)
      × Within r (read_font_identity r)
      × Within r (read_glyph_rasterizer r)
      × Within r (read_transform r)
      × Within r (read_gradient r)
      × Within r (read_region r)
decoders-Within r h = (
  read_font-IsBounded.within r h,
  read_font_identity-IsBounded.within r h,
  read_glyph_rasterizer-IsBounded.within r h,
  read_transform-IsBounded.within r h,
  read_gradient-IsBounded.within r h,
  read_region-IsBounded.within r h,
)
