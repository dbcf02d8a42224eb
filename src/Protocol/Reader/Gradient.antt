-- ===== src/Protocol/Reader/Gradient.antt =====
-- Reader::gradient: the kind decides which geometry follows, then a counted list of colour stops.
use de_be_os_rdp.Prelude.{ℕ, List, [], ◌==◌, if◌then◌else◌}
use de_be_os_rdp.Protocol.Reader.{
  R, ◌>>=◌, return, read_u32, read_i32, read_f32, read_counted, bad_stop_count,
}
use de_be_os_rdp.Protocol.Reader.Records.{Point, Color, read_point, read_color}

pub data Kind : Type 0 where
  linear radial radial_focus diamond conic no_kind : Kind

pub record GradientStop : Type 0 where
  pub color : Color
  pub offset : ℕ

pub record Gradient : Type 0 where
  pub kind : Kind
  pub start : Point
  pub end : Point
  pub center : Point
  pub focal : Point
  pub radius : ℕ
  pub angle : ℕ
  pub stops : List GradientStop

-- A kind that the enumeration does not have is read as `none`.
unfoldable pub kind_of : ℕ → Kind
kind_of raw =
    if raw == 0
    then linear
    else if raw == 1
    then radial
    else if raw == 2
    then radial_focus
    else if raw == 3
    then diamond
    else if raw == 4
    then conic
    else no_kind

abbrev pub origin : Point
origin = record { x = 0; y = 0 }

-- `Gradient result;` with its kind.
abbrev pub blank : Kind → Gradient
blank k = record {
  kind = k;
  start = origin;
  end = origin;
  center = origin;
  focal = origin;
  radius = 0;
  angle = 0;
  stops = [];
}

-- The switch over the kind.
unfoldable pub read_geometry : Kind → R Gradient
read_geometry linear = do
  start ← read_point
  end ← read_point
  return (record (blank linear) { start = start; end = end })
read_geometry radial = do
  center ← read_point
  radius ← read_f32
  return (record (blank radial) { center = center; radius = radius })
read_geometry radial_focus = do
  center ← read_point
  focal ← read_point
  radius ← read_f32
  return (record (blank radial_focus) { center = center; focal = focal; radius = radius })
read_geometry diamond = do center ← read_point; return (record (blank diamond) { center = center })
read_geometry conic = do
  center ← read_point
  angle ← read_f32
  return (record (blank conic) { center = center; angle = angle })
read_geometry no_kind = return (blank no_kind)

unfoldable pub read_stop : R GradientStop
read_stop = do
  color ← read_color
  offset ← read_f32
  return (record { color = color; offset = offset })

unfoldable pub read_gradient : R Gradient
unfolding kind_of read_geometry
read_gradient = do
  raw_kind ← read_u32
  g ← read_geometry (kind_of raw_kind)
  count ← read_i32
  stops ← read_counted count 65536 bad_stop_count read_stop
  return (record g { stops = stops })
