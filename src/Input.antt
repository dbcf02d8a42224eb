-- ===== src/Input.antt =====
-- input_encoder.hpp and input_encoder.cpp: the messages that carry input to the server, and the
-- first character of a key event's text. Floats are their bit patterns, texts lists of bytes.
pub mod Utf8
pub mod Messages
use de_be_os_rdp.Prelude.{
  ℕ, zero, suc, ◌+◌, ◌*◌, ◌^◌, List, [], ◌∷◌, Bool, true, false, not, if◌then◌else◌, ltb, ◌==◌,
  length, get_or, bit_and, bit_or, ℤ, pos, negsuc, signed32,
}
use de_be_os_rdp.Protocol.Opcode.{
  Op, value, mouse_moved, mouse_down, mouse_up, mouse_wheel_changed, key_down, key_up,
  modifiers_changed, secure_attention,
}
use de_be_os_rdp.Protocol.Writer.{
  Writer, start, finish, write_f32, write_i32, write_u32, write_string,
}

-- The loop over the continuation bytes, with `left` of them to go; `none` of the source is 0.
unfoldable pub utf8_loop : ℕ → ℕ → ℕ → List ℕ → ℕ
utf8_loop zero i value text = value
utf8_loop (suc left) i value text =
    let byte = get_or text i 0 in
    let more = utf8_loop left (i + 1) (bit_or (value * 2 ^ 6) (bit_and byte 0x3f)) text in
    if not (bit_and byte 0xc0 == 0x80) then 0 else more

-- `count` bytes in all, the first of which gave `value`.
unfoldable pub utf8_tail : ℕ → ℕ → List ℕ → ℕ
unfolding utf8_loop
utf8_tail count value text =
    if ltb (length text) (suc count) then 0 else utf8_loop count 1 value text

-- The result is below 2 ^ 21, so the cast to `int32_t` keeps it.
unfoldable pub first_utf8_scalar : List ℕ → ℕ
unfolding utf8_tail
first_utf8_scalar [] = 0
first_utf8_scalar (first ∷ rest) =
    if ltb first 0x80
    then first
    else if bit_and first 0xe0 == 0xc0
    then utf8_tail 1 (bit_and first 0x1f) (first ∷ rest)
    else if bit_and first 0xf0 == 0xe0
    then utf8_tail 2 (bit_and first 0x0f) (first ∷ rest)
    else if bit_and first 0xf8 == 0xf0
    then utf8_tail 3 (bit_and first 0x07) (first ∷ rest)
    else 0

-- `std::max(1, clicks)`
abbrev pub at_least_one : ℤ → ℤ
at_least_one (pos zero) = pos 1
at_least_one (pos (suc n)) = pos (suc n)
at_least_one (negsuc n) = pos 1

unfoldable pub encode_mouse_moved : ℕ → ℕ → List ℕ
encode_mouse_moved x y = finish (write_f32 (write_f32 (start (value mouse_moved)) x) y)

unfoldable pub encode_mouse_down : ℕ → ℕ → ℕ → ℤ → List ℕ
encode_mouse_down x y pressed_buttons clicks = finish (
    write_i32
      (write_i32 (write_f32 (write_f32 (start (value mouse_down)) x) y) (signed32 pressed_buttons))
      (at_least_one clicks))

unfoldable pub encode_mouse_up : ℕ → ℕ → ℕ → List ℕ
encode_mouse_up x y pressed_buttons =
    finish
      (write_i32 (write_f32 (write_f32 (start (value mouse_up)) x) y) (signed32 pressed_buttons))

unfoldable pub encode_mouse_wheel : ℕ → ℕ → List ℕ
encode_mouse_wheel delta_x delta_y =
    finish (write_f32 (write_f32 (start (value mouse_wheel_changed)) delta_x) delta_y)

unfoldable pub encode_key : Bool → List ℕ → ℤ → ℤ → List ℕ
encode_key down composed_utf8 raw_character haiku_key = finish (
    write_i32
      (write_i32
        (write_string (start (if down then value key_down else value key_up)) composed_utf8)
        raw_character)
      haiku_key)

unfoldable pub encode_modifiers_changed : ℕ → List ℕ
encode_modifiers_changed v = finish (write_u32 (start (value modifiers_changed)) v)

unfoldable pub encode_secure_attention : List ℕ
encode_secure_attention = finish (start (value secure_attention))
