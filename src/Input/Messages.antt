-- ===== src/Input/Messages.antt =====
-- The input messages as a server sees them: framed, and read field by field in the order written.
use native.Mathlib.Nat.{zero-add}
use de_be_os_rdp.Prelude.{
  All-append, ℕ, zero, suc, pos, negsuc, inl, inr, ltb→lt, ltb→le, Bool-cases, ◌^◌, ◌≤◌, ◌≡◌, refl,
  sym, ap, subst, ◌∙◌, List, [], ◌∷◌, ◌++◌, append_assoc, append-nil, Bool, true, false,
  if◌then◌else◌, none, Result, ok, arith, ltb, length, length-append, All, IsByte, IsU32, u32, ℤ,
  IsI32, signed32, pattern32,
}
use de_be_os_rdp.Protocol.Bytes.{le16, le32, All-le32}
use de_be_os_rdp.Protocol.Opcode.{Op, value, value-lt, key_down, key_up, mouse_down}
use de_be_os_rdp.Protocol.Writer
use de_be_os_rdp.Protocol.Writer.{
  Writer, start, start-bytes, finish, finish-frame, write_string-bytes, write_i32-bytes,
  write_f32-bytes,
}
use de_be_os_rdp.Protocol.Framer.{Message, FrameError, Framer, feed}
use de_be_os_rdp.Protocol.Framer.Stream.{encode, length-frame}
use de_be_os_rdp.Protocol.Framer.RoundTrip.{IsPlain, feed-encode}
use de_be_os_rdp.Protocol.Reader.{R, ◌>>=◌, return, read_string, read_i32, read_f32}
use de_be_os_rdp.Protocol.Reader.Layout.{
  Reads, Reads->>=, Reads-return, read_string-Reads, read_i32-Reads, read_f32-Reads, string_bytes,
}
use de_be_os_rdp.Input.{encode_key, encode_mouse_down, at_least_one}

-- A framer returns exactly one message, of opcode `op`, and `p` reads `a` from its whole payload.
pub record Delivers {A : Type 0} (f : Framer) (sent : List ℕ) (op : ℕ) (p : R A) (a : A)
    : Type 0 where
  pub payload : List ℕ
  pub framed : (feed f sent none false).1 ≡ ok (record { op = op; payload = payload } ∷ [])
  pub decoded :
      p (record { bytes = payload; offset = 0 })
      ≡ ok (a, record { bytes = payload; offset = length payload })

module _ {A : Type 0} (f : Framer) (p : R A) (live : f.failure ≡ none) (empty : f.buffer ≡ []) where
  delivers :
      (op : ℕ) (payload sent : List ℕ) (a : A)
      → IsPlain (record { op = op; payload = payload })
      → sent ≡ Writer.frame op payload
      → Reads p payload a
      → Delivers f sent op p a
  delivers op payload sent a plain e reads =
      let m : Message = record { op = op; payload = payload } in
      let same : encode (m ∷ []) ≡ sent = append-nil (Writer.frame op payload) ∙ sym e in
      record {
        payload = payload;
        framed =
            subst (λ (s : List ℕ). (feed f s none false).1 ≡ ok (m ∷ [])) same
              (ap (λ (r : Framer × Result FrameError (List Message)). r.1)
                (feed-encode f (m ∷ []) false live empty (plain, tt)
                  (rw (append-nil (Writer.frame op payload))
                    (omega (arith, length-frame op payload, plain.size_fits)))));
        decoded =
            reads.run (record { bytes = payload; offset = 0 }) [] (sym (append-nil payload))
            ∙ rw (zero-add (length payload)) refl;
      }

-- What a server reads from a key event, and from a button press.
abbrev pub read_key : R (List ℕ × ℤ × ℤ)
read_key = do text ← read_string; raw ← read_i32; key ← read_i32; return (text, raw, key)

abbrev pub read_mouse_down : R (ℕ × ℕ × ℤ × ℤ)
read_mouse_down = do
  x ← read_f32
  y ← read_f32
  buttons ← read_i32
  clicks ← read_i32
  return (x, y, buttons, clicks)

abbrev key_payload : List ℕ → ℤ → ℤ → List ℕ
key_payload text raw key =
    string_bytes text ++ (le32 (pattern32 raw) ++ (le32 (pattern32 key) ++ []))

abbrev mouse_down_payload : ℕ → ℕ → ℤ → ℤ → List ℕ
mouse_down_payload x y buttons clicks =
    le32 x ++ (le32 y ++ (le32 (pattern32 buttons) ++ (le32 (pattern32 clicks) ++ [])))

key-Reads :
    (text : List ℕ) (raw key : ℤ)
    → IsU32 (length text)
    → IsI32 raw
    → IsI32 key
    → Reads read_key (key_payload text raw key) (text, raw, key)
key-Reads text raw key n r k = Reads->>= _ _ (read_string-Reads text n) (
    Reads->>= _ _ (read_i32-Reads raw r)
      (Reads->>= _ _ (read_i32-Reads key k) (Reads-return _ _ refl)))

mouse_down-Reads :
    (x y : ℕ) (buttons clicks : ℤ)
    → IsU32 x
    → IsU32 y
    → IsI32 buttons
    → IsI32 clicks
    → Reads read_mouse_down (mouse_down_payload x y buttons clicks) (x, y, buttons, clicks)
mouse_down-Reads x y buttons clicks hx hy b c = Reads->>= _ _ (read_f32-Reads x hx) (
    Reads->>= _ _ (read_f32-Reads y hy) (
      Reads->>= _ _ (read_i32-Reads buttons b)
        (Reads->>= _ _ (read_i32-Reads clicks c) (Reads-return _ _ refl))))

abbrev pub key_op : Bool → Op
key_op down = if down then key_down else key_up

key_bytes :
    (op : ℕ) (text : List ℕ) (raw key : ℤ)
    → IsU32 (length text)
    → (Writer.write_i32 (Writer.write_i32 (Writer.write_string (start op) text) raw) key).bytes
      ≡ (le16 op ++ le32 0) ++ key_payload text raw key
key_bytes op text raw key n =
    let w = start op in
    let w1 = Writer.write_string w text in
    let small : u32 (length text) ≡ length text = omega arith in
    rw
      (
        write_i32-bytes (Writer.write_i32 w1 raw) key,
        write_i32-bytes w1 raw,
        write_string-bytes w text,
        start-bytes op,
        small,
      )
      (simp (append_assoc, append-nil))

mouse_down_bytes :
    (op x y : ℕ) (buttons clicks : ℤ)
    → (Writer.write_i32
        (Writer.write_i32 (Writer.write_f32 (Writer.write_f32 (start op) x) y) buttons)
        clicks).bytes
      ≡ (le16 op ++ le32 0) ++ mouse_down_payload x y buttons clicks
mouse_down_bytes op x y buttons clicks =
    let w = start op in
    let w1 = Writer.write_f32 w x in
    let w2 = Writer.write_f32 w1 y in
    rw
      (
        write_i32-bytes (Writer.write_i32 w2 buttons) clicks,
        write_i32-bytes w2 buttons,
        write_f32-bytes w1 y,
        write_f32-bytes w x,
        start-bytes op,
      )
      (simp (append_assoc, append-nil))

encode_key-frame :
    (down : Bool) (text : List ℕ) (raw key : ℤ)
    → IsU32 (length text)
    → encode_key down text raw key ≡ Writer.frame (value (key_op down)) (key_payload text raw key)
unfolding encode_key
encode_key-frame true text raw key n =
    finish-frame _ _ _ (key_bytes (value key_down) text raw key n)
encode_key-frame false text raw key n = finish-frame _ _ _ (key_bytes (value key_up) text raw key n)

encode_mouse_down-frame :
    (x y buttons : ℕ) (clicks : ℤ)
    → encode_mouse_down x y buttons clicks
      ≡ Writer.frame
          (value mouse_down)
          (mouse_down_payload x y (signed32 buttons) (at_least_one clicks))
unfolding encode_mouse_down
encode_mouse_down-frame x y buttons clicks =
    finish-frame _ _ _
      (mouse_down_bytes (value mouse_down) x y (signed32 buttons) (at_least_one clicks))

key_payload-All :
    (text : List ℕ) (raw key : ℤ) → All IsByte text → All IsByte (key_payload text raw key)
key_payload-All text raw key h =
    All-append IsByte (string_bytes text) _ (All-append IsByte (le32 _) text (All-le32 _) h)
      (All-append IsByte (le32 _) _ (All-le32 _) (All-append IsByte (le32 _) [] (All-le32 _) tt))

mouse_down_payload-All :
    (x y : ℕ) (buttons clicks : ℤ) → All IsByte (mouse_down_payload x y buttons clicks)
mouse_down_payload-All x y buttons clicks = All-append IsByte (le32 _) _ (All-le32 _) (
    All-append IsByte (le32 _) _ (All-le32 _)
      (All-append IsByte (le32 _) _ (All-le32 _) (All-append IsByte (le32 _) [] (All-le32 _) tt)))

signed32-IsI32 : (w : ℕ) → IsU32 w → IsI32 (signed32 w)
unfolding signed32
signed32-IsI32 w h = elim (Bool-cases (ltb w (2 ^ 31))) [
  | inl low ↦ rw low (ltb→lt w (2 ^ 31) low)
  | inr high ↦ rw high (omega (arith, ltb→le w (2 ^ 31) high))
]

at_least_one-IsI32 : (z : ℤ) → IsI32 z → IsI32 (at_least_one z)
at_least_one-IsI32 (pos zero) h = omega arith
at_least_one-IsI32 (pos (suc n)) h = h
at_least_one-IsI32 (negsuc n) h = omega arith

-- A key event with a text of at most 1 MiB that is fed to a framer that has not failed and has
-- nothing buffered is one message of the opcode for its
-- direction, whose text and two `int32_t` fields are read back and fill the payload.
pub encode_key-delivered :
    (f : Framer) (down : Bool) (text : List ℕ) (raw key : ℤ)
    → f.failure ≡ none
    → f.buffer ≡ []
    → All IsByte text
    → length text ≤ 0x100000
    → IsI32 raw
    → IsI32 key
    → Delivers f (encode_key down text raw key) (value (key_op down)) read_key (text, raw, key)
unfolding le32
encode_key-delivered f down text raw key live empty h n r k =
    let plain : IsPlain (record { op = value (key_op down); payload = key_payload text raw key }) =
      record {
        op_fits = value-lt (key_op down);
        bytes = key_payload-All text raw key h;
        size_fits = rw (length-append text) (omega arith);
      } in
    delivers f read_key live empty (value (key_op down)) (key_payload text raw key) _
      (text, raw, key) plain (encode_key-frame down text raw key (omega arith))
      (key-Reads text raw key (omega arith) r k)

-- A button press that is fed to a framer with nothing buffered is one message, from which the
-- position, the button mask as an `int32_t`, and at least one click are read back.
pub encode_mouse_down-delivered :
    (f : Framer) (x y pressed_buttons : ℕ) (clicks : ℤ)
    → f.failure ≡ none
    → f.buffer ≡ []
    → IsU32 x
    → IsU32 y
    → IsU32 pressed_buttons
    → IsI32 clicks
    → Delivers f
        (encode_mouse_down x y pressed_buttons clicks)
        (value mouse_down)
        read_mouse_down
        (x, y, signed32 pressed_buttons, at_least_one clicks)
unfolding le32
encode_mouse_down-delivered f x y pressed_buttons clicks live empty hx hy b c =
    let payload = mouse_down_payload x y (signed32 pressed_buttons) (at_least_one clicks) in
    let plain : IsPlain (record { op = value mouse_down; payload = payload }) = record {
      op_fits = value-lt mouse_down;
      bytes = mouse_down_payload-All x y (signed32 pressed_buttons) (at_least_one clicks);
      size_fits = omega arith;
    } in
    delivers f read_mouse_down live empty (value mouse_down) _ _ _ plain
      (encode_mouse_down-frame x y pressed_buttons clicks)
      (mouse_down-Reads x y _ _ hx hy (signed32-IsI32 pressed_buttons b)
        (at_least_one-IsI32 clicks c))
