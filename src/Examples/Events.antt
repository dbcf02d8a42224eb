-- ===== src/Examples/Events.antt =====
-- Input messages and key texts.
use de_be_os_rdp.Prelude.{◌≡◌, refl, [], ◌∷◌, ◌++◌, true, false, none, arith, pos, inl}
use de_be_os_rdp.Protocol.Opcode.{value}
use de_be_os_rdp.Protocol.Framer.{Framer}
use de_be_os_rdp.Input.{first_utf8_scalar, encode_key}
use de_be_os_rdp.Input.Utf8.{utf8, first_utf8_scalar-utf8}
use de_be_os_rdp.Input.Messages.{Delivers, key_op, read_key, encode_key-delivered}

abbrev idle : Framer
idle = record { buffer = []; failure = none; stream_offset = 0; segment_start_seen = false }

-- U+20AC, three bytes, before an `x`.
first_utf8_scalar-utf8_example : first_utf8_scalar (utf8 0x20ac ++ 120 ∷ []) ≡ 0x20ac
first_utf8_scalar-utf8_example = first_utf8_scalar-utf8 0x20ac (120 ∷ []) (inl (omega arith))

encode_key-delivered_example :
    Delivers idle
      (encode_key true (97 ∷ []) (pos 97) (pos 60))
      (value (key_op true))
      read_key
      (97 ∷ [], pos 97, pos 60)
encode_key-delivered_example =
    encode_key-delivered idle true (97 ∷ []) (pos 97) (pos 60) refl refl (omega arith) (omega arith)
      (omega arith) (omega arith)
