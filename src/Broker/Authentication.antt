-- ===== src/Broker/Authentication.antt =====
-- The two messages of the authentication.
use de_be_os_rdp.Prelude.{
  ℕ, ◌+◌, ◌^◌, ◌<◌, ◌≡◌, ◌↔◌, refl, ap, ◌∙◌, List, [], ◌∷◌, ◌++◌, none, arith, length, drop, All,
  IsByte, u32,
}
use native.Mathlib.Nat.{div-one}
use de_be_os_rdp.Protocol.Bytes.{
  le16, le32, read_u16_le, read_u32_le, read_u16_le-sum, read_u32_le-sum,
}
use de_be_os_rdp.Protocol.Writer
use de_be_os_rdp.Protocol.Reader.Layout.{string_bytes}
use de_be_os_rdp.Broker.{
  rp_authenticate, rp_auth_result, rp_auth_result_size, broker_authenticate_message,
  broker_auth_result, auth_status,
}

-- The message that the broker's preamble writes by hand is the frame that class Writer would make
-- of opcode 10, the method 1 and the token as a string, for tokens up to 2 ^ 31 bytes.
pub broker_authenticate_message-frame :
    (token : List ℕ)
    → length token < 2 ^ 31
    → broker_authenticate_message token
      ≡ Writer.frame rp_authenticate (le32 1 ++ string_bytes token)
unfolding broker_authenticate_message le16 le32
broker_authenticate_message-frame token h =
    let small : u32 (length token) ≡ length token = omega arith in
    let size : length (le32 1 ++ string_bytes token) + 6 ≡ 6 + 8 + length token = omega arith in
    rw (small, size) (simp div-one)

abbrev pub accepted_reply : List ℕ
accepted_reply = le16 rp_auth_result ++ (le32 rp_auth_result_size ++ le32 0)

module _ (a b c d e f g h i j : ℕ)
    (bytes : All IsByte (a ∷ b ∷ c ∷ d ∷ e ∷ f ∷ g ∷ h ∷ i ∷ j ∷ [])) where
  abbrev reply : List ℕ
  reply = a ∷ b ∷ c ∷ d ∷ e ∷ f ∷ g ∷ h ∷ i ∷ j ∷ []

  accepted_fields :
      broker_auth_result reply ≡ none
      → (read_u16_le reply ≡ 11)
        × (read_u32_le (drop 2 reply) ≡ 10)
        × (read_u32_le (drop 6 reply) ≡ 0)
  unfolding broker_auth_result auth_status read_u16_le read_u32_le
  accepted_fields h = ground arith

  accepted_bytes : broker_auth_result reply ≡ none → reply ≡ accepted_reply
  unfolding le16 le32
  accepted_bytes h0 =
      let (code, size, status) = accepted_fields h0 in
      let s1 = read_u16_le-sum a b (drop 2 reply) (omega arith) (omega arith) in
      let s2 =
        read_u32_le-sum c d e f (drop 6 reply) (omega arith) (omega arith) (omega arith)
          (omega arith) in
      let s3 = read_u32_le-sum g h i j [] (omega arith) (omega arith) (omega arith) (omega arith) in
      ground (arith, code, size, status, s1, s2, s3)

accepted_is_none : broker_auth_result accepted_reply ≡ none
unfolding broker_auth_result auth_status le16 le32
accepted_is_none = refl

-- Of all replies of ten bytes, just one is an acceptance: the result's opcode, the size ten, and
-- the status zero.
pub broker_auth_result_iff :
    (a b c d e f g h i j : ℕ)
    → All IsByte (a ∷ b ∷ c ∷ d ∷ e ∷ f ∷ g ∷ h ∷ i ∷ j ∷ [])
    → (broker_auth_result (a ∷ b ∷ c ∷ d ∷ e ∷ f ∷ g ∷ h ∷ i ∷ j ∷ []) ≡ none)
      ↔ ((a ∷ b ∷ c ∷ d ∷ e ∷ f ∷ g ∷ h ∷ i ∷ j ∷ []) ≡ accepted_reply)
broker_auth_result_iff a b c d e f g h i j bytes = (
  accepted_bytes a b c d e f g h i j bytes,
  λ same. ap broker_auth_result same ∙ accepted_is_none,
)
