-- ===== src/Apns/Token.antt =====
-- Device tokens of server/ippush.c, as bytes and as text.
use push_server.Base.{
  ℕ, zero, suc, ◌+◌, ◌*◌, ◌/◌, ◌%◌, ◌<◌, [], ◌∷◌, some, Bytes, length, ◌≡◌, refl, ap, ◌∙◌, arith,
}
use push_server.Apns.{
  token_size, hex_char, hex_value, device_token_2_binary, device_binary_2_token,
  send_message_3_binary,
}

abbrev pub AreBytes : Bytes → Type 0
AreBytes [] = Unit
AreBytes (b ∷ bs) = (b < 256) × AreBytes bs

hex_value-hex_char : (n : ℕ) → n < 16 → hex_value (hex_char n) ≡ some n
hex_value-hex_char n h = ground arith

-- A token that is printed and read back, for as many bytes as it has, is the same token.
pub device_token_2_binary-device_binary_2_token :
    (bs : Bytes) → AreBytes bs → device_token_2_binary (length bs) (device_binary_2_token bs) ≡ bs
unfolding device_token_2_binary device_binary_2_token
device_token_2_binary-device_binary_2_token [] h = refl
device_token_2_binary-device_binary_2_token (b ∷ bs) h =
    rw (hex_value-hex_char (b / 16) (omega arith)) (
      rw (hex_value-hex_char (b % 16) (omega arith)) (
        ap (λ (n : ℕ). n ∷ device_token_2_binary (length bs) (device_binary_2_token bs))
          {x = b / 16 * 16 + b % 16} {y = b} (omega arith)
        ∙ ap (λ (l : Bytes). b ∷ l) (device_token_2_binary-device_binary_2_token bs h.1)))

length-device_token_2_binary : (n : ℕ) (sz : Bytes) → length (device_token_2_binary n sz) ≡ n
unfolding device_token_2_binary
length-device_token_2_binary zero sz = refl
length-device_token_2_binary (suc n) sz = ap suc (length-device_token_2_binary n _)

length-device_binary_2_token : (bs : Bytes) → length (device_binary_2_token bs) ≡ 2 * length bs
unfolding device_binary_2_token
length-device_binary_2_token [] = omega arith
length-device_binary_2_token (b ∷ bs) = omega (arith, length-device_binary_2_token bs)

-- `send_message_3` converts as many bytes as the text of the token has characters: for a token of
-- 32 bytes it writes 64 in a buffer of 32.
pub send_message_3-overrun :
    (bs : Bytes)
    → length bs ≡ token_size
    → length (send_message_3_binary (device_binary_2_token bs)) ≡ token_size + token_size
unfolding send_message_3_binary
send_message_3-overrun bs h =
    length-device_token_2_binary (length (device_binary_2_token bs)) (device_binary_2_token bs)
    ∙ omega (arith, length-device_binary_2_token bs)
