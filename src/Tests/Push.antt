-- ===== src/Tests/Push.antt =====
-- A device token, for the theorems on server/ippush.c.
use push_server.Base.{
  be16, be32, le32, ◌++◌, [], ◌∷◌, Bytes, length, replicate, text, none, some, ◌≤◌, ◌≡◌, refl,
  arith,
}
use push_server.Apns.{
  device_token_2_binary, device_binary_2_token, escaped, json_escape, payload_bytes,
  build_output_packet, build_output_packet_2, packed,
}
use push_server.Base.Decimal.{dec}
use push_server.Apns.Payload.{read_string, read_string-json_escape}
use push_server.Apns.Packets.{kept, cut_payload, build_output_packet-fits}
use push_server.Apns.Token.{device_token_2_binary-device_binary_2_token}

device_token_2_binary-device_binary_2_token_example :
    device_token_2_binary 2 (device_binary_2_token (171 ∷ 5 ∷ [])) ≡ 171 ∷ 5 ∷ []
device_token_2_binary-device_binary_2_token_example =
    device_token_2_binary-device_binary_2_token (171 ∷ 5 ∷ []) (omega arith, (omega arith, tt))

abbrev zeros : Bytes
zeros = replicate 32 0

read_string-json_escape_example :
    (str : Bytes) × (json_escape (text "a/\"b") ≡ some str)
    × (read_string (str ++ 34 ∷ text "}") ≡ some (text "a/\"b", text "}"))
read_string-json_escape_example =
    read_string-json_escape (text "a/\"b") (text "}") (refl, (refl, (refl, (refl, tt))))
      (omega arith)

-- An escape that JSON does not have.
unknown_escape : read_string (text "\\x\"") ≡ none
unfolding read_string
unknown_escape = refl

-- A message of 230 bytes, of which 5 have to go.
abbrev long_message : Bytes
long_message = replicate 230 b'a'

kept-long_message : kept 10 none long_message ≡ 225
unfolding kept payload_bytes escaped dec
kept-long_message = refl

build_output_packet-fits_example :
    (build_output_packet zeros long_message 10 none
      ≡ packed (
          0 ∷ be16 32
          ++ zeros
          ++ (be16 (length (cut_payload 10 none long_message))
              ++ cut_payload 10 none long_message)))
    × (build_output_packet_2 5 600 zeros long_message 10 none
        ≡ packed (
            1 ∷ le32 5
            ++ (be32 600 ++ (be16 32 ++ zeros))
            ++ (be16 (length (cut_payload 10 none long_message))
                ++ cut_payload 10 none long_message)))
    × (length (cut_payload 10 none long_message) ≤ 256)
unfolding payload_bytes escaped dec
build_output_packet-fits_example =
    build_output_packet-fits 10 none 5 600 zeros long_message (omega arith) tt (omega arith)
      (omega arith)
