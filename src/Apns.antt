-- ===== src/Apns.antt =====
-- server/ippush.c: device tokens and the packets of the Apple push service. The TLS
-- connection that the packet is written to is a library's.
use push_server.Base.{
  ℕ, zero, suc, ◌+◌, ◌-◌, ◌*◌, ◌/◌, ◌%◌, Bool, true, false, ◌&&◌, List, [], ◌∷◌, ◌++◌, Option, none,
  some, Bytes, length, byte_at, drop, take, be16, be32, le32, leb, ltb, ◌==◌, ◌||◌, text,
  if◌then◌else◌,
}
use push_server.Base.Decimal.{dec}
pub mod Packets
pub mod Payload
pub mod Token

-- TOKEN_SIZE and MAX_PAYLOAD_SIZE
abbrev pub token_size : ℕ
token_size = 32

abbrev pub max_payload_size : ℕ
max_payload_size = 256

abbrev pub hex_char : ℕ → ℕ
hex_char n = if ltb n 10 then 48 + n else 87 + n

abbrev pub hex_value : ℕ → Option ℕ
hex_value c =
    if leb 48 c && leb c 57
    then some (c - 48)
    else if leb 97 c && leb c 102
    then some (c - 87)
    else if leb 65 c && leb c 70
    then some (c - 55)
    else none

-- sscanf(buf, "%X", &val) on two characters: the digits in front, and 0 if there is none.
abbrev pub scan_hex : Option ℕ → Option ℕ → ℕ
scan_hex none b = 0
scan_hex (some a) none = a
scan_hex (some a) (some b) = a * 16 + b

-- `DeviceToken2Binary`: `len` is the number of bytes that are written.
unfoldable pub device_token_2_binary : ℕ → Bytes → Bytes
device_token_2_binary zero sz = []
device_token_2_binary (suc len) sz =
    scan_hex (hex_value (byte_at sz 0)) (hex_value (byte_at sz 1))
    ∷ device_token_2_binary len (drop 2 sz)

-- `DeviceBinary2Token`
unfoldable pub device_binary_2_token : Bytes → Bytes
device_binary_2_token [] = []
device_binary_2_token (b ∷ bs) = hex_char (b / 16) ∷ hex_char (b % 16) ∷ device_binary_2_token bs

-- `build_output_packet_3`: the bytes of the packet. The room behind the token is not compared with
-- the length of the message.
unfoldable pub build_output_packet_3 : Bytes → Bytes → Bytes
build_output_packet_3 tokenbinary msg =
    0 ∷ be16 token_size ++ (take token_size tokenbinary ++ (be16 (length msg) ++ msg))

-- What `send_message_3` writes in `binary`, which has TOKEN_SIZE bytes.
unfoldable pub send_message_3_binary : Bytes → Bytes
send_message_3_binary token = device_token_2_binary (length token) token

-- '\\', '"' and '/'
abbrev pub is_escaped : ℕ → Bool
is_escaped c = c == 92 || (c == 34 || c == 47)

-- The loop of `json_escape`.
unfoldable pub escaped : Bytes → Bytes
escaped [] = []
escaped (c ∷ cs) =
    let rest = escaped cs in
    if c == 10 then 92 ∷ 110 ∷ rest else if is_escaped c then 92 ∷ c ∷ rest else c ∷ rest

-- The size of `buf` in `json_escape`, and of `str` in `build_payload`.
abbrev pub escape_size : ℕ
escape_size = 1024

abbrev pub str_size : ℕ
str_size = 2048

-- `json_escape`: none if the assertion fails, that the buffer holds the text and 100 bytes more.
unfoldable pub json_escape : Bytes → Option Bytes
json_escape str = if ltb (length str + 100) escape_size then some (escaped str) else none

abbrev pub payload_alert : Option Bytes → Option Bytes
payload_alert none = some []
payload_alert (some msg) = json_escape msg

abbrev pub quoted_sound : Bytes → Bytes
quoted_sound sound = text ",\"sound\":\"" ++ (sound ++ text "\"")

abbrev pub with_quotes : Option Bytes → Option Bytes
with_quotes none = none
with_quotes (some sound) = some (quoted_sound sound)

abbrev pub payload_sound : Option Bytes → Option Bytes
payload_sound none = some []
payload_sound (some sound) = with_quotes (json_escape sound)

unfoldable pub payload_bytes : Bytes → ℕ → Bytes → Bytes
payload_bytes alert badage sound =
    text "{\"aps\":{\"alert\":\""
    ++ (alert ++ (text "\",\"badge\":" ++ (dec badage ++ (sound ++ text "}}"))))

abbrev pub with_room : Option Bytes → ℕ → Option Bytes → Option Bytes
with_room none badage sound = none
with_room (some alert) badage none = none
with_room (some alert) badage (some sound) =
    let str = payload_bytes alert badage sound in
    if ltb (length str) str_size then some str else none

-- `str` of `build_payload`; none if an assertion fails, or `str` has no room.
unfoldable pub payload_text : Option Bytes → ℕ → Option Bytes → Option Bytes
payload_text msg badage sound = with_room (payload_alert msg) badage (payload_sound sound)

-- The payload; -1, with the length of the payload in `plen`; or neither.
pub data PayloadResult : Type 0 where
  payload : Bytes → PayloadResult
  longer : ℕ → PayloadResult
  aborted : PayloadResult

abbrev pub sized : ℕ → Option Bytes → PayloadResult
sized plen none = aborted
sized plen (some str) = if ltb plen (length str) then longer (length str) else payload str

-- `build_payload`, for a badge that is not negative.
unfoldable pub build_payload : ℕ → Option Bytes → ℕ → Option Bytes → PayloadResult
build_payload plen msg badage sound = sized plen (payload_text msg badage sound)

-- The payload of a packet, a payload that is too long even for a message that was cut, a write
-- in front of the message, or a payload that is not built at all.
pub data Fitted : Type 0 where
  built : Bytes → Fitted
  too_long before_message not_built : Fitted

abbrev pub second_try : PayloadResult → Fitted
second_try (payload str) = built str
second_try (longer n) = too_long
second_try aborted = not_built

-- What follows the first call of `build_payload`: the message is cut by the bytes that the payload
-- has too many.
abbrev pub first_try : Bytes → ℕ → Option Bytes → PayloadResult → Fitted
first_try msg badage sound (payload str) = built str
first_try msg badage sound aborted = not_built
first_try msg badage sound (longer n) =
    let cut = take (length msg - (n - max_payload_size)) msg in
    let second = second_try (build_payload max_payload_size (some cut) badage sound) in
    if ltb (length msg) (n - max_payload_size) then before_message else second

unfoldable pub fit_payload : Bytes → ℕ → Option Bytes → Fitted
fit_payload msg badage sound =
    first_try msg badage sound (build_payload max_payload_size (some msg) badage sound)

pub data Packet : Type 0 where
  packed : Bytes → Packet
  failed undefined : Packet

abbrev pub with_payload : Bytes → Fitted → Packet
with_payload front (built str) = packed (front ++ (be16 (length str) ++ str))
with_payload front too_long = failed
with_payload front before_message = undefined
with_payload front not_built = undefined

-- `build_output_packet` and `build_output_packet_2`, of which the second has the message id in the
-- order of the host. A token of less than 32 bytes is read behind its end.
unfoldable pub build_output_packet : Bytes → Bytes → ℕ → Option Bytes → Packet
build_output_packet tokenbinary msg badage sound =
    if ltb (length tokenbinary) token_size
    then undefined
    else with_payload (0 ∷ be16 token_size ++ take token_size tokenbinary)
        (fit_payload msg badage sound)

unfoldable pub build_output_packet_2 : ℕ → ℕ → Bytes → Bytes → ℕ → Option Bytes → Packet
build_output_packet_2 messageid expiry tokenbinary msg badage sound =
    if ltb (length tokenbinary) token_size
    then undefined
    else with_payload
        (1 ∷ le32 messageid ++ (be32 expiry ++ (be16 token_size ++ take token_size tokenbinary)))
        (fit_payload msg badage sound)
