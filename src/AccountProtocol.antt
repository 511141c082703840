-- ===== src/AccountProtocol.antt =====
-- server/extended_protocol.c: the requests of COMMAND_OTHER_MESSAGE, by which a client registers,
-- logs in, looks for users and asks for friends. A request and a reply are a header, a length in
-- two bytes and a JSON text. What the heap holds where the source does not write is a `Heap`.
use push_server.Base.{
  ℕ, ◌+◌, List, [], ◌∷◌, ◌++◌, Option, none, some, Bytes, text, length, read16, drop,
}
use push_server.Json.{JsonLibrary}
use push_server.ParseCommand.Header.{
  header_size, command_other_message, create_client_header, create_server_header,
  client_header_bytes, server_header_bytes,
}
use push_server.ParseCommand.Helo.{copied}
use push_server.ParseCommand.Message.{field16}
use push_server.Accounts.{UserInfo}
pub mod Requests
pub mod Replies
pub mod Packets
pub mod Registration
pub mod Found
pub mod Friends
pub mod Unreadable

abbrev pub message_type_user_reg : ℕ
message_type_user_reg = 0xB1

abbrev pub message_type_user_login : ℕ
message_type_user_login = 0xB2

abbrev pub message_type_user_find_username : ℕ
message_type_user_find_username = 0xB4

abbrev pub message_type_user_add_friend : ℕ
message_type_user_add_friend = 0xB5

abbrev pub message_type_user_get_friend : ℕ
message_type_user_get_friend = 0xB7

-- The padding of a header; what follows the received text, a copied name, a copied id and the name
-- of a friend, none of which is ended by a zero; and a device id that is allocated and not written.
pub record Heap : Type 0 where
  pub pad : ℕ
  pub after_text : Bytes
  pub after_name : Bytes
  pub after_id : Bytes
  pub after_friend : Bytes
  pub drivce : Bytes

-- A header with the size of the whole, and the text.
unfoldable pub client_packet : ℕ → ℕ → ℕ → Bytes → Bytes
client_packet pad messagetype clienttype str =
    client_header_bytes pad
      (record (create_client_header 0 command_other_message messagetype clienttype) {
        total = header_size + 2 + length str;
      })
    ++ field16 str

unfoldable pub server_packet : ℕ → ℕ → Bytes → Bytes
server_packet serverid messagetype str =
    server_header_bytes (record (create_server_header serverid command_other_message messagetype) {
      total = header_size + 2 + length str;
    })
    ++ field16 str

module _ (J : JsonLibrary) where
  abbrev pub add_string : J.Object → Bytes → Bytes → J.Object
  add_string o name s = J.add_item_to_object o name (J.create_string s)

  abbrev pub add_number : J.Object → Bytes → ℕ → J.Object
  add_number o name n = J.add_item_to_object o name (J.create_number n)

  abbrev pub named : Bytes → J.Object
  named username = add_string J.create_object (text "username") username

  abbrev pub add_strings : J.Array → List Bytes → J.Array
  add_strings a [] = a
  add_strings a (s ∷ ss) = add_strings (J.add_item_to_array a (J.create_string s)) ss

  -- The text behind a length, with what the heap holds behind it, as cJSON reads it.
  unfoldable pub read_json : Bytes → Bytes → Option J.Json
  read_json after_text buf = J.parse (copied (read16 buf) (drop 2 buf) ++ after_text)

  -- `cJSON_GetObjectItem(json, name)->valuestring`, of which the length is taken; none is a crash.
  abbrev string_of : Option J.Json → Option Bytes
  string_of none = none
  string_of (some v) = J.valuestring v

  unfoldable pub string_item : J.Json → Bytes → Option Bytes
  string_item json name = string_of (J.get_object_item json name)

  abbrev int_of : Option J.Json → Option ℕ
  int_of none = none
  int_of (some v) = some (J.valueint v)

  unfoldable pub int_item : J.Json → Bytes → Option ℕ
  int_item json name = int_of (J.get_object_item json name)

  -- What each `createClient...` hands to `send`.
  unfoldable pub create_client_user_reg : ℕ → ℕ → Bytes → Bytes
  create_client_user_reg pad clienttype username =
      client_packet pad message_type_user_reg clienttype (J.print (J.of_object (named username)))

  unfoldable pub create_client_user_login : ℕ → ℕ → Bytes → Bytes
  create_client_user_login pad clienttype username =
      client_packet pad message_type_user_login clienttype (J.print (J.of_object (named username)))

  unfoldable pub create_client_user_find_user : ℕ → ℕ → Bytes → Bytes
  create_client_user_find_user pad clienttype username =
      client_packet pad message_type_user_find_username clienttype
        (J.print (J.of_object (named username)))

  unfoldable pub create_client_user_add_user : ℕ → ℕ → Bytes → Bytes → Bytes
  create_client_user_add_user pad clienttype username friendname =
      client_packet pad message_type_user_add_friend clienttype
        (J.print (J.of_object (add_string (named username) (text "friendname") friendname)))

  unfoldable pub create_client_user_get_friends : ℕ → ℕ → Bytes → Bytes
  create_client_user_get_friends pad clienttype username =
      client_packet pad message_type_user_get_friend clienttype
        (J.print (J.of_object (named username)))
