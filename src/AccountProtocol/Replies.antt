-- ===== src/AccountProtocol/Replies.antt =====
-- The replies of server/extended_protocol.c: what the server sends (`createServerUser...`), and how
-- the client reads it (`parseServerUser...`).
use push_server.Base.{
  ℕ, zero, suc, List, [], ◌∷◌, ◌++◌, Option, none, some, Bytes, text, length, ltb, if◌then◌else◌,
}
use push_server.Json.{JsonLibrary}
use push_server.Accounts.{UserInfo}
use push_server.AccountProtocol.{
  Heap, client_packet, server_packet, add_string, add_number, add_strings, read_json, string_item,
  int_item, message_type_user_reg, message_type_user_login, message_type_user_add_friend,
  message_type_user_get_friend,
}

-- `unparsed` is a text that cJSON refuses, `crashed` the use of a field that is not there, or a
-- copy that does not fit in an array.
pub data Received {ℓ} (A : Type ℓ) : Type ℓ where
  unparsed : Received A
  crashed : Received A
  received : A → Received A

abbrev pub and_then {ℓ κ} : {A : Type ℓ} {B : Type κ} → Option A → (A → Received B) → Received B
and_then none k = crashed
and_then (some a) k = k a

abbrev pub parsed {ℓ κ} : {A : Type ℓ} {B : Type κ} → Option A → (A → Received B) → Received B
parsed none k = unparsed
parsed (some a) k = k a

abbrev pub map_received {ℓ κ} : {A : Type ℓ} {B : Type κ} → (A → B) → Received A → Received B
map_received f unparsed = unparsed
map_received f crashed = crashed
map_received f (received a) = received (f a)

abbrev pub bind_received {ℓ κ} :
    {A : Type ℓ} {B : Type κ} → Received A → (A → Received B) → Received B
bind_received unparsed k = unparsed
bind_received crashed k = crashed
bind_received (received a) k = k a

abbrev pub text_or_memory : Option Bytes → Bytes → Bytes
text_or_memory none memory = memory
text_or_memory (some t) memory = t ++ memory

-- `username` and `userid` of `user_info_t` are arrays of 64 bytes.
abbrev pub fitting {ℓ} : {A : Type ℓ} → Bytes → Received A → Received A
fitting t k = if ltb (length t) 64 then k else crashed

abbrev pub text_of_item : Option Bytes → Bytes
text_of_item none = []
text_of_item (some t) = t

module _ (J : JsonLibrary) where
  -- One device for each child that is a text; the text itself is not copied. The last child comes
  -- first, as `list_lpush` puts it.
  abbrev pub read_drivces : Bytes → List J.Json → List Bytes → Received (List Bytes)
  read_drivces blank [] found = received found
  read_drivces blank (v ∷ vs) found =
      and_then (J.valuestring v) λ s. read_drivces blank vs (blank ∷ found)

  -- The devices of an array under a name.
  abbrev pub drivces_at : Bytes → Bytes → J.Json → Received (List Bytes)
  drivces_at blank name json =
      and_then (J.get_object_item json name) λ arr. read_drivces blank (J.children arr) []

  -- The id that is sent is the text "userid".
  unfoldable pub create_server_user_reg : ℕ → ℕ → Bytes → Bytes → Bytes
  create_server_user_reg serverid is_success userid username =
      server_packet serverid message_type_user_reg (
        J.print (
          J.of_object (
            add_string J
              (add_string J (add_number J J.create_object (text "result") is_success)
                (text "username") username)
              (text "userid") (text "userid"))))

  unfoldable pub create_server_user_login : ℕ → ℕ → Bytes → Bytes
  create_server_user_login serverid is_success username =
      server_packet serverid message_type_user_login (
        J.print (
          J.of_object (
            add_string J (add_number J J.create_object (text "result") is_success) (text "username")
              username)))

  -- A user with an array of devices under the name that is given.
  abbrev pub with_drivces : J.Object → Bytes → List Bytes → J.Object
  with_drivces o name drivces =
      J.add_item_to_object o name (J.of_array (add_strings J J.create_array drivces))

  abbrev pub user_fields : UserInfo → J.Object
  user_fields u =
      add_string J (add_string J J.create_object (text "username") u.username) (text "userid")
        u.userid

  abbrev pub user_object : Bytes → Option UserInfo → J.Object
  user_object name none = add_number J J.create_object (text "isSuccess") 0
  user_object name (some u) =
      with_drivces (add_number J (user_fields u) (text "isSuccess") 1) name u.drivces

  -- The headers of the next three are those of a client, with the server's id as its type.
  unfoldable pub create_server_user_find_user : ℕ → ℕ → Option UserInfo → Bytes
  create_server_user_find_user pad clienttype userinfo =
      client_packet pad message_type_user_login clienttype
        (J.print (J.of_object (user_object (text "driveces") userinfo)))

  unfoldable pub create_server_user_add_user : ℕ → ℕ → Option UserInfo → Bytes
  create_server_user_add_user pad clienttype userinfo =
      client_packet pad message_type_user_add_friend clienttype
        (J.print (J.of_object (user_object (text "drivces") userinfo)))

  abbrev pub add_users : J.Array → List UserInfo → J.Array
  add_users a [] = a
  add_users a (u ∷ us) =
      add_users
        (J.add_item_to_array a
          (J.of_object (with_drivces (user_fields u) (text "drivces") u.drivces)))
        us

  unfoldable pub create_server_user_get_friends : ℕ → ℕ → List UserInfo → Bytes
  create_server_user_get_friends pad clienttype list =
      client_packet pad message_type_user_get_friend clienttype
        (J.print (J.of_array (add_users J.create_array list)))

module _ (J : JsonLibrary) (h : Heap) where
  -- The two texts that each reader copies to a structure that it has allocated.
  abbrev pub read_user : J.Json → List Bytes → Received UserInfo
  read_user json drivces = and_then (string_item J json (text "username")) λ name. fitting name (
      and_then (string_item J json (text "userid")) λ id. fitting id (
        received (record {
          userid = id ++ h.after_id;
          username = name ++ h.after_name;
          drivces = drivces;
        })))

  -- The result, and the user if the result is not 0.
  abbrev pub read_result : J.Json → ℕ → Received (ℕ × Option UserInfo)
  read_result json zero = received (0, none)
  read_result json (suc n) = map_received (λ u. (suc n, some u)) (read_user json [])

  unfoldable pub parse_server_user_reg : Bytes → Received (ℕ × Option UserInfo)
  parse_server_user_reg buf =
      parsed (read_json J h.after_text buf)
        λ json. and_then (int_item J json (text "result")) (read_result json)

  unfoldable pub parse_server_user_login : Bytes → Received (ℕ × Option UserInfo)
  parse_server_user_login buf =
      parsed (read_json J h.after_text buf)
        λ json. and_then (int_item J json (text "result")) (read_result json)

  abbrev pub read_found : J.Json → ℕ → Received (ℕ × Option UserInfo)
  read_found json zero = received (0, none)
  read_found json (suc n) = bind_received (read_user json []) λ u.
      bind_received (drivces_at J h.drivce (text "driveces") json)
        λ ds. received (suc n, some (record u { drivces = ds }))

  unfoldable pub parse_server_user_find_user : Bytes → Received (ℕ × Option UserInfo)
  parse_server_user_find_user buf =
      parsed (read_json J h.after_text buf)
        λ json. and_then (int_item J json (text "result")) (read_found json)

  -- Here NULL is not copied. A device id that is cleared and not copied is empty.
  abbrev pub read_friend : J.Json → Received UserInfo
  read_friend json = and_then (J.get_object_item json (text "username")) λ name.
      fitting (text_of_item (J.valuestring name)) (
        and_then (J.get_object_item json (text "userid")) λ id.
          fitting (text_of_item (J.valuestring id)) (
            bind_received (drivces_at J [] (text "drivces") json) λ ds. received (record {
              userid = text_or_memory (J.valuestring id) h.after_id;
              username = text_or_memory (J.valuestring name) h.after_name;
              drivces = ds;
            })))

  abbrev pub read_added : J.Json → ℕ → Received (Option UserInfo)
  read_added json zero = received none
  read_added json (suc n) = bind_received (read_friend json) λ u. received (some u)

  unfoldable pub parse_server_user_add_user : Bytes → Received (Option UserInfo)
  parse_server_user_add_user buf =
      parsed (read_json J h.after_text buf)
        λ json. and_then (int_item J json (text "isSuccess")) (read_added json)

  -- The fields are looked up in the array and not in its element.
  abbrev pub read_friends : J.Json → List J.Json → List UserInfo → Received (List UserInfo)
  read_friends json [] found = received found
  read_friends json (v ∷ vs) found =
      bind_received (read_friend json) λ u. read_friends json vs (u ∷ found)

  unfoldable pub parse_server_user_get_user : Bytes → Received (List UserInfo)
  parse_server_user_get_user buf =
      parsed (read_json J h.after_text buf) λ json. read_friends json (J.children json) []
