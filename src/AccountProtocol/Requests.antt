-- ===== src/AccountProtocol/Requests.antt =====
-- What the server does with the requests (`parseClientUser...` of server/extended_protocol.c): it
-- reads the name, asks server/extended_storage.c, and answers.
use push_server.Base.{ℕ, [], ◌++◌, Option, none, some, Bytes, text}
use push_server.Json.{JsonLibrary}
use push_server.Redis.{Redis}
use push_server.Redis.Conn.{M, pure, ◌>>=◌}
use push_server.Accounts.{
  UserInfo, reg_user, user_login, get_user_info_by_name, add_friends_use_name,
  get_user_id_by_username, get_user_friends,
}
use push_server.AccountProtocol.{Heap, read_json, string_item}
use push_server.AccountProtocol.Replies.{
  create_server_user_reg, create_server_user_login, create_server_user_find_user,
  create_server_user_add_user, create_server_user_get_friends,
}

-- `answered` carries what is handed to `send`.
pub data Handled : Type 0 where
  unparsed : Handled
  crashed : Handled
  answered : Bytes → Handled

abbrev pub is_success {ℓ} : {A : Type ℓ} → Option A → ℕ
is_success none = 0
is_success (some a) = 1

abbrev pub id_or_empty : Option Bytes → Bytes
id_or_empty none = []
id_or_empty (some id) = id

module _ {R : Redis} where
  abbrev pub with_text : Option Bytes → (Bytes → M R Handled) → M R Handled
  with_text none k s = some (crashed, s)
  with_text (some t) k s = k t s

  abbrev pub with_json {ℓ} : {A : Type ℓ} → Option A → (A → M R Handled) → M R Handled
  with_json none k s = some (unparsed, s)
  with_json (some json) k s = k json s

module _ {R : Redis} (J : JsonLibrary) (h : Heap) (wrong_type : Bytes) (serverid : ℕ) where
  -- The name that a request holds; what follows the copy on the heap belongs to it.
  abbrev pub with_username : Bytes → (J.Json → Bytes → M R Handled) → M R Handled
  with_username buf k =
      with_json (read_json J h.after_text buf) λ json.
        with_text (string_item J json (text "username")) λ name. k json (name ++ h.after_name)

  abbrev pub answer_reg : Bytes → Option Bytes → M R Handled
  answer_reg username uid =
      pure
        (answered (create_server_user_reg J serverid (is_success uid) (id_or_empty uid) username))

  abbrev pub register : Bytes → Bytes → J.Json → Bytes → M R Handled
  register guid drivce_id json username =
      reg_user wrong_type guid username drivce_id >>= answer_reg username

  -- `guid` is what `createGUID` makes.
  unfoldable pub parse_client_user_reg : Bytes → Bytes → Bytes → M R Handled
  parse_client_user_reg guid drivce_id buf = with_username buf (register guid drivce_id)

  abbrev pub answer_login : Bytes → UserInfo → M R Handled
  answer_login username uinfo =
      pure (answered (create_server_user_login J serverid (is_success (some uinfo)) username))

  abbrev pub log_in : Bytes → J.Json → Bytes → M R Handled
  log_in drivce_id json username =
      user_login wrong_type username drivce_id >>= answer_login username

  unfoldable pub parse_client_user_login : Bytes → Bytes → M R Handled
  parse_client_user_login drivce_id buf = with_username buf (log_in drivce_id)

  abbrev pub find : J.Json → Bytes → M R Handled
  find json username = get_user_info_by_name wrong_type username >>= λ userinfo.
      pure (answered (create_server_user_find_user J h.pad serverid userinfo))

  unfoldable pub parse_client_user_find_user : Bytes → M R Handled
  parse_client_user_find_user buf = with_username buf find

  abbrev pub answer_add : UserInfo → M R Handled
  answer_add uinfo = pure (answered (create_server_user_add_user J h.pad serverid (some uinfo)))

  abbrev pub befriend : Bytes → Bytes → M R Handled
  befriend username friendname =
      add_friends_use_name wrong_type username (friendname ++ h.after_friend) >>= answer_add

  abbrev pub add_friend : J.Json → Bytes → M R Handled
  add_friend json username = with_text (string_item J json (text "friendname")) (befriend username)

  unfoldable pub parse_client_user_add_user : Bytes → M R Handled
  parse_client_user_add_user buf = with_username buf add_friend

  abbrev pub tell_friends : J.Json → Bytes → M R Handled
  tell_friends json username = do
    userid ← get_user_id_by_username wrong_type username
    list ← get_user_friends wrong_type userid
    pure (answered (create_server_user_get_friends J h.pad serverid list))

  unfoldable pub parse_client_user_get_friends : Bytes → M R Handled
  parse_client_user_get_friends buf = with_username buf tell_friends
