-- ===== src/Accounts.antt =====
-- server/extended_storage.c: accounts, their devices and their friends, kept in Redis next to the
-- messages. A user is found by name under the key that is the name, and by id under the key that
-- is the id.
use push_server.Base.{
  ℕ, zero, suc, Bool, true, false, List, [], ◌∷◌, ◌++◌, Option, none, some, Bytes, text, ◌==◌,
  if◌then◌else◌,
}
use mathlib.Core.List.{reverse}
use push_server.Redis.{Redis}
use push_server.Redis.Values.{
  Reply, failure, integer, bulk, array, get, set, sadd, srem, smembers, sismember,
}
use push_server.Redis.Conn.{M, pure, redis_append_command, redis_command, free_replies, ◌>>=◌, ◌>>◌}
use push_server.MessageStorage.{is_empty}
pub mod Login
pub mod Register

pub record UserInfo : Type 0 where
  pub userid : Bytes
  pub username : Bytes
  pub drivces : List Bytes

-- "%s_friends" and "%s_drivce_list"
unfoldable pub friends : Bytes → Bytes
friends userid = userid ++ text "_friends"

unfoldable pub drivce_list : Bytes → Bytes
drivce_list userid = userid ++ text "_drivce_list"

unfoldable pub reg_user_list : Bytes
reg_user_list = text "reg_user_list"

unfoldable pub login_user_list : Bytes
login_user_list = text "login_user_list"

-- `reply->element[i]`, each put in front of the list.
abbrev pub elements : Reply → List Bytes
elements (array xs) = xs
elements _ = []

abbrev pub is_one : Reply → Bool
is_one (integer n) = n == 1
is_one _ = false

-- `reply->str`; the reply to a command at a key of another type is a text that says so.
abbrev pub text_of : Bytes → Reply → Bytes
text_of wrong_type (bulk v) = v
text_of wrong_type failure = wrong_type
text_of wrong_type _ = []

module _ {R : Redis} (wrong_type : Bytes) where
  -- The text is copied by its length to an array of the caller, which has 64 bytes: what is longer
  -- is written behind that array, and the model's id has room for it.
  unfoldable pub get_user_id_by_username : Bytes → M R Bytes
  get_user_id_by_username username = do
    r ← redis_command (get username)
    pure (text_of wrong_type r)

  unfoldable pub get_username_by_user_id : Bytes → M R Bytes
  get_username_by_user_id userid = do r ← redis_command (get userid); pure (text_of wrong_type r)

  unfoldable pub get_user_drivce_id_by_user_id : Bytes → M R (List Bytes)
  get_user_drivce_id_by_user_id userid = do
    r ← redis_command (smembers (drivce_list userid))
    pure (reverse (elements r))

  unfoldable pub get_user_info_by_user_id : Bytes → M R UserInfo
  get_user_info_by_user_id userid = do
    username ← get_username_by_user_id userid
    drivces ← get_user_drivce_id_by_user_id userid
    pure (record { userid = userid; username = username; drivces = drivces })

  unfoldable pub get_user_info_by_name : Bytes → M R (Option UserInfo)
  get_user_info_by_name username = do
    userid ← get_user_id_by_username username
    if is_empty userid then pure none else (do
      drivces ← get_user_drivce_id_by_user_id userid
      pure (some (record { userid = userid; username = username; drivces = drivces })))

  -- Neither name is tested.
  unfoldable pub add_friends_use_name : Bytes → Bytes → M R UserInfo
  add_friends_use_name username friendusername = do
    userid ← get_user_id_by_username username
    userid2 ← get_user_id_by_username friendusername
    _ ← redis_command (sadd (friends userid) userid2)
    get_user_info_by_user_id userid2

  user_infos : List Bytes → List UserInfo → M R (List UserInfo)
  user_infos [] found s = some (found, s)
  user_infos (userid ∷ userids) found s =
      (get_user_info_by_user_id userid >>= λ info. user_infos userids (info ∷ found)) s

  unfoldable pub get_user_friends : Bytes → M R (List UserInfo)
  unfolding user_infos
  get_user_friends userid = do
    r ← redis_command (smembers (friends userid))
    user_infos (elements r) []

  -- `guid` is what `createGUID` makes; `none` if the name is taken.
  unfoldable pub reg_user : Bytes → Bytes → Bytes → M R (Option Bytes)
  reg_user guid username drivce_id = do
    r ← redis_command (get username)
    if is_empty (text_of wrong_type r)
        then (do
          redis_append_command (set guid username)
          redis_append_command (set username guid)
          redis_append_command (sadd reg_user_list guid)
          redis_append_command (sadd (drivce_list guid) drivce_id)
          free_replies 4
          pure (some guid))
        else pure none

  unfoldable pub is_user_login : Bytes → M R (Option UserInfo)
  is_user_login userid = do
    r ← redis_command (sismember login_user_list userid)
    if is_one r then (do info ← get_user_info_by_user_id userid; pure (some info)) else pure none

  -- The name is not tested: the id of an unknown one is empty.
  unfoldable pub user_login : Bytes → Bytes → M R UserInfo
  user_login username drivce_id = do
    userid ← get_user_id_by_username username
    redis_append_command (sadd login_user_list userid)
    redis_append_command (sadd (drivce_list userid) drivce_id)
    free_replies 2
    pure (record { userid = userid; username = username; drivces = [] })

module _ {R : Redis} where
  -- The format of the first command has two arguments and is given one: `missing` is what stands
  -- in the place of the other.
  unfoldable pub user_logout : Bytes → Bytes → M R (Unit {0})
  user_logout missing userid = do
    redis_append_command (srem (drivce_list userid) missing)
    redis_append_command (srem login_user_list userid)
    free_replies 2
