-- ===== src/Tests/Accounts.antt =====
-- A small set of users, for the theorems on server/extended_storage.c.
use push_server.Base.{
  false, [], ◌∷◌, some, Bytes, text, bytes_eq, bytes_eq_refl, ◌≡◌, ◌≢◌, refl, ap, ◌∙◌,
  if◌then◌else◌, arith,
}
use push_server.Redis.Values.{Value, absent, string, members}
use push_server.Redis.Conn.{idle, ◌>>=◌}
use push_server.Redis.Instance.{keyspace, empty}
use push_server.Accounts.{
  UserInfo, drivce_list, login_user_list, reg_user_list, reg_user, get_user_id_by_username,
  get_username_by_user_id, user_login, is_user_login,
}
use push_server.Accounts.Register.{reg_user-get_username_by_user_id}
use push_server.Accounts.Login.{is_user_login-user_login}

-- Texts that a computation tells apart.
apart : (xs ys : Bytes) → bytes_eq xs ys ≡ false → xs ≢ ys
apart xs ys h e =
    let same : bytes_eq xs xs ≡ false = ap (bytes_eq xs) e ∙ h in ground (arith, bytes_eq_refl xs)

abbrev wrong : Bytes
wrong = text "WRONGTYPE"

reg_user-get_username_by_user_id_example :
    (db : Bytes → Value) × (reg_user {R = keyspace} wrong
        (text "U1")
        (text "bob")
        (text "d1")
        (idle empty)
      ≡ some (some (text "U1"), idle db))
    × (db' : Bytes → Value) × ((get_user_id_by_username {R = keyspace} wrong (text "bob")
            >>= get_username_by_user_id wrong)
          (idle db)
        ≡ some (text "bob", idle db'))
unfolding reg_user_list drivce_list
reg_user-get_username_by_user_id_example =
    reg_user-get_username_by_user_id keyspace wrong (text "U1") (text "bob") (text "d1") empty refl
      (apart _ _ refl) (apart _ _ refl) (apart _ _ refl) (apart _ _ refl)

-- The user "bob", who is not logged in.
abbrev with_bob : Bytes → Value
with_bob j =
    if bytes_eq (text "bob") j
    then string (text "U1")
    else if bytes_eq (text "U1") j
    then string (text "bob")
    else absent

is_user_login-user_login_example :
    (info : UserInfo) × (db : Bytes → Value) × ((user_login {R = keyspace} wrong
            (text "bob")
            (text "d1")
          >>= λ i. is_user_login wrong i.userid)
        (idle with_bob)
      ≡ some (some info, idle db))
    × (info.userid ≡ text "U1")
    × (info.username ≡ text "bob")
unfolding login_user_list drivce_list
is_user_login-user_login_example =
    is_user_login-user_login keyspace wrong (text "U1") (text "bob") (text "d1") with_bob refl refl
      tt (apart _ _ refl) (apart _ _ refl) (apart _ _ refl)

-- The user "bob" is logged in.
abbrev logged_in : Bytes → Value
logged_in j = if bytes_eq login_user_list j then members (text "U1" ∷ []) else with_bob j
