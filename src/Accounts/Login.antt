-- ===== src/Accounts/Login.antt =====
-- Login and logout in server/extended_storage.c.
use push_server.Base.{
  Bool, true, false, Bool-cases, inl, inr, List, [], ◌∷◌, none, some, Bytes, bytes_eq_refl,
  bytes_eq-false, ◌≡◌, ◌≢◌, refl, ap, ◌∙◌,
}
use mathlib.Core.List.{reverse}
use push_server.Redis.{Redis}
use push_server.Redis.Values.{
  Value, absent, string, members, Command, get, sadd, srem, sismember, smembers, reply_of, update,
  contains, remove, members_or_absent,
}
use push_server.Redis.Conn.{pure, idle, exec_all, value-exec_all, after, bind-some, ◌>>=◌}
use push_server.MessageStorage.Queues.{contains-remove}
use push_server.Accounts.{
  UserInfo, drivce_list, login_user_list, elements, is_one, get_user_id_by_username,
  get_username_by_user_id, get_user_drivce_id_by_user_id, get_user_info_by_user_id, is_user_login,
  user_login, user_logout,
}
use push_server.Accounts.Register.{
  seen_same, value-get, get_user_id_by_username-string, get_username_by_user_id-string,
}

-- A key that holds a set, or nothing.
abbrev pub IsMembers : Value → Type 0
IsMembers absent = Unit
IsMembers (members s) = Unit
IsMembers _ = ⊥

-- Whether SISMEMBER finds a member.
abbrev pub has : Bytes → Value → Bool
has u (members s) = contains u s
has u _ = false

pub has-sadd : (k u : Bytes) (w : Value) → IsMembers w → has u (update (sadd k u) w) ≡ true
has-sadd k u absent h = rw (bytes_eq_refl u) refl
has-sadd k u (members s) h = elim (Bool-cases (contains u s)) [
  | inl e ↦ rw e e
  | inr e ↦ rw e (rw (bytes_eq_refl u) refl)
]
has-sadd k u _ h = absurd h

has-members_or_absent : (u : Bytes) (s : List Bytes) → has u (members_or_absent s) ≡ contains u s
has-members_or_absent u [] = refl
has-members_or_absent u (x ∷ s) = refl

has-srem : (k u : Bytes) (w : Value) → IsMembers w → has u (update (srem k u) w) ≡ false
has-srem k u absent h = refl
has-srem k u (members s) h = has-members_or_absent u (remove u s) ∙ contains-remove u s
has-srem k u _ h = absurd h

is_one-sismember : (k u : Bytes) (w : Value) → is_one (reply_of (sismember k u) w) ≡ has u w
is_one-sismember k u absent = refl
is_one-sismember k u (members s) = elim (Bool-cases (contains u s)) [
  | inl e ↦ rw e refl
  | inr e ↦ rw e refl
]
is_one-sismember k u _ = refl

update-sismember : (k u : Bytes) (w : Value) → update (sismember k u) w ≡ w
update-sismember k u absent = refl
update-sismember k u _ = refl

module _ (R : Redis) (wrong_type : Bytes) where
  -- Who is not in the list of users that are logged in is not found.
  is_user_login-none :
      (u : Bytes) (db : R.Db)
      → has u (R.value db login_user_list) ≡ false
      → is_user_login {R = R} wrong_type u (idle db)
        ≡ some (none, idle (R.exec (sismember login_user_list u) db))
  unfolding is_user_login
  is_user_login-none u db h =
      rw (R.reply-value (sismember login_user_list u) db)
        (rw (is_one-sismember login_user_list u (R.value db login_user_list)) (rw h refl))

  abbrev pub info_db : Bytes → R.Db → R.Db
  info_db u db = R.exec (smembers (drivce_list u)) (R.exec (get u) db)

  abbrev pub user_info : Bytes → Bytes → R.Db → UserInfo
  user_info u username db = record {
    userid = u;
    username = username;
    drivces = reverse (elements (R.reply (smembers (drivce_list u)) (R.exec (get u) db)));
  }

  pub get_user_info_by_user_id-string :
      (u username : Bytes) (db : R.Db)
      → R.value db u ≡ string username
      → get_user_info_by_user_id {R = R} wrong_type u (idle db)
        ≡ some (user_info u username db, idle (info_db u db))
  unfolding get_user_info_by_user_id get_user_drivce_id_by_user_id
  get_user_info_by_user_id-string u username db v =
      bind-some (get_username_by_user_id wrong_type u) _
        (get_username_by_user_id-string R wrong_type u username db v)

  abbrev login_asked : Bytes → R.Db → R.Db
  login_asked u db = R.exec (sismember login_user_list u) db

  -- Who is in it is found, with the name that the id leads to.
  is_user_login-some :
      (u username : Bytes) (db : R.Db)
      → has u (R.value db login_user_list) ≡ true
      → R.value db u ≡ string username
      → is_user_login {R = R} wrong_type u (idle db)
        ≡ some (some (user_info u username (login_asked u db)), idle (info_db u (login_asked u db)))
  unfolding is_user_login
  is_user_login-some u username db h v =
      let w : R.value (login_asked u db) u ≡ string username =
        R.value-exec (sismember login_user_list u) db u
        ∙ seen_same (sismember login_user_list u) u (R.value db u)
            (update-sismember login_user_list u _)
        ∙ v in
      rw (R.reply-value (sismember login_user_list u) db) (
        rw (is_one-sismember login_user_list u (R.value db login_user_list)) (
          rw h (
            bind-some (get_user_info_by_user_id wrong_type u) (λ i. pure (some i))
              (get_user_info_by_user_id-string u username (login_asked u db) w))))

module _ (R : Redis) (wrong_type u username drivce_id : Bytes) (db : R.Db) where
  abbrev login : List Command
  login = sadd login_user_list u ∷ sadd (drivce_list u) drivce_id ∷ []

  abbrev login_db : R.Db
  login_db = exec_all R login (R.exec (get username) db)

  value-login_db : (j : Bytes) → R.value login_db j ≡ after login j (R.value db j)
  value-login_db j =
      value-exec_all R login (R.exec (get username) db) j
      ∙ ap (after login j) (value-get R wrong_type username db j)

  -- The id is in the list of those who are logged in.
  has-login_db :
      IsMembers (R.value db login_user_list)
      → drivce_list u ≢ login_user_list
      → has u (R.value login_db login_user_list) ≡ true
  has-login_db s e =
      let w : R.value login_db login_user_list
          ≡ update (sadd login_user_list u) (R.value db login_user_list) =
        value-login_db login_user_list
        ∙ rw (bytes_eq_refl login_user_list, bytes_eq-false _ _ e) refl in
      ap (has u) w ∙ has-sadd login_user_list u (R.value db login_user_list) s

  user_login-string :
      R.value db username ≡ string u
      → user_login {R = R} wrong_type username drivce_id (idle db)
        ≡ some (record { userid = u; username = username; drivces = [] }, idle login_db)
  unfolding user_login
  user_login-string v =
      bind-some (get_user_id_by_username wrong_type username) _
        (get_user_id_by_username-string R wrong_type username u db v)

  -- A user who logs in with a name that leads to an id, and an id that leads to the name, is
  -- found as logged in under that id and name. The list of those who are logged in is not the id
  -- and holds a set or nothing, and the list of the user's devices is neither.
  pub is_user_login-user_login :
      R.value db username ≡ string u
      → R.value db u ≡ string username
      → IsMembers (R.value db login_user_list)
      → login_user_list ≢ u
      → drivce_list u ≢ u
      → drivce_list u ≢ login_user_list
      → (info : UserInfo) × (db' : R.Db) × ((user_login {R = R} wrong_type username drivce_id
              >>= λ i. is_user_login wrong_type i.userid)
            (idle db)
          ≡ some (some info, idle db'))
        × (info.userid ≡ u)
        × (info.username ≡ username)
  is_user_login-user_login v w s l d e = (
    user_info R wrong_type u username (login_asked R wrong_type u login_db),
    info_db R wrong_type u (login_asked R wrong_type u login_db),
    bind-some (user_login wrong_type username drivce_id) (λ i. is_user_login wrong_type i.userid)
          (user_login-string v)
        ∙ is_user_login-some R wrong_type u username login_db (has-login_db s e)
            (value-login_db u ∙ rw (bytes_eq-false _ _ l, bytes_eq-false _ _ d) w),
    refl,
    refl,
  )

module _ (R : Redis) (wrong_type username drivce_id : Bytes) (db : R.Db) where
  no_id :
      R.value db username ≡ absent
      → get_user_id_by_username {R = R} wrong_type username (idle db)
        ≡ some ([], idle (R.exec (get username) db))
  unfolding get_user_id_by_username
  no_id v = rw (R.reply-value (get username) db) (rw v refl)

  -- A name that leads to no id logs in all the same: the empty id is in the list of those who are
  -- logged in, if that list holds a set or nothing and is not the list of the empty id's devices.
  pub user_login-unknown :
      R.value db username ≡ absent
      → IsMembers (R.value db login_user_list)
      → drivce_list [] ≢ login_user_list
      → (db' : R.Db) × (user_login {R = R} wrong_type username drivce_id (idle db)
          ≡ some (record { userid = []; username = username; drivces = [] }, idle db'))
        × (has [] (R.value db' login_user_list) ≡ true)
  unfolding user_login
  user_login-unknown v s e = (
    login_db R wrong_type [] username drivce_id db,
    bind-some (get_user_id_by_username wrong_type username) _ (no_id v),
    has-login_db R wrong_type [] username drivce_id db s e,
  )

module _ (R : Redis) (wrong_type missing u : Bytes) (db : R.Db) where
  abbrev logout : List Command
  logout = srem (drivce_list u) missing ∷ srem login_user_list u ∷ []

  -- A user who logs out is not found as logged in, if the list of those who are logged in holds a
  -- set or nothing and is not the list of the user's devices.
  pub is_user_login-user_logout :
      IsMembers (R.value db login_user_list)
      → drivce_list u ≢ login_user_list
      → (db' : R.Db) × ((user_logout {R = R} missing u >>= λ _. is_user_login wrong_type u)
            (idle db)
          ≡ some (none, idle db'))
  unfolding user_logout
  is_user_login-user_logout s e = (
    R.exec (sismember login_user_list u) (exec_all R logout db),
    is_user_login-none R wrong_type u (exec_all R logout db) (
        ap (has u) (
          value-exec_all R logout db login_user_list
          ∙ rw (bytes_eq-false _ _ e, bytes_eq_refl login_user_list) refl)
        ∙ has-srem login_user_list u (R.value db login_user_list) s),
  )
