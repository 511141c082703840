-- ===== src/Accounts/Register.antt =====
-- Registration in server/extended_storage.c.
use push_server.Base.{
  ℕ, List, [], ◌∷◌, none, some, Bytes, text, bytes_eq, bytes_eq_refl, bytes_eq-false, Bool-cases,
  inl, inr, length, length-append, ◌≡◌, ◌≢◌, refl, sym, ap, ◌∙◌, arith,
}
use push_server.Redis.{Redis}
use push_server.Redis.Values.{Value, absent, string, Command, get, set, sadd, update, key_of}
use push_server.Redis.Conn.{idle, exec_all, value-exec_all, after, seen, bind-some, ◌>>=◌}
use push_server.Accounts.{
  drivce_list, reg_user_list, get_user_id_by_username, get_username_by_user_id, reg_user,
}

abbrev pub registration : Bytes → Bytes → Bytes → List Command
registration guid username drivce_id =
    set guid username
    ∷ set username guid
    ∷ sadd reg_user_list guid
    ∷ sadd (drivce_list guid) drivce_id
    ∷ []

-- A question changes nothing.
pub update-get : (k : Bytes) (w : Value) → update (get k) w ≡ w
update-get k absent = refl
update-get k _ = refl

pub seen_same : (c : Command) (j : Bytes) (w : Value) → update c w ≡ w → seen c j w ≡ w
seen_same c j w h = elim (Bool-cases (bytes_eq (key_of c) j)) [ inl e ↦ rw e h | inr e ↦ rw e refl ]

-- No id is the key of its own devices.
drivce_list_ne : (d : Bytes) → drivce_list d ≢ d
unfolding drivce_list
drivce_list_ne d e = absurd (omega (arith, ap length e, length-append d (text "_drivce_list")))

module _ (R : Redis) (wrong_type : Bytes) where
  pub value-get : (k : Bytes) (db : R.Db) (j : Bytes) → R.value (R.exec (get k) db) j ≡ R.value db j
  value-get k db j = R.value-exec (get k) db j ∙ seen_same (get k) j (R.value db j) (update-get k _)

  -- Lookups in terms of the values.
  pub get_user_id_by_username-string :
      (username u : Bytes) (db : R.Db)
      → R.value db username ≡ string u
      → get_user_id_by_username {R = R} wrong_type username (idle db)
        ≡ some (u, idle (R.exec (get username) db))
  unfolding get_user_id_by_username
  get_user_id_by_username-string username u db v = rw (R.reply-value (get username) db) (rw v refl)

  pub get_username_by_user_id-string :
      (userid u : Bytes) (db : R.Db)
      → R.value db userid ≡ string u
      → get_username_by_user_id {R = R} wrong_type userid (idle db)
        ≡ some (u, idle (R.exec (get userid) db))
  unfolding get_username_by_user_id
  get_username_by_user_id-string userid u db v = rw (R.reply-value (get userid) db) (rw v refl)

module _ (R : Redis) (wrong_type guid username drivce_id : Bytes) (db : R.Db) where
  abbrev pub asked_db : R.Db
  asked_db = R.exec (get username) db

  abbrev pub reg_db : R.Db
  reg_db = exec_all R (registration guid username drivce_id) asked_db

  pub reg_user-free :
      R.value db username ≡ absent
      → reg_user {R = R} wrong_type guid username drivce_id (idle db)
        ≡ some (some guid, idle reg_db)
  unfolding reg_user
  reg_user-free v = rw (R.reply-value (get username) db) (rw v refl)

  value-reg_db :
      (j : Bytes) → R.value reg_db j ≡ after (registration guid username drivce_id) j (R.value db j)
  value-reg_db j =
      value-exec_all R (registration guid username drivce_id) asked_db j
      ∙ ap (after (registration guid username drivce_id) j) (value-get R wrong_type username db j)

  pub reg_db-username :
      guid ≢ username
      → reg_user_list ≢ username
      → drivce_list guid ≢ username
      → R.value reg_db username ≡ string guid
  reg_db-username g l d =
      value-reg_db username
      ∙ rw
          (bytes_eq-false _ _ g, bytes_eq_refl username, bytes_eq-false _ _ l, bytes_eq-false _ _ d)
          refl

  pub reg_db-guid : guid ≢ username → reg_user_list ≢ guid → R.value reg_db guid ≡ string username
  reg_db-guid g l =
      value-reg_db guid
      ∙ rw
          (
            bytes_eq_refl guid,
            bytes_eq-false _ _ (λ e. g (sym e)),
            bytes_eq-false _ _ l,
            bytes_eq-false _ _ (drivce_list_ne guid),
          )
          refl

  -- A user whose name is no key yet is registered under the new id: the name leads to the id and
  -- the id back to the name, and no reply is left on the connection. The new id and the name are
  -- two keys, and neither is the list of users; the name is not the key of the id's devices.
  pub reg_user-get_username_by_user_id :
      R.value db username ≡ absent
      → guid ≢ username
      → reg_user_list ≢ username
      → reg_user_list ≢ guid
      → drivce_list guid ≢ username
      → (db' : R.Db) × (reg_user {R = R} wrong_type guid username drivce_id (idle db)
          ≡ some (some guid, idle db'))
        × (db'' : R.Db) × ((get_user_id_by_username {R = R} wrong_type username
                >>= get_username_by_user_id wrong_type)
              (idle db')
            ≡ some (username, idle db''))
  reg_user-get_username_by_user_id v g l m d =
      let named = R.exec (get username) reg_db in
      (
        reg_db,
        reg_user-free v,
        R.exec (get guid) named,
        bind-some (get_user_id_by_username wrong_type username) (get_username_by_user_id wrong_type)
              (get_user_id_by_username-string R wrong_type username guid reg_db
                (reg_db-username g l d))
            ∙ get_username_by_user_id-string R wrong_type guid username named
                (value-get R wrong_type username reg_db guid ∙ reg_db-guid g m),
      )

  -- A name that is taken is refused, and no key changes.
  pub reg_user-taken :
      (c : ℕ) (cs j : Bytes)
      → R.value db username ≡ string (c ∷ cs)
      → (db' : R.Db) × (reg_user {R = R} wrong_type guid username drivce_id (idle db)
          ≡ some (none, idle db'))
        × (R.value db' j ≡ R.value db j)
  unfolding reg_user
  reg_user-taken c cs j v = (
    asked_db,
    rw (R.reply-value (get username) db) (rw v refl),
    value-get R wrong_type username db j,
  )
