-- ===== src/MessageStorage/Presence.antt =====
-- The presence of a device, as server/messagestorage.c records it: `putclientinfo` makes it known,
-- `getClientInfo` reads it back, `removeClient` forgets it.
use push_server.Base.{
  ℕ, List, [], ◌∷◌, none, some, Bytes, text, bytes_eq, bytes_eq_refl, bytes_eq-false, Bool-cases,
  inl, inr, ◌≡◌, refl, sym, ◌∙◌,
}
use push_server.Base.Decimal.{dec, atoi-dec}
use push_server.Redis.{Redis}
use push_server.Redis.Values.{
  Value, absent, hash, Command, lpush, lrem, hset, del, refused, zremrangebyscore, flatten, update,
  key_of,
}
use push_server.Redis.Conn.{Conn, idle, exec_all, value-exec_all, seen, ◌>>=◌}
use push_server.MessageStorage.Keys.{content, userlist, userlistonline, content-ne-userlist}
use push_server.MessageStorage.Records.{
  ClientInfo, no_client, scan_client, client_field, set_client,
}
use push_server.MessageStorage.Lookup.{lookups, get_client_info-client_at}
use push_server.MessageStorage.{Peer, putclientinfo, get_client_info, remove_client, set_drivce_id}

abbrev pub login_fields : Peer → ℕ → Bytes → ℕ → Bytes → List (Bytes × Bytes)
login_fields client serverid serverip clienttype time =
    (text "clientip", client.ip)
    ∷ (text "clientport", dec client.port)
    ∷ (text "logintime", time)
    ∷ (text "serverip", serverip)
    ∷ (text "clienttype", dec clienttype)
    ∷ (text "serverid", dec serverid)
    ∷ (text "clientid", dec client.client_id)
    ∷ []

abbrev pub login_commands : Peer → ℕ → Bytes → Bytes → ℕ → Bytes → List Command
login_commands client serverid serverip d clienttype time =
    hset (content d) (text "clientip") client.ip
    ∷ hset (content d) (text "clientport") (dec client.port)
    ∷ hset (content d) (text "logintime") time
    ∷ hset (content d) (text "serverip") serverip
    ∷ hset (content d) (text "clienttype") (dec clienttype)
    ∷ refused client.ip
    ∷ lpush userlist d
    ∷ hset (content d) (text "serverid") (dec serverid)
    ∷ hset (content d) (text "clientid") (dec client.client_id)
    ∷ []

-- What a lookup should return for a device that has logged in.
abbrev pub connected : Peer → ℕ → Bytes → Bytes → ℕ → Bytes → ClientInfo
connected client serverid serverip d clienttype time = record {
  drivce_id = d;
  clienttype = clienttype;
  clinetport = client.port;
  clientid = client.client_id;
  serverid = serverid;
  clientip = client.ip;
  serverip = serverip;
  logintime = time;
}

-- A refused command changes no key.
pub seen-refused : (k j : Bytes) (w : Value) → seen (refused k) j w ≡ w
seen-refused k j w = elim (Bool-cases (bytes_eq k j)) [ inl h ↦ rw h (same w) | inr h ↦ rw h refl ]
  where
    same : (v : Value) → (update (refused k) v) ≡ v
    same absent = refl
    same _ = refl

module _ (R : Redis) (client : Peer) (serverid : ℕ) (serverip d : Bytes) (clienttype : ℕ)
    (time : Bytes) (db : R.Db) where
  abbrev pub login_db : R.Db
  login_db = exec_all R (login_commands client serverid serverip d clienttype time) db

  pub value-login_db :
      R.value db (content d) ≡ absent
      → R.value login_db (content d) ≡ hash (login_fields client serverid serverip clienttype time)
  value-login_db v =
      value-exec_all R (login_commands client serverid serverip d clienttype time) db (content d)
      ∙ rw (bytes_eq_refl (content d), v)
          (rw (seen-refused client.ip (content d))
            (rw (bytes_eq-false _ _ (λ e. content-ne-userlist d (sym e))) refl))

  pub scan-login_fields :
      set_drivce_id d
        (scan_client (flatten (login_fields client serverid serverip clienttype time)) no_client)
      ≡ connected client serverid serverip d clienttype time
  unfolding scan_client client_field set_client
  scan-login_fields =
      rw (atoi-dec client.port)
        (rw (atoi-dec clienttype) (rw (atoi-dec serverid) (rw (atoi-dec client.client_id) refl)))

  -- A device that was not connected and logs in is found, with its address, its server and its
  -- slot as they were given, and no reply is left on the connection.
  pub get_client_info-putclientinfo :
      R.value db (content d) ≡ absent
      → (db' : R.Db) × ((putclientinfo {R = R} client serverid serverip d clienttype time >>= λ _.
              get_client_info (some d))
            (idle db)
          ≡ some (some (connected client serverid serverip d clienttype time), idle db'))
  unfolding putclientinfo
  get_client_info-putclientinfo v = (
    exec_all R (lookups (content d) (R.value login_db (content d))) login_db,
    get_client_info-client_at R d login_db (rw (value-login_db v) tt)
        ∙ rw (value-login_db v) (rw scan-login_fields refl),
  )

seen-absent : (c : Command) (j : Bytes) → update c absent ≡ absent → seen c j absent ≡ absent
seen-absent c j h = elim (Bool-cases (bytes_eq (key_of c) j)) [ inl e ↦ rw e h | inr e ↦ rw e refl ]

module _ (R : Redis) (c : ℕ) (cs : Bytes) (client : Peer) (db : R.Db) where
  abbrev pub logout_commands : List Command
  logout_commands =
      del (content (c ∷ cs))
      ∷ lrem userlistonline (c ∷ cs)
      ∷ zremrangebyscore client.ip client.port client.port
      ∷ []

  pub value-logout : R.value (exec_all R logout_commands db) (content (c ∷ cs)) ≡ absent
  value-logout =
      value-exec_all R logout_commands db (content (c ∷ cs))
      ∙ rw (bytes_eq_refl (content (c ∷ cs))) (
          rw (seen-absent (lrem userlistonline (c ∷ cs)) (content (c ∷ cs)) refl) (
            seen-absent (zremrangebyscore client.ip client.port client.port) (content (c ∷ cs))
              refl))

  -- A device whose id is not empty is not found any more once its client is removed, and no reply
  -- is left on the connection.
  pub get_client_info-remove_client :
      (db' : R.Db) × ((remove_client {R = R} (some (c ∷ cs, client)) >>= λ _.
      get_client_info (some (c ∷ cs)))
          (idle db)
        ≡ some (none, idle db'))
  unfolding remove_client
  get_client_info-remove_client = (
    exec_all R (lookups (content (c ∷ cs)) absent) (exec_all R logout_commands db),
    get_client_info-client_at R (c ∷ cs) (exec_all R logout_commands db) (rw value-logout tt)
        ∙ rw value-logout refl,
  )

-- A client that never said who it is leaves nothing to remove.
pub remove_client-nameless :
    (R : Redis) (client : Peer) (s : Conn R) → remove_client (some ([], client)) s ≡ some (tt, s)
unfolding remove_client
remove_client-nameless R client s = refl
