-- ===== src/Server/Dispatch/Welcome.antt =====
-- The steps by which `read_thread_function` of server/server.c registers a client and answers it.
use push_server.Base.{
  ℕ, zero, suc, true, false, [], ◌∷◌, some, Bytes, length, take, cstr, IsText, ◌==◌, bytes_eq-false,
  ◌≡◌, refl, sym, ap, ◌∙◌, arith,
}
use push_server.Json.{JsonLibrary}
use push_server.Redis.{Redis}
use push_server.Redis.Values.{absent}
use push_server.Redis.Conn.{idle, exec_all, value-exec_all}
use push_server.ParseCommand.Header.{header_size}
use push_server.ParseCommand.Helo.{create_server_helo}
use push_server.MessageStorage.Keys.{
  content, noread, userlist, noread-ne-content, userlist-ne-noread,
}
use push_server.MessageStorage.Lookup.{lookups, get_client_info-client_at}
use push_server.MessageStorage.Presence.{
  connected, login_db, login_commands, value-login_db, scan-login_fields, seen-refused,
}
use push_server.MessageStorage.{putclientinfo, get_client_info}
use push_server.MessageStorage.Put.{new_client}
use push_server.Server.Table.{Client, Clients}
use push_server.Server.Dispatch.{Arrival, done, peer, greet}

pub cstr-IsText : (xs : Bytes) → IsText xs → cstr xs ≡ xs
cstr-IsText [] h = refl
cstr-IsText (zero ∷ xs) h = absurd (omega arith)
cstr-IsText (suc c ∷ xs) h = ap (λ (l : Bytes). suc c ∷ l) (cstr-IsText xs h.2)

module _ (R : Redis) (J : JsonLibrary) (serverid : ℕ) (a : Arrival) (i : ℕ) (db : R.Db) where
  -- What is sent: the header of the greeting.
  abbrev pub greeting : Bytes
  greeting = take header_size (create_server_helo serverid 0 0 0)

  pub greet-named :
      (t : Clients) (c : Client) (d : ℕ) (ds : Bytes) (db : R.Db)
      → a.sends ≡ true
      → c.drivce_id ≡ d ∷ ds
      → greet {R = R} J serverid a i t c (idle db) ≡ some (done t (greeting ∷ []) 2, idle db)
  greet-named t c d ds db s e =
      let is_named : (length c.drivce_id == 0) ≡ false = ground (arith, ap length e) in
      rw s (rw is_named refl)

  abbrev pub logged_db : Client → ℕ → R.Db
  logged_db c clienttype =
      login_db R (peer a c) serverid a.serverip c.drivce_id clienttype a.time db

  pub new_client-run :
      (c : Client) (clienttype : ℕ)
      → new_client {R = R} (peer a c) serverid a.serverip c.drivce_id clienttype a.time (idle db)
        ≡ some (
          connected (peer a c) serverid a.serverip c.drivce_id clienttype a.time,
          idle (logged_db c clienttype),
        )
  unfolding new_client putclientinfo
  new_client-run c clienttype = refl

  -- The unread messages of the device stay where they are.
  pub logged_db-noread :
      (c : Client) (clienttype : ℕ)
      → R.value (logged_db c clienttype) (noread c.drivce_id) ≡ R.value db (noread c.drivce_id)
  logged_db-noread c clienttype =
      let id = c.drivce_id in
      value-exec_all R (login_commands (peer a c) serverid a.serverip id clienttype a.time) db
        (noread id)
      ∙ rw
          (
            bytes_eq-false (content id) (noread id) (λ e. noread-ne-content id id (sym e)),
            bytes_eq-false userlist (noread id) (userlist-ne-noread id),
          )
          (seen-refused a.ip (noread id) (R.value db (noread id)))

  pub found-logged_db :
      (c : Client) (clienttype : ℕ)
      → R.value db (content c.drivce_id) ≡ absent
      → (db' : R.Db) × (get_client_info {R = R} (some c.drivce_id) (idle (logged_db c clienttype))
          ≡ some (
            some (connected (peer a c) serverid a.serverip c.drivce_id clienttype a.time),
            idle db',
          ))
  found-logged_db c clienttype v =
      let w = value-login_db R (peer a c) serverid a.serverip c.drivce_id clienttype a.time db v in
      (
        exec_all R
            (lookups (content c.drivce_id) (R.value (logged_db c clienttype) (content c.drivce_id)))
            (logged_db c clienttype),
        get_client_info-client_at R c.drivce_id (logged_db c clienttype) (rw w tt)
            ∙ rw w (
                rw
                  (scan-login_fields R (peer a c) serverid a.serverip c.drivce_id clienttype a.time
                    db)
                  refl),
      )
