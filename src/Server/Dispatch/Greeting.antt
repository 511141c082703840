-- ===== src/Server/Dispatch/Greeting.antt =====
-- How `read_thread_function` of server/server.c meets a client that says who it is.
use push_server.Base.{
  ℕ, ◌<◌, ◌%◌, true, [], ◌∷◌, append-nil, some, Bytes, length, get_elem?-set_self, length-set,
  subst, cstr, IsText, ltb, read16, false, ◌≡◌, ◌≢◌, refl, ap, ◌∙◌, arith,
}
use push_server.Json.{JsonLibrary}
use push_server.Redis.{Redis}
use push_server.Redis.Values.{absent}
use push_server.Redis.Conn.{idle, bind-some}
use push_server.ParseCommand.Header.{client_type_ios, parse_client_header, create_client_header}
use push_server.ParseCommand.Helo.{
  over, create_client_helo, create_client_helo-drivce_id, parse_client_helo,
}
use push_server.MessageStorage.Keys.{content, noread}
use push_server.MessageStorage.Presence.{connected}
use push_server.MessageStorage.{get_client_info}
use push_server.MessageStorage.Put.{new_client}
use push_server.Server.Table.{Client, Clients}
use push_server.Server.Table.Timeouts.{place}
use push_server.Server.Dispatch.Welcome.{
  cstr-IsText, greeting, greet-named, logged_db, new_client-run, logged_db-noread, found-logged_db,
}
use push_server.Server.Dispatch.Held.{lt_of_get_elem?}
use push_server.Server.Dispatch.{
  Arrival, done, peer, put, greeted, greet, on_received, read_thread_function,
}

module _ (R : Redis) (J : JsonLibrary) (serverid : ℕ) (a : Arrival) (i : ℕ) (db : R.Db)
    (pad garbage clienttype d : ℕ) (ds iostoken : Bytes) where
  abbrev pub packet : Bytes
  packet = (create_client_helo pad garbage clienttype (d ∷ ds) iostoken).bytes

  -- The client after the greeting.
  abbrev welcome : Client → Client
  welcome c =
      let p = parse_client_header packet in
      let c' = record c { timeout = a.now } in
      record c' { drivce_id = cstr (greeted a p.1 c' p.0).drivce_id }

  drivce_id-welcome :
      (c : Client)
      → c.drivce_id ≡ []
      → IsText (d ∷ ds)
      → length (d ∷ ds) < 65536
      → (welcome c).drivce_id ≡ d ∷ ds
  drivce_id-welcome c e h short =
      let p = parse_client_header packet in
      ap cstr (
        create_client_helo-drivce_id pad garbage clienttype (d ∷ ds) iostoken c.drivce_id a.token
          p.0.messagetype short
        ∙ ap (over (d ∷ ds)) e
        ∙ append-nil (d ∷ ds))
      ∙ cstr-IsText (d ∷ ds) h

  short_id : length (d ∷ ds) < 64 → ltb 63 (read16 (parse_client_header packet).1) ≡ false
  unfolding create_client_helo parse_client_header
  short_id b = ground arith

  welcome-run :
      (t : Clients) (c : Client)
      → a.sends ≡ true
      → length (d ∷ ds) < 64
      → (welcome c).drivce_id ≡ d ∷ ds
      → on_received {R = R} J serverid a i t c (some packet) (idle db)
        ≡ some (
          done
              (put i (welcome c) (put i (record c { timeout = a.now }) t))
              (greeting R J serverid a i db ∷ [])
              2,
          idle (logged_db R J serverid a i db (welcome c) (clienttype % 256)),
        )
  unfolding create_client_helo parse_client_header create_client_header parse_client_helo
  welcome-run t c s b e =
      let t' = put i (welcome c) (put i (record c { timeout = a.now }) t) in
      rw (short_id b) (
        bind-some
          (new_client {R = R} (peer a c) serverid a.serverip (welcome c).drivce_id
            (clienttype % 256) a.time)
          (λ _. greet J serverid a i t' (welcome c))
          (new_client-run R J serverid a i db (welcome c) (clienttype % 256))
        ∙ greet-named R J serverid a i db t' (welcome c) d ds
            (logged_db R J serverid a i db (welcome c) (clienttype % 256)) s e)

  -- A device that connects anew and says who it is, by the greeting that a client builds, is
  -- found as connected, at the client's address and place, with this server and with the type of
  -- client that it said (of which a byte is kept): the thread sends the header of the server's
  -- greeting and ends with every reply read, and the client's place keeps its socket and has the
  -- id. The unread messages of the device stay where they are. The id is a text that is not empty
  -- and has at most 63 bytes, the client is not one of iOS, whose greeting leaves its buffer, the
  -- device was not connected, and the reply can be sent.
  pub read_thread_function-greets :
      (t : Clients) (c : Client)
      → place i t ≡ some c
      → c.drivce_id ≡ []
      → a.received ≡ some packet
      → a.sends ≡ true
      → IsText (d ∷ ds)
      → length (d ∷ ds) < 64
      → (clienttype % 256) ≢ client_type_ios
      → R.value db (content (d ∷ ds)) ≡ absent
      → (t' : Clients) × (c' : Client) × (db' : R.Db) × (db'' : R.Db) × (read_thread_function
            {R = R} J serverid a i t c
            (idle db)
          ≡ some (done t' (greeting R J serverid a i db ∷ []) 2, idle db'))
        × (place i t' ≡ some c')
        × (c'.drivce_id ≡ d ∷ ds)
        × (c'.fd ≡ c.fd)
        × (get_client_info {R = R} (some (d ∷ ds)) (idle db')
            ≡ some (
              some (connected (peer a c) serverid a.serverip (d ∷ ds) (clienttype % 256) a.time),
              idle db'',
            ))
        × (R.value db' (noread (d ∷ ds)) ≡ R.value db (noread (d ∷ ds)))
  unfolding read_thread_function
  read_thread_function-greets t c at fresh r s h short android v =
      let e = drivce_id-welcome c fresh h (omega arith) in
      let c1 = record c { timeout = a.now } in
      let ct = clienttype % 256 in
      let db' = logged_db R J serverid a i db (welcome c) ct in
      let (db'', found) = found-logged_db R J serverid a i db (welcome c) ct (rw e v) in
      (
        put i (welcome c) (put i c1 t),
        welcome c,
        db',
        db'',
        ap (λ o. on_received {R = R} J serverid a i t c o (idle db)) r ∙ welcome-run t c s short e,
        get_elem?-set_self (put i c1 t).g_clients i (welcome c)
            (omega (arith, length-set t.g_clients i c1, lt_of_get_elem? t.g_clients i c at)),
        e,
        refl,
        subst
            (λ id.
              get_client_info {R = R} (some id) (idle db')
              ≡ some (some (connected (peer a c) serverid a.serverip id ct a.time), idle db''))
            e found,
        subst (λ id. R.value db' (noread id) ≡ R.value db (noread id)) e
            (logged_db-noread R J serverid a i db (welcome c) ct),
      )
