-- ===== src/Server/Dispatch/Closing.antt =====
-- How `read_thread_function` of server/server.c lets go of a client that says goodbye, says what the
-- server does not know, or cannot be read from any more.
use push_server.Base.{
  ℕ, ◌<◌, true, [], ◌∷◌, Option, none, some, Bytes, length, get_elem?-set_self, leb, ◌≡◌, refl, ap,
  ◌∙◌, arith, ◌⊎◌, inl, inr,
}
use push_server.Json.{JsonLibrary}
use push_server.Redis.{Redis}
use push_server.Redis.Conn.{pure, idle, exec_all, ◌>>=◌}
use push_server.MessageStorage.Keys.{content}
use push_server.MessageStorage.Lookup.{lookups, get_client_info-client_at}
use push_server.MessageStorage.Presence.{logout_commands, value-logout}
use push_server.MessageStorage.{get_client_info, remove_client}
use push_server.ParseCommand.Header.{parse_client_header}
use push_server.Redis.Values.{absent}
use push_server.Server.Table.{Client, Clients, is_open, closed, close_at, close_socket, unwatch}
use push_server.Server.Table.Connections.{IsCounted, count, connected-set, close_at-active}
use push_server.Server.Table.Timeouts.{place}
use push_server.Server.Dispatch.{
  Arrival, done, bye, unknown, request, peer, put, close_client, on_request, on_received,
  read_thread_function,
}
use push_server.Server.Dispatch.Held.{IsHeld, lt_of_get_elem?, put-IsHeld}

-- `recv` fails, or the command is COMMAND_BYE or none that the server knows.
abbrev pub Leaves : Option Bytes → Type 0
Leaves none = Unit
Leaves (some buf) =
    (request (parse_client_header buf).0.command ≡ bye)
    ⊎ (request (parse_client_header buf).0.command ≡ unknown)

-- The client at place `i` has no socket in `t`, and the socket that it had in `t0` is not watched.
abbrev pub IsGone : ℕ → Client → Clients → Clients → Type 0
IsGone i c t0 t =
    (c' : Client) × (place i t ≡ some c') × (c'.fd ≡ none) × (t.epoll ≡ unwatch c.fd t0.epoll)

module _ (i : ℕ) (t0 t : Clients) (c : Client) (h : IsHeld i t0 t c) where
  close_socket-IsGone : IsGone i c t (close_socket i t)
  unfolding close_socket
  close_socket-IsGone =
      let c' = closed (leb 2 t.active_socket_connect) c in
      let one : count (is_open c) ≡ 1 = ap count h.open_ in
      let shut = connected-set t.g_clients i c c' h.at in
      let some_open : 0 < t.active_socket_connect = omega (arith, h.counted, one, shut) in
      let e : close_at i t (place i t) ≡ _ =
        ap (close_at i t) h.at ∙ close_at-active i t c some_open in
      (
        c',
        ap (place i) e ∙ get_elem?-set_self t.g_clients i c' (lt_of_get_elem? t.g_clients i c h.at),
        refl,
        ap (λ (u : Clients). u.epoll) e,
      )

module _ (R : Redis) (J : JsonLibrary) (serverid : ℕ) (a : Arrival) (i d : ℕ) (ds : Bytes)
    (db : R.Db) where
  -- Redis after the device with the id `d ∷ ds` was removed.
  abbrev gone_db : Client → R.Db
  gone_db c = exec_all R (logout_commands R d ds (peer a c) db) db

  close_client-run :
      (t : Clients) (c : Client) (unlocks : ℕ)
      → c.drivce_id ≡ d ∷ ds
      → close_client {R = R} J serverid a i t c [] unlocks (idle db)
        ≡ some (done (close_socket i t) [] unlocks, idle (gone_db c))
  unfolding remove_client
  close_client-run t c unlocks e =
      ap
        (λ id.
          (remove_client {R = R} (some (id, peer a c)) >>= λ _.
          pure (done (close_socket i t) [] unlocks))
            (idle db))
        e

  -- How the thread ends.
  abbrev pub Closes : Clients → Client → Type 0
  Closes t c =
      (t' : Clients) × (unlocks : ℕ) × (db' : R.Db) × (db'' : R.Db) × (read_thread_function {R = R}
          J serverid a i t c (idle db)
        ≡ some (done t' [] unlocks, idle db'))
      × IsGone i c t t'
      × (get_client_info {R = R} (some (d ∷ ds)) (idle db') ≡ some (none, idle db''))

  forgotten :
      (c : Client)
      → get_client_info {R = R} (some (d ∷ ds)) (idle (gone_db c))
        ≡ some (none, idle (exec_all R (lookups (content (d ∷ ds)) absent) (gone_db c)))
  forgotten c =
      let v = value-logout R d ds (peer a c) db in
      get_client_info-client_at R (d ∷ ds) (gone_db c) (rw v tt) ∙ rw v refl

  let_go :
      (t : Clients) (c : Client) (received : Option Bytes)
      → IsHeld i t t c
      → c.drivce_id ≡ d ∷ ds
      → Leaves received
      → a.received ≡ received
      → Closes t c
  unfolding read_thread_function
  let_go t c none h e l r = (
    close_socket i t,
    2,
    gone_db c,
    exec_all R (lookups (content (d ∷ ds)) absent) (gone_db c),
    ap (λ o. on_received {R = R} J serverid a i t c o (idle db)) r ∙ close_client-run t c 2 e,
    close_socket-IsGone i t t c h,
    forgotten c,
  )
  let_go t c (some buf) h e l r =
      let p = parse_client_header buf in
      let c' = record c { timeout = a.now } in
      let goodbye : on_received {R = R} J serverid a i t c (some buf) (idle db)
          ≡ close_client J serverid a i (put i c' t) c' [] 1 (idle db) =
        elim l [
          | inl b ↦
              ap
                (λ q.
                  on_request {R = R} J serverid a i q p.1 (length buf) p.0 (put i c' t) c'
                    (idle db))
                b
          | inr u ↦
              ap
                (λ q.
                  on_request {R = R} J serverid a i q p.1 (length buf) p.0 (put i c' t) c'
                    (idle db))
                u
        ] in
      (
        close_socket i (put i c' t),
        1,
        gone_db c',
        exec_all R (lookups (content (d ∷ ds)) absent) (gone_db c'),
        ap (λ o. on_received {R = R} J serverid a i t c o (idle db)) r
            ∙ goodbye
            ∙ close_client-run (put i c' t) c' 1 e,
        close_socket-IsGone i t (put i c' t) c' (put-IsHeld i t t c h c' refl),
        forgotten c',
      )

  -- A client with a socket and a device id that says goodbye, sends a command that the server does
  -- not know, or cannot be read from, is let go: the thread comes to its end with nothing sent and
  -- every reply of Redis read, the client's place has no socket, its socket is not watched any
  -- more, and its device is not found as connected. The count of clients is right when it starts.
  pub read_thread_function-Closes :
      (t : Clients) (c : Client)
      → place i t ≡ some c
      → is_open c ≡ true
      → IsCounted t
      → c.drivce_id ≡ d ∷ ds
      → Leaves a.received
      → Closes t c
  read_thread_function-Closes t c at o v e l =
      let_go t c a.received (record { at = at; open_ = o; counted = v; others = λ j n. refl }) e l
        refl
