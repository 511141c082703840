-- ===== src/Tests/Table.antt =====
-- A table of two clients, for the theorems on server/server.c.
use push_server.Base.{[], ◌∷◌, none, some, get_elem?, text, refl, arith}
use push_server.Base.Int.{pos}
use push_server.Server.Table.{Client, Clients, init_clients, new_connection, check_time_out}
use push_server.Server.Table.Connections.{IsCounted, came, start, next, Reaches-IsCounted}
use push_server.Server.Table.Timeouts.{IsClosed, check_time_out-due}

abbrev bob : Client
bob = record { fd = some 8; client_id = 0; drivce_id = text "bob"; timeout = 100 }

abbrev gone : Client
gone = record { fd = none; client_id = 1; drivce_id = []; timeout = 0 }

abbrev al : Client
al = record { fd = some 9; client_id = 1; drivce_id = text "al"; timeout = 100 }

-- The second place is free.
abbrev half : Clients
half = record {
  g_clients = bob ∷ gone ∷ [];
  active_socket_connect = 1;
  g_maxi = pos 1;
  epoll = (8, 0) ∷ [];
  forgotten = [];
}

abbrev full : Clients
full = record half {
  g_clients = bob ∷ al ∷ [];
  active_socket_connect = 2;
  epoll = (9, 1) ∷ (8, 0) ∷ [];
}

Reaches-IsCounted_example : IsCounted (new_connection (8 ∷ 9 ∷ 10 ∷ []) (init_clients 2))
Reaches-IsCounted_example =
    Reaches-IsCounted 2 (new_connection (8 ∷ 9 ∷ 10 ∷ []) (init_clients 2))
      (next (start (init_clients 2)) (came (8 ∷ 9 ∷ 10 ∷ []) (init_clients 2)))

check_time_out-due_example : IsClosed (get_elem? (check_time_out 160 60 full).g_clients 0)
check_time_out-due_example = check_time_out-due 160 60 0 full bob (omega arith) refl refl refl refl
