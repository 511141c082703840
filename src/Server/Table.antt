-- ===== src/Server/Table.antt =====
-- The table of clients of server/server.c: `g_clients`, `active_socket_connect`, `g_maxi` and what
-- epoll has been told. `new_connection` runs on the connections that `accept` gives it.
use push_server.Base.{
  ℕ, zero, suc, ◌+◌, ◌-◌, Bool, true, false, List, [], ◌∷◌, ◌++◌, Option, none, some, Bytes, length,
  get_elem?, set, ltb, leb, ◌==◌, if◌then◌else◌,
}
use push_server.Base.Int.{ℤ, pos, negsuc}
pub mod Connections
pub mod Timeouts

-- `fd` is none for -1.
pub record Client : Type 0 where
  pub fd : Option ℕ
  pub client_id : ℕ
  pub drivce_id : Bytes
  pub timeout : ℕ

-- `epoll` are the sockets that are watched, with the place that each reports; `forgotten` are the
-- device ids that `removeClient` was called with.
pub record Clients : Type 0 where
  pub g_clients : List Client
  pub active_socket_connect : ℕ
  pub g_maxi : ℤ
  pub epoll : List (ℕ × ℕ)
  pub forgotten : List Bytes

-- MAX_CONNECTION_LENGTH
abbrev pub max_connection_length : ℕ
max_connection_length = 102400

abbrev pub unused_from : ℕ → ℕ → List Client
unused_from i zero = []
unused_from i (suc n) =
    record { fd = none; client_id = i; drivce_id = []; timeout = 0 } ∷ unused_from (suc i) n

-- The start of `main`, for a table of `n` places.
unfoldable pub init_clients : ℕ → Clients
init_clients n = record {
  g_clients = unused_from 0 n;
  active_socket_connect = 0;
  g_maxi = negsuc 0;
  epoll = [];
  forgotten = [];
}

abbrev pub is_open : Client → Bool
is_open c = elim c.fd [ none ↦ false | some fd ↦ true ]

-- The first place without a socket; the length of the table if there is none.
unfoldable pub free_place : List Client → ℕ
free_place [] = 0
free_place (c ∷ cs) = let rest = free_place cs in if is_open c then suc rest else 0

-- The socket is stored there.
unfoldable pub seat : ℕ → List Client → List Client
seat connectfd [] = []
seat connectfd (c ∷ cs) =
    let rest = seat connectfd cs in
    if is_open c then c ∷ rest else (record c { fd = some connectfd } ∷ cs)

-- i > g_maxi
abbrev pub above : ℕ → ℤ → Bool
above i (pos m) = ltb m i
above i (negsuc m) = true

-- One turn of the loop of `new_connection`. The socket is registered even if no place was found,
-- and `g_maxi` then is the length of the table.
unfoldable pub connect : ℕ → Clients → Clients
connect connectfd t =
    let i = free_place t.g_clients in
    record t {
      g_clients = seat connectfd t.g_clients;
      active_socket_connect =
          if ltb i (length t.g_clients)
          then suc t.active_socket_connect
          else t.active_socket_connect;
      g_maxi = if above i t.g_maxi then pos i else t.g_maxi;
      epoll = (connectfd, i) ∷ t.epoll;
    }

unfoldable pub new_connection : List ℕ → Clients → Clients
new_connection [] t = t
new_connection (connectfd ∷ fds) t = new_connection fds (connect connectfd t)

abbrev pub unwatch : Option ℕ → List (ℕ × ℕ) → List (ℕ × ℕ)
unwatch none ws = ws
unwatch (some fd) [] = []
unwatch (some fd) (w ∷ ws) = let rest = unwatch (some fd) ws in if w.0 == fd then rest else w ∷ rest

-- The device id is cleared only while another client is counted.
abbrev pub closed : Bool → Client → Client
closed others c = record c { fd = none; drivce_id = if others then [] else c.drivce_id }

-- `close_socket` for the client at place `i`.
abbrev pub close_at : ℕ → Clients → Option Client → Clients
close_at i t none = t
close_at i t (some c) = if ltb t.active_socket_connect 1 then t else record t {
  g_clients = set t.g_clients i (closed (leb 2 t.active_socket_connect) c);
  active_socket_connect = t.active_socket_connect - 1;
  epoll = unwatch c.fd t.epoll;
}

unfoldable pub close_socket : ℕ → Clients → Clients
close_socket i t = close_at i t (get_elem? t.g_clients i)

-- One client in `check_time_out_thread`: whether it has a socket, and whether its time is up.
abbrev pub check : ℕ → Client → Clients → Bool → Bool → Clients
check i c t true true = close_socket i (record t { forgotten = c.drivce_id ∷ t.forgotten })
check i c t true false = t
check i c t false due = t

abbrev pub check_at : ℕ → ℕ → ℕ → Clients → Option Client → Clients
check_at now limit i t none = t
check_at now limit i t (some c) = check i c t (is_open c) (now == c.timeout + limit)

-- The loop over `n` places from `i` on.
unfoldable pub check_from : ℕ → ℕ → ℕ → ℕ → Clients → Clients
check_from now limit zero i t = t
check_from now limit (suc n) i t =
    check_from now limit n (suc i) (check_at now limit i t (get_elem? t.g_clients i))

abbrev pub places_below : ℤ → ℕ
places_below (pos m) = m
places_below (negsuc m) = 0

-- A pass of `check_time_out_thread`, with `g_maxi` as it is when the pass begins.
unfoldable pub check_time_out : ℕ → ℕ → Clients → Clients
check_time_out now limit t = check_from now limit (places_below t.g_maxi) 0 t
