-- ===== src/Server/Loop.antt =====
-- The loop of `main` of server/server.c: what it does with the events that one `epoll_wait` gives.
-- `opt_lock` of a client is taken here and released by the thread that serves the client.
use push_server.Base.{
  ℕ, zero, suc, Bool, true, false, ◌||◌, List, [], ◌∷◌, ◌++◌, Option, none, some, Bytes, length,
  take, text, get_elem?, ltb, ◌==◌, if◌then◌else◌,
}
use push_server.Json.{eq_nocase}
use push_server.ThreadPool.{Tpool, Work, tpool_add_work}
use push_server.Server.Table.{
  Client, Clients, is_open, free_place, connect, new_connection, close_socket,
}
pub mod Batch
pub mod Inputs

-- Where an event is from: the listening socket, with the connections that `accept` gives; the
-- terminal, with the line that is read; or a client, by its place.
pub data Source : Type 0 where
  listener : List ℕ → Source
  terminal : Bytes → Source
  client : ℕ → Source

-- `fails`: EPOLLERR or EPOLLHUP is set, or EPOLLIN is not.
pub record Event : Type 0 where
  pub fails : Bool
  pub source : Source

-- `busy` are the places whose `opt_lock` is held.
pub record Main : Type 0 where
  pub clients : Clients
  pub busy : List ℕ
  pub pool : Tpool

-- `read_thread_function`, as a routine of the pool.
abbrev pub read_thread : ℕ
read_thread = 0

abbrev pub member : ℕ → List ℕ → Bool
member i [] = false
member i (j ∷ js) = j == i || member i js

abbrev pub release : ℕ → List ℕ → List ℕ
release i [] = []
release i (j ∷ js) = let rest = release i js in if j == i then rest else j ∷ rest

-- `pthread_mutex_init` of each place that a connection takes.
unfoldable pub init_locks : List ℕ → Clients → List ℕ → List ℕ
init_locks [] t busy = busy
init_locks (connectfd ∷ fds) t busy =
    init_locks fds (connect connectfd t) (release (free_place t.g_clients) busy)

-- An event that is an error closes the client, whether a thread serves it or not. The value that
-- stands for the listening socket is no client, nor is the place behind the table.
abbrev pub on_error : Main → ℕ → Option Client → Option Main
on_error m i none = none
on_error m i (some c) =
    let t = m.clients in
    some (
      if is_open c
      then record m {
        clients = close_socket i (record t { forgotten = c.drivce_id ∷ t.forgotten });
      }
      else m)

-- A client is handed to the pool if its lock is free, and then holds it; otherwise the event is
-- dropped.
abbrev pub on_input : Main → ℕ → Option Client → Option Main
on_input m i none = none
on_input m i (some c) = some (
    if is_open c
    then (if member i m.busy
        then m
        else record m { busy = i ∷ m.busy; pool = (tpool_add_work (some read_thread) i m.pool).1 })
    else m)

-- `strncasecmp(btf, "quit", 4)`
abbrev pub quits : Bytes → Bool
quits line = eq_nocase (take 4 line) (text "quit")

abbrev pub and_go_on : Option Main → Option (Main × Bool)
and_go_on none = none
and_go_on (some m) = some (m, false)

-- One event, and whether the loop ends with it; none if C leaves open what happens.
unfoldable pub on_event : Main → Bool → Source → Option (Main × Bool)
on_event m true (client i) = and_go_on (on_error m i (get_elem? m.clients.g_clients i))
on_event m true (listener fds) = none
on_event m true (terminal line) = none
on_event m false (listener fds) = some (
  record m { clients = new_connection fds m.clients; busy = init_locks fds m.clients m.busy },
  false,
)
on_event m false (terminal line) = some (m, quits line)
on_event m false (client i) = and_go_on (on_input m i (get_elem? m.clients.g_clients i))

-- `f` on the state that is left, unless the loop has ended.
abbrev pub unless_quit : Option (Main × Bool) → (Main → Option (Main × Bool)) → Option (Main × Bool)
unless_quit none f = none
unless_quit (some (m, true)) f = some (m, true)
unless_quit (some (m, false)) f = f m

unfoldable pub on_events : List Event → Main → Option (Main × Bool)
on_events [] m = some (m, false)
on_events (e ∷ es) m = unless_quit (on_event m e.fails e.source) (on_events es)
