-- ===== src/Tests/Events.antt =====
-- Batches of events, for the theorems on the loop of `main` of server/server.c.
use push_server.Base.{ℕ, true, false, List, [], ◌∷◌, ◌++◌, some, map, text, ◌≡◌, refl}
use push_server.Base.Int.{pos}
use push_server.ThreadPool.{Tpool, idle, unused, grow, tpool_add_work}
use push_server.Server.Table.{
  Client, Clients, close_socket, free_place, seat, connect, new_connection,
}
use push_server.Server.Loop.{
  listener, client, terminal, Event, Main, init_locks, on_event, on_events,
}
use push_server.Server.Loop.Batch.{
  serving, senders, held, AreFree, AreIn, Distinct, on_events-queue_head,
}
use push_server.Server.Loop.Inputs.{AreServed, on_events-AreServed}

abbrev bob : Client
bob = record { fd = some 8; client_id = 0; drivce_id = text "bob"; timeout = 100 }

abbrev al : Client
al = record { fd = some 9; client_id = 1; drivce_id = text "al"; timeout = 100 }

abbrev table : Clients
table = record {
  g_clients = bob ∷ al ∷ [];
  active_socket_connect = 2;
  g_maxi = pos 1;
  epoll = (9, 1) ∷ (8, 0) ∷ [];
  forgotten = [];
}

abbrev empty_pool : Tpool
empty_pool = record {
  shutdown = false;
  max_thr_num = 2;
  thr_id = idle ∷ unused ∷ [];
  queue_head = [];
  queue_size = 0;
  now_thread_count = 1;
}

-- A thread is to serve `al`.
abbrev before : Main
before = record {
  clients = table;
  busy = 1 ∷ [];
  pool = record empty_pool { queue_head = serving 1 ∷ []; queue_size = 1 };
}

abbrev both_served : Main
both_served = record before {
  busy = 0 ∷ 1 ∷ [];
  pool = record empty_pool { queue_head = serving 1 ∷ serving 0 ∷ []; queue_size = 2 };
}

abbrev input : ℕ → Event
input i = record { fails = false; source = client i }

-- `bob` sends twice and `al` once.
abbrev inputs : List Event
inputs = input 0 ∷ input 1 ∷ input 0 ∷ []

on_events-inputs : on_events inputs before ≡ some (both_served, false)
unfolding on_events on_event tpool_add_work grow
on_events-inputs = refl

on_events-queue_head_example :
    (is : List ℕ) × (both_served.pool.queue_head ≡ before.pool.queue_head ++ map serving is)
    × AreFree (1 ∷ []) is
    × Distinct is
    × (both_served.busy ≡ held is (1 ∷ []))
    × AreIn is (senders inputs)
    × (false ≡ false)
on_events-queue_head_example =
    on_events-queue_head inputs before both_served false (tt, (tt, (tt, tt))) on_events-inputs

on_events-AreServed_example :
    (both_served.clients ≡ before.clients) × AreServed before both_served inputs
on_events-AreServed_example =
    on_events-AreServed inputs before both_served false (refl, tt, (refl, tt, (refl, tt, tt)))
      on_events-inputs

-- The line that ends the loop: what follows is left.
quit :
    on_events (record { fails = false; source = terminal (text "QUIT\n") } ∷ inputs) before
    ≡ some (before, true)
unfolding on_events on_event
quit = refl

-- A client that waits to be served fails, and a new one takes its place and sends something: the
-- lock is initialised again, and the place is twice in the queue.
abbrev again : Main
again = record {
  clients = record {
    g_clients = bob ∷ (record al { fd = some 10; drivce_id = [] } ∷ []);
    active_socket_connect = 2;
    g_maxi = pos 1;
    epoll = (10, 1) ∷ (8, 0) ∷ [];
    forgotten = text "al" ∷ [];
  };
  busy = 1 ∷ [];
  pool = record empty_pool { queue_head = serving 1 ∷ serving 1 ∷ []; queue_size = 2 };
}

served_twice :
    on_events
      (record { fails = true; source = client 1 }
        ∷ record { fails = false; source = listener (10 ∷ []) }
        ∷ input 1
        ∷ [])
      before
    ≡ some (again, false)
unfolding on_events on_event tpool_add_work grow close_socket new_connection connect free_place seat
    init_locks
served_twice = refl
