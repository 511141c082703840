-- ===== src/ThreadPool.antt =====
-- server/thread_pool.c: threads that take work from one queue. Each function that holds
-- `queue_lock` is one step here; `take_work` and `finish_work` are the two halves of a turn of
-- `thread_routine`, with the work done in between.
use push_server.Base.{
  ℕ, zero, suc, ◌+◌, ◌-◌, Bool, true, false, ◌&&◌, List, [], ◌∷◌, ◌++◌, Option, none, some,
  replicate, get_elem?, set, length, ltb, leb, if◌then◌else◌,
}
use push_server.Base.Int.{ℤ, pos, negsuc}
pub mod Count
pub mod Invariant
pub mod Order

-- A function and its argument.
pub record Work : Type 0 where
  pub routine : ℕ
  pub arg : ℕ

-- A place of `thr_id`: 0, a thread that waits or works, or one that has ended, which
-- `pthread_kill` answers with ESRCH.
pub data Thread : Type 0 where
  unused : Thread
  idle : Thread
  working : Work → Thread
  ended : Thread

pub record Tpool : Type 0 where
  pub shutdown : Bool
  pub max_thr_num : ℕ
  pub thr_id : List Thread
  pub queue_head : List Work
  pub queue_size : ℕ
  pub now_thread_count : ℕ

abbrev pub max_active_size : ℕ
max_active_size = 32

-- The threads that `tpool_create` starts, whatever `max_thr_num` is.
abbrev pub first_threads : ℕ
first_threads = 10

abbrev pub behind : Thread → Option (List Thread) → Option (List Thread)
behind t none = none
behind t (some ts) = some (t ∷ ts)

-- The first `n` places of the array get a thread; `none` is a write behind its end.
unfoldable pub start_threads : ℕ → List Thread → Option (List Thread)
start_threads zero ts = some ts
start_threads (suc n) [] = none
start_threads (suc n) (t ∷ ts) = behind idle (start_threads n ts)

abbrev pub created : ℕ → Option (List Thread) → Option Tpool
created max_thr_num none = none
created max_thr_num (some ts) = some (record {
  shutdown = false;
  max_thr_num = max_thr_num;
  thr_id = ts;
  queue_head = [];
  queue_size = 0;
  now_thread_count = first_threads;
})

unfoldable pub tpool_create : ℕ → Option Tpool
tpool_create max_thr_num =
    created max_thr_num (start_threads first_threads (replicate max_thr_num unused))

abbrev pub needs_new : Thread → Bool
needs_new unused = true
needs_new ended = true
needs_new idle = false
needs_new (working w) = false

-- The loop that starts one thread, at the first place that has none; `none` if all have one.
unfoldable pub start_one : List Thread → Option (List Thread)
start_one [] = none
start_one (t ∷ ts) = if needs_new t then some (idle ∷ ts) else behind t (start_one ts)

abbrev pub grown : Tpool → Option (List Thread) → Tpool
grown p none = p
grown p (some ts) = record p { thr_id = ts; now_thread_count = suc p.now_thread_count }

-- The work at the end of the queue, and a thread more if the queue is long.
abbrev pub queued : Work → Tpool → Tpool
queued w p = record p { queue_head = p.queue_head ++ w ∷ [] }

unfoldable pub grow : Tpool → Tpool
grow p = if leb max_active_size p.queue_size then grown p (start_one p.thr_id) else p

-- `tpool_add_work`: the size is raised before the routine is looked at.
unfoldable pub tpool_add_work : Option ℕ → ℕ → Tpool → ℤ × Tpool
tpool_add_work none arg p = (negsuc 0, record p { queue_size = suc p.queue_size })
tpool_add_work (some routine) arg p = (
  pos 0,
  grow (
      queued (record { routine = routine; arg = arg })
        (record p { queue_size = suc p.queue_size })),
)

-- The work that thread `i` takes. `none`: the thread is not waiting, or there is nothing to take.
abbrev pub taken : ℕ → Tpool → Option Thread → List Work → Option Tpool
taken i p (some idle) [] =
    if p.shutdown then some (record p { thr_id = set p.thr_id i ended }) else none
taken i p (some idle) (w ∷ ws) =
    if p.shutdown
    then some (record p { thr_id = set p.thr_id i ended })
    else some (record p { thr_id = set p.thr_id i (working w); queue_head = ws })
taken i p (some unused) ws = none
taken i p (some ended) ws = none
taken i p (some (working w)) ws = none
taken i p none ws = none

unfoldable pub take_work : ℕ → Tpool → Option Tpool
take_work i p = taken i p (get_elem? p.thr_id i) p.queue_head

-- The end of a turn: a thread ends if there are more than are needed.
abbrev pub finished : ℕ → Tpool → Option Thread → Option Tpool
finished i p (some (working w)) =
    if ltb (p.queue_size - 1) max_active_size && ltb max_active_size p.now_thread_count
    then some (record p {
      thr_id = set p.thr_id i ended;
      queue_size = p.queue_size - 1;
      now_thread_count = p.now_thread_count - 1;
    })
    else some (record p { thr_id = set p.thr_id i idle; queue_size = p.queue_size - 1 })
finished i p _ = none

unfoldable pub finish_work : ℕ → Tpool → Option Tpool
finish_work i p = finished i p (get_elem? p.thr_id i)

-- What waits in the queue is freed, not done.
unfoldable pub tpool_destroy : Tpool → Tpool
tpool_destroy p =
    if p.shutdown then p else record p { shutdown = true; queue_head = []; thr_id = [] }
