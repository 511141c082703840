-- ===== src/Tests/Threads.antt =====
-- A pool of ten threads, for the theorems on server/thread_pool.c.
use push_server.Base.{false, [], ◌∷◌, ◌++◌, replicate, set, ◌≡◌, refl}
use push_server.ThreadPool.{
  Work, idle, working, Tpool, start_threads, tpool_create, tpool_add_work, grow, take_work,
}
use push_server.ThreadPool.Order.{Runs, begin, add, add_null, take, Runs-queue_head}
use push_server.ThreadPool.Invariant.{IsValid, nulls}
use push_server.ThreadPool.Count.{Runs-IsValid}

abbrev ten : Tpool
ten = record {
  shutdown = false;
  max_thr_num = 10;
  thr_id = replicate 10 idle;
  queue_head = [];
  queue_size = 0;
  now_thread_count = 10;
}

abbrev job : Work
job = record { routine = 1; arg = 2 }

-- A call without a routine, then a job that the second thread takes.
abbrev waits : Tpool
waits = record ten { queue_head = job ∷ []; queue_size = 2 }

abbrev works : Tpool
works = record ten { thr_id = set (replicate 10 idle) 1 (working job); queue_size = 2 }

run : Runs ten (job ∷ []) (job ∷ []) works
unfolding tpool_add_work take_work grow
run = take 1 job (add 1 2 (add_null 0 (begin ten))) refl refl

Runs-queue_head_example : [] ++ job ∷ [] ≡ (job ∷ []) ++ []
Runs-queue_head_example = Runs-queue_head run

Runs-IsValid_example : IsValid (nulls run) works
unfolding tpool_create start_threads
Runs-IsValid_example = Runs-IsValid 10 refl run
