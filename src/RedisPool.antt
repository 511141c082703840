-- ===== src/RedisPool.antt =====
-- server/redis_pool.c: the pool of connections to the database. A worker is leased while its
-- `queue_lock` is held; the list is kept in the order in which the workers were made.
use push_server.Base.{
  ℕ, zero, suc, ◌+◌, ◌*◌, Bool, true, false, List, [], ◌∷◌, ◌++◌, Option, none, some, length,
  get_elem?, set, ltb, ◌==◌, if◌then◌else◌,
}
pub mod Exhausted
pub mod Lease
pub mod Reach
pub mod Wait

pub record Worker : Type 0 where
  pub workid : ℕ
  pub redis : ℕ
  pub locked : Bool

-- `held` is g_redis_lock.
pub record Pool : Type 0 where
  pub queue_head : List Worker
  pub pool_size : ℕ
  pub max_pool_size : ℕ
  pub held : Bool

unfoldable pub create_redis_pool : ℕ → Pool
create_redis_pool max_thr_num = record {
  queue_head = [];
  pool_size = 0;
  max_pool_size = max_thr_num;
  held = false;
}

-- What the system gives to one call: the memory and the locks, the connection (none: it failed),
-- what `work` holds before it is set, and the workers that other threads give back before the
-- attempt at each time `i` of the waiting loop.
pub record Surroundings : Type 0 where
  pub malloc_ok : Bool
  pub connection : Option ℕ
  pub mutex_ok : Bool
  pub cond_ok : Bool
  pub garbage : ℕ
  pub returned : ℕ → List ℕ

-- `given id redis`; `failed` is NULL and the id -1; `unset` is NULL and no id. `waiting` never comes back.
pub data Answer : Type 0 where
  given : ℕ → ℕ → Answer
  failed : Answer
  waiting : Answer

abbrev pub lock : Worker → Worker
lock w = record w { locked = true }

abbrev pub unlock : Worker → Worker
unlock w = record w { locked = false }

-- `returnRedis` on the list: the first worker of that id is unlocked.
unfoldable pub return_worker : ℕ → List Worker → List Worker
return_worker id [] = []
return_worker id (w ∷ ws) =
    let rest = return_worker id ws in if w.workid == id then unlock w ∷ ws else w ∷ rest

unfoldable pub return_redis : ℕ → Pool → Pool
return_redis id p = record p { queue_head = return_worker id p.queue_head }

abbrev pub behind : Worker → Option (Worker × List Worker) → Option (Worker × List Worker)
behind w none = none
behind w (some (v, ws)) = some (v, w ∷ ws)

-- The first scan: `pthread_mutex_trylock` on each worker up to one that is free.
unfoldable pub scan : List Worker → Option (Worker × List Worker)
scan [] = none
scan (w ∷ ws) = let rest = scan ws in if w.locked then behind w rest else some (w, lock w ∷ ws)

abbrev pub return_all : List ℕ → List Worker → List Worker
return_all [] ws = ws
return_all (id ∷ ids) ws = return_all ids (return_worker id ws)

-- `max_time_out`
abbrev pub max_time_out : ℕ
max_time_out = 1000

-- How the waiting loop ends: with a worker, at the end of the time, or not at all.
pub data Waited : Type 0 where
  found : Worker → List Worker → Waited
  timeout : List Worker → Waited
  endless : Waited

-- One turn of the loop: `now` are the workers after what was given back, `later` and `again` how
-- the loop goes on with the next worker and with the first.
abbrev pub attempt : ℕ → ℕ → List Worker → List Worker → Waited → Waited → Option Worker → Waited
attempt i k now ws later again none = if ltb i max_time_out then again else timeout ws
attempt i k now ws later again (some w) = if w.locked then later else found w (set now k (lock w))

-- The waiting loop at time `i`, the worker at place `k` next. The time is looked at only at the
-- end of the list.
unfoldable pub wait : ℕ → (ℕ → List ℕ) → ℕ → ℕ → List Worker → Waited
wait zero returned i k ws = endless
wait (suc n) returned i k ws =
    let now = return_all (returned i) ws in
    let later = wait n returned (i + 10) (suc k) now in
    let again = wait n returned i 0 ws in attempt i k now ws later again (get_elem? now k)

-- Enough for every list but the empty one (`RedisPool.Wait`).
abbrev pub wait_fuel : List Worker → ℕ
wait_fuel ws = 1000 * suc (length ws) + length ws + 2

-- A worker more, at the end of the list.
unfoldable pub new_worker : ℕ → Pool → Pool
new_worker redis p = record p {
  queue_head = p.queue_head ++ record { workid = p.pool_size; redis = redis; locked = true } ∷ [];
  pool_size = suc p.pool_size;
}

-- The lock of the pool is not given back after a time out, and the id of a worker found by
-- waiting is read from `work`, which was never set.
abbrev pub after_wait : Pool → ℕ → Waited → Answer × Pool
after_wait p garbage (found w ws) = (given garbage w.redis, record p { queue_head = ws })
after_wait p garbage (timeout ws) = (failed, record p { queue_head = ws; held = true })
after_wait p garbage endless = (waiting, record p { held = true })

-- A connection for a new worker: the memory, the connection and the two locks are got in turn.
abbrev pub connected : Pool → Bool → Option ℕ → Bool → Bool → Answer × Pool
connected p false c mutex_ok cond_ok = (failed, p)
connected p true none mutex_ok cond_ok = (failed, p)
connected p true (some redis) false cond_ok = (failed, p)
connected p true (some redis) true false = (failed, p)
connected p true (some redis) true true = (given p.pool_size redis, new_worker redis p)

abbrev pub connect : Surroundings → Pool → Answer × Pool
connect e p = connected p e.malloc_ok e.connection e.mutex_ok e.cond_ok

-- What follows the first scan.
abbrev pub serve : Surroundings → Pool → Option (Worker × List Worker) → Answer × Pool
serve e p (some (w, ws)) = (given w.workid w.redis, record p { queue_head = ws })
serve e p none =
    if ltb p.pool_size p.max_pool_size
    then connect e p
    else after_wait p e.garbage (wait (wait_fuel p.queue_head) e.returned 0 0 p.queue_head)

-- `getRedis`. A call that finds the lock of the pool held never comes back if no thread is to
-- release it, which is what `held` means between calls.
unfoldable pub get_redis : Surroundings → Pool → Answer × Pool
get_redis e p = if p.held then (waiting, p) else serve e p (scan p.queue_head)

-- `queue_head` still names the workers, which are freed.
unfoldable pub destroy_redis_pool : Pool → Pool
destroy_redis_pool p = record p { pool_size = 0; max_pool_size = 0 }
