-- ===== src/RedisPool/Reach.antt =====
-- The pool of server/redis_pool.c over a whole run: what holds after any sequence of calls.
use push_server.Base.{
  ℕ, suc, ◌+◌, ◌≤◌, ◌<◌, Bool, true, false, Bool-cases, inl, inr, List, [], ◌∷◌, ◌++◌, Option, none,
  some, length, length-append, ltb, ltb→lt, if◌then◌else◌, ◌≡◌, refl, sym, ◌∙◌, subst, arith,
}
use push_server.RedisPool.{
  Worker, Pool, create_redis_pool, Surroundings, waiting, return_redis, scan, connect, connected,
  serve, new_worker, after_wait, wait, wait_fuel, Waited, found, timeout, endless, get_redis,
}
use push_server.RedisPool.Lease.{
  AreNumbered, return_worker-AreNumbered, length-return_worker, ScanLeases, scan-Leases,
  Leases-AreNumbered, Leases-length,
}
use push_server.RedisPool.Wait.{Ended, wait-ends}

-- `pool_size` counts the workers, their ids are their places, and there are no more than
-- allowed, which is at least one.
pub record IsValid (p : Pool) : Type 0 where
  pub counted : length p.queue_head ≡ p.pool_size
  pub numbered : AreNumbered 0 p.queue_head
  pub bounded : p.pool_size ≤ p.max_pool_size
  pub allowed : 0 < p.max_pool_size

-- The calls of one run.
pub data Step : Pool → Pool → Type 0 where
  got : (e : Surroundings) (p : Pool) → Step p (get_redis e p).1
  gave : (id : ℕ) (p : Pool) → Step p (return_redis id p)

pub data Reaches : Pool → Pool → Type 0 where
  start : (p : Pool) → Reaches p p
  next : {p q r : Pool} → Reaches p q → Step q r → Reaches p r

not-lt : (a b : ℕ) → ltb a b ≡ false → b ≤ a
not-lt a b h = ground arith

append-AreNumbered :
    (k : ℕ) (ws : List Worker) (w : Worker)
    → AreNumbered k ws
    → w.workid ≡ k + length ws
    → AreNumbered k (ws ++ w ∷ [])
append-AreNumbered k [] w v e = (omega arith, tt)
append-AreNumbered k (x ∷ ws) w v e = (v.0, append-AreNumbered (suc k) ws w v.1 (omega arith))

new_worker-IsValid :
    (redis : ℕ) (p : Pool)
    → p.pool_size < p.max_pool_size
    → IsValid p
    → IsValid (new_worker redis p)
unfolding new_worker
new_worker-IsValid redis p h v = record {
  counted = omega (
    arith,
    v.counted,
    length-append p.queue_head (record { workid = p.pool_size; redis = redis; locked = true } ∷ []),
  );
  numbered = append-AreNumbered 0 p.queue_head _ v.numbered (omega (arith, v.counted));
  bounded = omega arith;
  allowed = v.allowed;
}

connected-IsValid :
    (p : Pool) (m : Bool) (c : Option ℕ) (x y : Bool)
    → p.pool_size < p.max_pool_size
    → IsValid p
    → IsValid (connected p m c x y).1
connected-IsValid p false c x y h v = v
connected-IsValid p true none x y h v = v
connected-IsValid p true (some redis) false y h v = v
connected-IsValid p true (some redis) true false h v = v
connected-IsValid p true (some redis) true true h v = new_worker-IsValid redis p h v

after_wait-IsValid :
    (p : Pool) (garbage : ℕ) (r : Waited)
    → Ended (length p.queue_head) r
    → IsValid p
    → IsValid (after_wait p garbage r).1
after_wait-IsValid p garbage (found w ws) e v = record {
  counted = e.0 ∙ v.counted;
  numbered = e.1;
  bounded = v.bounded;
  allowed = v.allowed;
}
after_wait-IsValid p garbage (timeout ws) e v = record {
  counted = e.0 ∙ v.counted;
  numbered = e.1;
  bounded = v.bounded;
  allowed = v.allowed;
}
after_wait-IsValid p garbage endless e v = elim e [ ]

serve-IsValid :
    (e : Surroundings) (p : Pool) (r : Option (Worker × List Worker))
    → ScanLeases p.queue_head r
    → IsValid p
    → IsValid (serve e p r).1
serve-IsValid e p (some (w, ws)) l v = record {
  counted = Leases-length l ∙ v.counted;
  numbered = Leases-AreNumbered 0 l v.numbered;
  bounded = v.bounded;
  allowed = v.allowed;
}
serve-IsValid e p none l v =
    let waited = wait (wait_fuel p.queue_head) e.returned 0 0 p.queue_head in
    let goal = λ (b : Bool). IsValid (if b then connect e p else after_wait p e.garbage waited).1 in
    elim (Bool-cases (ltb p.pool_size p.max_pool_size)) [
      | inl t ↦ subst goal (sym t) (
          connected-IsValid p e.malloc_ok e.connection e.mutex_ok e.cond_ok
            (ltb→lt p.pool_size p.max_pool_size t) v)
      | inr t ↦ subst goal (sym t) (
          after_wait-IsValid p e.garbage waited
            (wait-ends e.returned p.queue_head
              (omega (arith, v.counted, not-lt p.pool_size p.max_pool_size t, v.allowed))
              v.numbered)
            v)
    ]

get_redis-IsValid : (e : Surroundings) (p : Pool) → IsValid p → IsValid (get_redis e p).1
unfolding get_redis
get_redis-IsValid e p v =
    let goal =
      λ (b : Bool). IsValid (if b then (waiting, p) else serve e p (scan p.queue_head)).1 in
    elim (Bool-cases p.held) [
      | inl t ↦ subst goal (sym t) v
      | inr t ↦
          subst goal (sym t) (serve-IsValid e p (scan p.queue_head) (scan-Leases p.queue_head) v)
    ]

return_redis-IsValid : (id : ℕ) (p : Pool) → IsValid p → IsValid (return_redis id p)
unfolding return_redis
return_redis-IsValid id p v = record {
  counted = length-return_worker id p.queue_head ∙ v.counted;
  numbered = return_worker-AreNumbered id 0 p.queue_head v.numbered;
  bounded = v.bounded;
  allowed = v.allowed;
}

Step-IsValid : {p q : Pool} → Step p q → IsValid p → IsValid q
Step-IsValid (got e p) v = get_redis-IsValid e p v
Step-IsValid (gave id p) v = return_redis-IsValid id p v

Reaches-keeps : {p q : Pool} → Reaches p q → IsValid p → IsValid q
Reaches-keeps (start p) v = v
Reaches-keeps (next run s) v = Step-IsValid s (Reaches-keeps run v)

create_redis_pool-IsValid : (n : ℕ) → 0 < n → IsValid (create_redis_pool n)
unfolding create_redis_pool
create_redis_pool-IsValid n h = record {
  counted = refl;
  numbered = tt;
  bounded = omega arith;
  allowed = h;
}

-- A pool that is made for at least one connection stays well formed over any sequence of calls of
-- `getRedis` and `returnRedis`, whatever fails in them: it has as many workers as `pool_size`
-- says, each worker's id is its place in the list, and no more workers than allowed.
pub Reaches-IsValid : (n : ℕ) (p : Pool) → 0 < n → Reaches (create_redis_pool n) p → IsValid p
Reaches-IsValid n p h run = Reaches-keeps run (create_redis_pool-IsValid n h)
