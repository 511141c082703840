-- ===== src/Tests/Pool.antt =====
-- Small pools, for the theorems on server/redis_pool.c.
use push_server.Base.{true, false, [], ◌∷◌, some, ◌≡◌, refl, arith}
use push_server.RedisPool.{
  Worker, Pool, create_redis_pool, Surroundings, given, failed, waiting, lock, return_redis,
  get_redis, wait, wait_fuel,
}
use push_server.RedisPool.Lease.{here, there}
use push_server.RedisPool.Wait.{Ended, wait-ends}
use push_server.RedisPool.Reach.{IsValid, got, gave, start, next, Reaches-IsValid}
use push_server.RedisPool.Exhausted.{get_redis-Leases, get_redis-timeout}

-- All goes well, the connection is number 9, and nothing is given back.
abbrev calm : Surroundings
calm = record {
  malloc_ok = true;
  connection = some 9;
  mutex_ok = true;
  cond_ok = true;
  garbage = 77;
  returned = λ t. [];
}

abbrev busy : Worker
busy = record { workid = 0; redis = 5; locked = true }

abbrev idle : Worker
idle = record { workid = 1; redis = 6; locked = false }

-- Two workers, the second free.
abbrev two : Pool
two = record { queue_head = busy ∷ idle ∷ []; pool_size = 2; max_pool_size = 2; held = false }

two-IsValid : IsValid two
two-IsValid = record {
  counted = refl;
  numbered = (refl, (refl, tt));
  bounded = omega arith;
  allowed = omega arith;
}

-- One worker, which is leased.
abbrev full : Pool
full = record { queue_head = busy ∷ []; pool_size = 1; max_pool_size = 1; held = false }

full-IsValid : IsValid full
full-IsValid = record {
  counted = refl;
  numbered = (refl, tt);
  bounded = omega arith;
  allowed = omega arith;
}

-- A connection is leased and given back.
Reaches-IsValid_example : IsValid (return_redis 0 (get_redis calm (create_redis_pool 2)).1)
Reaches-IsValid_example =
    Reaches-IsValid 2 (return_redis 0 (get_redis calm (create_redis_pool 2)).1) (omega arith) (
      next (next (start (create_redis_pool 2)) (got calm (create_redis_pool 2)))
        (gave 0 (get_redis calm (create_redis_pool 2)).1))

get_redis-Leases_example :
    (get_redis calm two ≡ (given 1 6, record two { queue_head = busy ∷ lock idle ∷ [] }))
    × (return_redis 1 (get_redis calm two).1 ≡ two)
get_redis-Leases_example =
    get_redis-Leases calm two idle (busy ∷ lock idle ∷ []) two-IsValid refl
      (there busy idle (idle ∷ []) (lock idle ∷ []) refl (here idle [] refl))

wait-ends_example : Ended 1 (wait (wait_fuel (busy ∷ [])) (λ t. 0 ∷ []) 0 0 (busy ∷ []))
wait-ends_example = wait-ends (λ t. 0 ∷ []) (busy ∷ []) (omega arith) (refl, tt)

get_redis-timeout_example :
    (get_redis calm full ≡ (failed, record full { held = true }))
    × (get_redis calm (record full { held = true }) ≡ (waiting, record full { held = true }))
get_redis-timeout_example =
    get_redis-timeout calm calm full full-IsValid refl (refl, tt) (omega arith) refl
