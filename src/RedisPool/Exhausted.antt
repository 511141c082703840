-- ===== src/RedisPool/Exhausted.antt =====
-- A pool of server/redis_pool.c with a free worker, and one with none.
use push_server.Base.{
  ℕ, zero, suc, ◌+◌, ◌≤◌, ◌<◌, Bool, true, false, Bool-cases, inl, inr, List, [], ◌∷◌, Option, none,
  some, Option-cases, length, get_elem?, ltb, if◌then◌else◌, ◌≡◌, ◌⊎◌, refl, sym, ap, ◌∙◌, subst,
  arith,
}
use push_server.RedisPool.{
  Worker, Pool, Surroundings, given, failed, waiting, lock, return_redis, behind, scan, serve,
  after_wait, wait, wait_fuel, attempt, max_time_out, Waited, found, timeout, endless, get_redis,
}
use push_server.RedisPool.Lease.{AreNumbered, Leases, here, there, AllLocked, return_worker-Leases}
use push_server.RedisPool.Wait.{Ended, wait-ends}
use push_server.RedisPool.Reach.{IsValid}

Leases-scan : {ws vs : List Worker} {w : Worker} → Leases ws w vs → scan ws ≡ some (w, vs)
unfolding scan
Leases-scan (here w ws e) =
    subst
      (λ (b : Bool).
        (if b then behind w (scan ws) else some (w, lock w ∷ ws)) ≡ some (w, lock w ∷ ws))
      (sym e) refl
Leases-scan (there v w ws vs e l) =
    subst
      (λ (b : Bool). (if b then behind v (scan ws) else some (v, lock v ∷ ws)) ≡ some (w, v ∷ vs))
      (sym e) (ap (behind v) (Leases-scan l))

-- A pool that is well formed, whose lock is free and which has a free worker leases the first
-- such worker, which is locked from then on, and changes nothing else; giving that worker back
-- restores the pool.
pub get_redis-Leases :
    (e : Surroundings) (p : Pool) (w : Worker) (vs : List Worker)
    → IsValid p
    → p.held ≡ false
    → Leases p.queue_head w vs
    → (get_redis e p ≡ (given w.workid w.redis, record p { queue_head = vs }))
      × (return_redis w.workid (get_redis e p).1 ≡ p)
unfolding get_redis return_redis
get_redis-Leases e p w vs v free l =
    let got : get_redis e p ≡ (given w.workid w.redis, record p { queue_head = vs }) =
      subst
        (λ (b : Bool).
          (if b then (waiting, p) else serve e p (scan p.queue_head))
          ≡ (given w.workid w.redis, record p { queue_head = vs }))
        (sym free) (ap (serve e p) (Leases-scan l)) in
    (
      got,
      ap (λ r. return_redis w.workid r.1) got
          ∙ ap (λ ws. record p { queue_head = ws }) (return_worker-Leases 0 l v.numbered),
    )

AllLocked-scan : (ws : List Worker) → AllLocked ws → scan ws ≡ none
unfolding scan
AllLocked-scan [] a = refl
AllLocked-scan (w ∷ ws) a =
    subst (λ (b : Bool). (if b then behind w (scan ws) else some (w, lock w ∷ ws)) ≡ none) (sym a.0)
      (ap (behind w) (AllLocked-scan ws a.1))

lt-false : (a b : ℕ) → b ≤ a → ltb a b ≡ false
lt-false a b h = ground arith

-- A pool whose workers are all leased and that may not grow waits.
get_redis-waits :
    (e : Surroundings) (p : Pool)
    → p.held ≡ false
    → AllLocked p.queue_head
    → p.max_pool_size ≤ p.pool_size
    → get_redis e p
      ≡ after_wait p e.garbage (wait (wait_fuel p.queue_head) e.returned 0 0 p.queue_head)
unfolding get_redis
get_redis-waits e p free a full =
    subst
      (λ (b : Bool).
        (if b then (waiting, p) else serve e p (scan p.queue_head))
        ≡ after_wait p e.garbage (wait (wait_fuel p.queue_head) e.returned 0 0 p.queue_head))
      (sym free)
      (ap (serve e p) (AllLocked-scan p.queue_head a)
        ∙ rw (lt-false p.pool_size p.max_pool_size full) refl)

same : (x w : Worker) → some x ≡ some w → x.locked ≡ true → w.locked ≡ true
same x w e h = cc

get_locked :
    (ws : List Worker) (k : ℕ) (w : Worker)
    → AllLocked ws
    → get_elem? ws k ≡ some w
    → w.locked ≡ true
get_locked [] k w a e = ground arith
get_locked (x ∷ ws) zero w a e = same x w e a.0
get_locked (x ∷ ws) (suc k) w a e = get_locked ws k w a.1 e

-- If nothing is given back, nothing is found.
wait-AllLocked :
    (n i k : ℕ) (ws : List Worker)
    → AllLocked ws
    → (wait n (λ t. []) i k ws ≡ timeout ws) ⊎ (wait n (λ t. []) i k ws ≡ endless)
unfolding wait
wait-AllLocked zero i k ws a = inr refl
wait-AllLocked (suc n) i k ws a =
    let later = wait n (λ t. []) (i + 10) (suc k) ws in
    let again = wait n (λ t. []) i 0 ws in
    let is = λ (r : Waited). (r ≡ timeout ws) ⊎ (r ≡ endless) in
    elim (Option-cases (get_elem? ws k)) [
      | inl e ↦
          subst (λ (o : Option Worker). is (attempt i k ws ws later again o)) (sym e)
            (elim (Bool-cases (ltb i max_time_out)) [
              | inl t ↦ rw t (wait-AllLocked n i 0 ws a)
              | inr t ↦ rw t (inl refl)
            ])
      | inr (w, e) ↦
          subst (λ (o : Option Worker). is (attempt i k ws ws later again o)) (sym e)
            (rw (get_locked ws k w a e) (wait-AllLocked n (i + 10) (suc k) ws a))
    ]

waits-timeout :
    (ws : List Worker)
    → 0 < length ws
    → AreNumbered 0 ws
    → AllLocked ws
    → wait (wait_fuel ws) (λ t. []) 0 0 ws ≡ timeout ws
waits-timeout ws z v a = elim (wait-AllLocked (wait_fuel ws) 0 0 ws a) [
  | inl e ↦ e
  | inr e ↦ absurd (subst (Ended (length ws)) e (wait-ends (λ t. []) ws z v))
]

answer :
    (p : Pool) (garbage : ℕ) (r : Waited) (n : ℕ)
    → Ended n r
    → ((redis : ℕ) × ((after_wait p garbage r).0 ≡ given garbage redis))
      ⊎ ((after_wait p garbage r).0 ≡ failed)
answer p garbage (found w ws) n e = inl (w.redis, refl)
answer p garbage (timeout ws) n e = inr refl
answer p garbage endless n e = elim e [ ]

-- A well-formed pool that has as many workers as allowed, all leased, and to which nobody gives
-- one back in time, answers with no connection and keeps its own lock: from then on every call
-- waits for that lock.
pub get_redis-timeout :
    (e d : Surroundings) (p : Pool)
    → IsValid p
    → p.held ≡ false
    → AllLocked p.queue_head
    → p.max_pool_size ≤ p.pool_size
    → (λ t. []) ≡ e.returned
    → let q = record p { held = true } in
      (get_redis e p ≡ (failed, q)) × (get_redis d q ≡ (waiting, q))
unfolding get_redis
get_redis-timeout e d p v free a full none_back =
    let ws = p.queue_head in
    let late = waits-timeout ws (omega (arith, v.counted, v.allowed)) v.numbered a in
    let outcome = λ (r : ℕ → List ℕ). wait (wait_fuel ws) r 0 0 ws ≡ timeout ws in
    (
      get_redis-waits e p free a full ∙ ap (after_wait p e.garbage) (subst outcome none_back late),
      refl,
    )

-- A well-formed pool that has as many workers as allowed, all leased, answers with a failure, or
-- with an id that is what an uninitialised variable held, whatever is given back meanwhile.
pub get_redis-garbage :
    (e : Surroundings) (p : Pool)
    → IsValid p
    → p.held ≡ false
    → AllLocked p.queue_head
    → p.max_pool_size ≤ p.pool_size
    → ((redis : ℕ) × ((get_redis e p).0 ≡ given e.garbage redis)) ⊎ ((get_redis e p).0 ≡ failed)
get_redis-garbage e p v free a full =
    let r = wait (wait_fuel p.queue_head) e.returned 0 0 p.queue_head in
    let ended =
      wait-ends e.returned p.queue_head (omega (arith, v.counted, v.allowed)) v.numbered in
    rw (get_redis-waits e p free a full) (answer p e.garbage r (length p.queue_head) ended)
