-- ===== src/ThreadPool/Count.antt =====
-- The counters of server/thread_pool.c from the creation of a pool on.
use push_server.Base.{
  ℕ, zero, suc, ◌+◌, ◌≤◌, ◌<◌, List, [], ◌∷◌, Option, none, some, length, replicate, ◌≡◌, refl, ap,
  ◌∙◌, arith,
}
use push_server.ThreadPool.{
  Work, Thread, unused, idle, working, ended, Tpool, behind, created, start_threads, first_threads,
  tpool_create,
}
use push_server.ThreadPool.Order.{Runs}
use push_server.ThreadPool.Invariant.{alive, busy, total, nulls, IsValid, IsValid-some, Runs-keeps}

total-replicate : (f : Thread → ℕ) (n : ℕ) → f unused ≡ 0 → total f (replicate n unused) ≡ 0
total-replicate f zero h = refl
total-replicate f (suc n) h = omega (arith, h, total-replicate f n h)

length-replicate : (n : ℕ) → length (replicate n unused) ≡ n
length-replicate zero = refl
length-replicate (suc n) = ap suc (length-replicate n)

-- `n` threads more, of which none works.
abbrev AreStarted : ℕ → List Thread → Option (List Thread) → Type 0
AreStarted n ts none = Unit
AreStarted n ts (some us) =
    (length us ≡ length ts)
    × (total alive us ≡ n + total alive ts)
    × (total busy us ≡ total busy ts)

next-AreStarted :
    (n : ℕ) (ts : List Thread) (o : Option (List Thread))
    → AreStarted n ts o
    → AreStarted (suc n) (unused ∷ ts) (behind idle o)
next-AreStarted n ts none h = tt
next-AreStarted n ts (some us) h = (ap suc h.0, omega (arith, h.1), omega (arith, h.2))

start_threads-AreStarted :
    (n m : ℕ) → AreStarted n (replicate m unused) (start_threads n (replicate m unused))
unfolding start_threads
start_threads-AreStarted zero m = (refl, omega arith, refl)
start_threads-AreStarted (suc n) zero = tt
start_threads-AreStarted (suc n) (suc m) =
    next-AreStarted n (replicate m unused) (start_threads n (replicate m unused))
      (start_threads-AreStarted n m)

created-IsValid :
    (n : ℕ) (o : Option (List Thread)) (p : Tpool)
    → AreStarted first_threads (replicate n unused) o
    → created n o ≡ some p
    → IsValid 0 p
created-IsValid n none p h e = absurd (ground arith)
created-IsValid n (some us) p h e = IsValid-some 0 _ p e (record {
  running = refl;
  places = h.0 ∙ length-replicate n;
  living = omega (arith, h.1, total-replicate alive n refl);
  counted = omega (arith, h.2, total-replicate busy n refl);
})

tpool_create-IsValid : (n : ℕ) (p : Tpool) → tpool_create n ≡ some p → IsValid 0 p
unfolding tpool_create
tpool_create-IsValid n p e =
    created-IsValid n (start_threads first_threads (replicate n unused)) p
      (start_threads-AreStarted first_threads n) e

-- A pool that was created for at least ten threads keeps count over any run in which it is not
-- destroyed: each living thread has a place in the array and `now_thread_count` counts it, and
-- `queue_size` is what waits, what is being done, and one for each call without a routine.
pub Runs-IsValid :
    (n : ℕ) {p q : Tpool} {xs ts : List Work}
    → tpool_create n ≡ some p
    → (run : Runs p xs ts q) → IsValid (nulls run) q
Runs-IsValid n e run = Runs-keeps run (tpool_create-IsValid n _ e)

total-alive : (ts : List Thread) → total alive ts ≤ length ts
total-alive [] = omega arith
total-alive (unused ∷ ts) = omega (arith, total-alive ts)
total-alive (idle ∷ ts) = omega (arith, total-alive ts)
total-alive (working w ∷ ts) = omega (arith, total-alive ts)
total-alive (ended ∷ ts) = omega (arith, total-alive ts)

-- Over any run of a pool that was created, `now_thread_count` is never more than the pool's
-- `max_thr_num`.
pub Runs-bounded :
    (n : ℕ) {p q : Tpool} {xs ts : List Work}
    → tpool_create n ≡ some p
    → Runs p xs ts q
    → q.now_thread_count ≤ q.max_thr_num
Runs-bounded n {q} e run =
    let v = Runs-IsValid n e run in omega (arith, v.living, v.places, total-alive q.thr_id)

start_threads-short : (n m : ℕ) → m < n → start_threads n (replicate m unused) ≡ none
unfolding start_threads
start_threads-short zero m h = absurd (omega arith)
start_threads-short (suc n) zero h = refl
start_threads-short (suc n) (suc m) h = ap (behind idle) (start_threads-short n m (omega arith))

-- A pool for fewer than ten threads is not created: ten are started, and the array is shorter.
pub tpool_create-none : (n : ℕ) → n < first_threads → tpool_create n ≡ none
unfolding tpool_create
tpool_create-none n h = ap (created n) (start_threads-short first_threads n h)
