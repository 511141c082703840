-- ===== src/ThreadPool/Invariant.antt =====
-- The counters of server/thread_pool.c: what `queue_size` and `now_thread_count` count.
use push_server.Base.{
  ℕ, zero, suc, ◌+◌, ◌-◌, Bool, true, false, ◌&&◌, Bool-cases, inl, inr, List, [], ◌∷◌, Option,
  none, some, length, length-append, length-set, get_elem?, set, ltb, leb, if◌then◌else◌, ◌≡◌, refl,
  ap, ◌∙◌, subst, arith,
}
use push_server.ThreadPool.{
  Work, Thread, unused, idle, working, ended, Tpool, max_active_size, behind, start_one, grown,
  queued, grow, tpool_add_work, taken, take_work, finished, finish_work,
}
use push_server.ThreadPool.Order.{Runs, begin, add, add_null, take, finish, take_work-queue_head}

abbrev pub alive : Thread → ℕ
alive unused = 0
alive idle = 1
alive (working w) = 1
alive ended = 0

abbrev pub busy : Thread → ℕ
busy unused = 0
busy idle = 0
busy (working w) = 1
busy ended = 0

abbrev pub total : (Thread → ℕ) → List Thread → ℕ
total f [] = 0
total f (t ∷ ts) = f t + total f ts

-- One place changes.
total-set :
    (f : Thread → ℕ) (ts : List Thread) (i : ℕ) (t u : Thread)
    → get_elem? ts i ≡ some t
    → total f (set ts i u) + f t ≡ total f ts + f u
total-set f [] i t u e = ground arith
total-set f (x ∷ ts) zero t u e = let g : f x ≡ f t = cc in omega arith
total-set f (x ∷ ts) (suc i) t u e = omega (arith, total-set f ts i t u e)

-- How many calls of `tpool_add_work` had no routine.
pub nulls : {p q : Tpool} {xs ts : List Work} → Runs p xs ts q → ℕ
nulls (begin p) = 0
nulls (add routine arg run) = nulls run
nulls (add_null arg run) = suc (nulls run)
nulls (take i w run e g) = nulls run
nulls (finish i run e) = nulls run

-- Every thread that lives is counted, and there are no more threads than places; `queue_size` is
-- what waits, what is being done, and the calls without a routine, which nobody takes off again.
pub record IsValid (n : ℕ) (p : Tpool) : Type 0 where
  pub running : p.shutdown ≡ false
  pub places : length p.thr_id ≡ p.max_thr_num
  pub living : total alive p.thr_id ≡ p.now_thread_count
  pub counted : p.queue_size ≡ length p.queue_head + total busy p.thr_id + n

-- One more thread lives, and nothing else changes.
abbrev IsStarted : List Thread → Option (List Thread) → Type 0
IsStarted ts none = Unit
IsStarted ts (some us) =
    (length us ≡ length ts)
    × (total alive us ≡ suc (total alive ts))
    × (total busy us ≡ total busy ts)

behind-IsStarted :
    (t : Thread) (ts : List Thread) (o : Option (List Thread))
    → IsStarted ts o
    → IsStarted (t ∷ ts) (behind t o)
behind-IsStarted t ts none h = tt
behind-IsStarted t ts (some us) h = (ap suc h.0, omega (arith, h.1), omega (arith, h.2))

start_one-IsStarted : (ts : List Thread) → IsStarted ts (start_one ts)
unfolding start_one
start_one-IsStarted [] = tt
start_one-IsStarted (unused ∷ ts) = (refl, omega arith, refl)
start_one-IsStarted (ended ∷ ts) = (refl, omega arith, refl)
start_one-IsStarted (idle ∷ ts) = behind-IsStarted idle ts (start_one ts) (start_one-IsStarted ts)
start_one-IsStarted (working w ∷ ts) =
    behind-IsStarted (working w) ts (start_one ts) (start_one-IsStarted ts)

grown-IsValid :
    (n : ℕ) (p : Tpool) (o : Option (List Thread))
    → IsStarted p.thr_id o
    → IsValid n p
    → IsValid n (grown p o)
grown-IsValid n p none h v = v
grown-IsValid n p (some us) h v = record {
  running = v.running;
  places = h.0 ∙ v.places;
  living = omega (arith, h.1, v.living);
  counted = omega (arith, h.2, v.counted);
}

grow-IsValid : (n : ℕ) (p : Tpool) → IsValid n p → IsValid n (grow p)
unfolding grow
grow-IsValid n p v = elim (Bool-cases (leb max_active_size p.queue_size)) [
  | inl t ↦ rw t (grown-IsValid n p (start_one p.thr_id) (start_one-IsStarted p.thr_id) v)
  | inr t ↦ rw t v
]

queued-IsValid :
    (n : ℕ) (w : Work) (p : Tpool)
    → IsValid n p
    → IsValid n (queued w (record p { queue_size = suc p.queue_size }))
queued-IsValid n w p v = record {
  running = v.running;
  places = v.places;
  living = v.living;
  counted = omega (arith, v.counted, length-append p.queue_head (w ∷ []));
}

pub IsValid-some : (n : ℕ) (a r : Tpool) → some a ≡ some r → IsValid n a → IsValid n r
IsValid-some n a r e v = let same : a ≡ r = cc in subst (IsValid n) same v

IsValid-if :
    (n : ℕ) (b : Bool) (a c r : Tpool)
    → (if b then some a else some c) ≡ some r
    → IsValid n a
    → IsValid n c
    → IsValid n r
IsValid-if n true a c r e v w = IsValid-some n a r e v
IsValid-if n false a c r e v w = IsValid-some n c r e w

taken-IsValid :
    (n i : ℕ) (p r : Tpool) (o : Option Thread) (w : Work) (ws : List Work)
    → get_elem? p.thr_id i ≡ o
    → p.queue_head ≡ w ∷ ws
    → taken i p o (w ∷ ws) ≡ some r
    → IsValid n p
    → IsValid n r
taken-IsValid n i p r (some idle) w ws g h e v =
    let at = λ (b : Bool).
      (if b
        then some (record p { thr_id = set p.thr_id i ended })
        else some (record p { thr_id = set p.thr_id i (working w); queue_head = ws }))
      ≡ some r in
    IsValid-some n (record p { thr_id = set p.thr_id i (working w); queue_head = ws }) r
      (subst at v.running e)
      (record {
        running = v.running;
        places = length-set p.thr_id i (working w) ∙ v.places;
        living = omega (arith, v.living, total-set alive p.thr_id i idle (working w) g);
        counted =
            omega (arith, v.counted, ap length h, total-set busy p.thr_id i idle (working w) g);
      })
taken-IsValid n i p r (some unused) w ws g h e v = absurd (ground arith)
taken-IsValid n i p r (some ended) w ws g h e v = absurd (ground arith)
taken-IsValid n i p r (some (working x)) w ws g h e v = absurd (ground arith)
taken-IsValid n i p r none w ws g h e v = absurd (ground arith)

finished-IsValid :
    (n i : ℕ) (p r : Tpool) (o : Option Thread)
    → get_elem? p.thr_id i ≡ o
    → finished i p o ≡ some r
    → IsValid n p
    → IsValid n r
finished-IsValid n i p r (some (working w)) g e v =
    let alive_set = λ (t : Thread). total-set alive p.thr_id i (working w) t g in
    let busy_set = λ (t : Thread). total-set busy p.thr_id i (working w) t g in
    IsValid-if n (ltb (p.queue_size - 1) max_active_size && ltb max_active_size p.now_thread_count)
      (record p {
        thr_id = set p.thr_id i ended;
        queue_size = p.queue_size - 1;
        now_thread_count = p.now_thread_count - 1;
      })
      (record p { thr_id = set p.thr_id i idle; queue_size = p.queue_size - 1 }) r e
      (record {
        running = v.running;
        places = length-set p.thr_id i ended ∙ v.places;
        living = omega (arith, v.living, alive_set ended);
        counted = omega (arith, v.counted, busy_set ended);
      })
      (record {
        running = v.running;
        places = length-set p.thr_id i idle ∙ v.places;
        living = omega (arith, v.living, alive_set idle);
        counted = omega (arith, v.counted, busy_set idle);
      })
finished-IsValid n i p r (some unused) g e v = absurd (ground arith)
finished-IsValid n i p r (some idle) g e v = absurd (ground arith)
finished-IsValid n i p r (some ended) g e v = absurd (ground arith)
finished-IsValid n i p r none g e v = absurd (ground arith)

pub Runs-keeps :
    {p q : Tpool} {xs ts : List Work} (run : Runs p xs ts q) → IsValid 0 p → IsValid (nulls run) q
unfolding nulls tpool_add_work take_work finish_work
Runs-keeps (begin p) v = v
Runs-keeps (add {q} routine arg run) v =
    let w : Work = record { routine = routine; arg = arg } in
    grow-IsValid (nulls run) _ (queued-IsValid (nulls run) w q (Runs-keeps run v))
Runs-keeps (add_null arg run) v =
    let old = Runs-keeps run v in
    record {
      running = old.running;
      places = old.places;
      living = old.living;
      counted = omega (arith, old.counted);
    }
Runs-keeps (take {q} {r} i w run e g) v =
    let h = take_work-queue_head i q r w e g in
    taken-IsValid (nulls run) i q r (get_elem? q.thr_id i) w r.queue_head refl h
      (subst (λ (l : List Work). taken i q (get_elem? q.thr_id i) l ≡ some r) h e)
      (Runs-keeps run v)
Runs-keeps (finish {q} {r} i run e) v =
    finished-IsValid (nulls run) i q r (get_elem? q.thr_id i) refl e (Runs-keeps run v)
