-- ===== src/ThreadPool/Order.antt =====
-- The order of work in server/thread_pool.c.
use push_server.Base.{
  ℕ, zero, suc, Bool, true, false, ◌&&◌, Bool-cases, inl, inr, List, [], ◌∷◌, ◌++◌, append_assoc,
  append-nil, Option, none, some, get_elem?, set, ltb, leb, ◌-◌, if◌then◌else◌, ◌≡◌, refl, sym, ap,
  ◌∙◌, arith,
}
use push_server.ThreadPool.{
  Work, Thread, unused, idle, working, ended, Tpool, max_active_size, start_one, grown, queued,
  grow, tpool_add_work, taken, take_work, finished, finish_work,
}

-- `Runs p added done q`: from `p` to `q`, the works that were added with a routine, and those that
-- threads have got by `take_work`, in the order of time, the last one last.
pub data Runs : Tpool → List Work → List Work → Tpool → Type 0 where
  begin : (p : Tpool) → Runs p [] [] p
  add :
      {p q : Tpool} {xs ts : List Work} (routine arg : ℕ)
      → Runs p xs ts q
      → Runs p
          (xs ++ record { routine = routine; arg = arg } ∷ [])
          ts
          (tpool_add_work (some routine) arg q).1
  add_null :
      {p q : Tpool} {xs ts : List Work} (arg : ℕ)
      → Runs p xs ts q
      → Runs p xs ts (tpool_add_work none arg q).1
  take :
      {p q r : Tpool} {xs ts : List Work} (i : ℕ) (w : Work)
      → Runs p xs ts q
      → take_work i q ≡ some r
      → get_elem? r.thr_id i ≡ some (working w)
      → Runs p xs (ts ++ w ∷ []) r
  finish :
      {p q r : Tpool} {xs ts : List Work} (i : ℕ)
      → Runs p xs ts q
      → finish_work i q ≡ some r
      → Runs p xs ts r

grown-queue_head : (p : Tpool) (o : Option (List Thread)) → (grown p o).queue_head ≡ p.queue_head
grown-queue_head p none = refl
grown-queue_head p (some ts) = refl

grow-queue_head : (p : Tpool) → (grow p).queue_head ≡ p.queue_head
unfolding grow
grow-queue_head p = elim (Bool-cases (leb max_active_size p.queue_size)) [
  | inl t ↦ rw t (grown-queue_head p (start_one p.thr_id))
  | inr t ↦ rw t refl
]

-- The work goes to the end of the queue.
pub tpool_add_work-queue_head :
    (routine arg : ℕ) (p : Tpool)
    → (tpool_add_work (some routine) arg p).1.queue_head
      ≡ p.queue_head ++ record { routine = routine; arg = arg } ∷ []
unfolding tpool_add_work
tpool_add_work-queue_head routine arg p =
    grow-queue_head (
      queued (record { routine = routine; arg = arg }) (record p { queue_size = suc p.queue_size }))

same_queue : (a r : Tpool) → some a ≡ some r → r.queue_head ≡ a.queue_head
same_queue a r e = cc

if_queue :
    (b : Bool) (a c r : Tpool)
    → (if b then some a else some c) ≡ some r
    → a.queue_head ≡ c.queue_head
    → r.queue_head ≡ a.queue_head
if_queue true a c r e h = same_queue a r e
if_queue false a c r e h = same_queue c r e ∙ sym h

-- What a thread holds after its place is written, if there was one.
get_elem?-set_there :
    (ts : List Thread) (i : ℕ) (t u : Thread)
    → get_elem? ts i ≡ some t
    → get_elem? (set ts i u) i ≡ some u
get_elem?-set_there [] i t u e = ground arith
get_elem?-set_there (x ∷ ts) zero t u e = refl
get_elem?-set_there (x ∷ ts) (suc i) t u e = get_elem?-set_there ts i t u e

holds : Option Thread → Option Work
holds (some (working w)) = some w
holds (some unused) = none
holds (some idle) = none
holds (some ended) = none
holds none = none

same_thread : (i : ℕ) (a r : Tpool) → some a ≡ some r → get_elem? r.thr_id i ≡ get_elem? a.thr_id i
same_thread i a r e = let same : a ≡ r = cc in ap (λ (p : Tpool). get_elem? p.thr_id i) (sym same)

-- A thread that ends has got no work.
ended-no_work :
    (i : ℕ) (p r : Tpool) (w : Work)
    → get_elem? p.thr_id i ≡ some idle
    → some (record p { thr_id = set p.thr_id i ended }) ≡ some r
    → get_elem? r.thr_id i ≡ some (working w)
    → ⊥
unfolding holds
ended-no_work i p r w o e g =
    let clash : none ≡ some w =
      ap holds (sym (get_elem?-set_there p.thr_id i idle ended o))
      ∙ ap holds (sym (same_thread i (record p { thr_id = set p.thr_id i ended }) r e))
      ∙ ap holds g in
    ground (arith, clash)

-- A thread that has got the work `v` has got what was to be taken.
got :
    (i : ℕ) (p r : Tpool) (v w : Work) (ws : List Work)
    → get_elem? p.thr_id i ≡ some idle
    → some (record p { thr_id = set p.thr_id i (working v); queue_head = ws }) ≡ some r
    → get_elem? r.thr_id i ≡ some (working w)
    → v ∷ ws ≡ w ∷ r.queue_head
unfolding holds
got i p r v w ws o e g =
    let a : Tpool = record p { thr_id = set p.thr_id i (working v); queue_head = ws } in
    let works : some v ≡ some w =
      ap holds (sym (get_elem?-set_there p.thr_id i idle (working v) o))
      ∙ ap holds (sym (same_thread i a r e))
      ∙ ap holds g in
    let work : v ≡ w = cc in let queue : r.queue_head ≡ ws = same_queue a r e in cc

split_if :
    (b : Bool) (a c r : Tpool) (P : Type 0)
    → (if b then some a else some c) ≡ some r
    → (some a ≡ some r → P)
    → (some c ≡ some r → P)
    → P
split_if true a c r P e f g = f e
split_if false a c r P e f g = g e

none_if :
    (b : Bool) (a r : Tpool) (P : Type 0)
    → (if b then some a else none) ≡ some r
    → (some a ≡ some r → P)
    → P
none_if true a r P e f = f e
none_if false a r P e f = absurd (ground arith)

-- The work that a thread has got was at the front of the queue, which the rest of it is now.
taken-queue_head :
    (i : ℕ) (p r : Tpool) (o : Option Thread) (vs : List Work) (w : Work)
    → get_elem? p.thr_id i ≡ o
    → taken i p o vs ≡ some r
    → get_elem? r.thr_id i ≡ some (working w)
    → vs ≡ w ∷ r.queue_head
taken-queue_head i p r (some idle) [] w o e g =
    none_if p.shutdown _ r _ e (λ k. absurd (ended-no_work i p r w o k g))
taken-queue_head i p r (some idle) (v ∷ ws) w o e g =
    split_if p.shutdown _ _ r _ e (λ k. absurd (ended-no_work i p r w o k g))
      (λ k. got i p r v w ws o k g)
taken-queue_head i p r (some unused) vs w o e g = absurd (ground (arith, e))
taken-queue_head i p r (some ended) vs w o e g = absurd (ground (arith, e))
taken-queue_head i p r (some (working v)) vs w o e g = absurd (ground (arith, e))
taken-queue_head i p r none vs w o e g = absurd (ground (arith, e))

pub take_work-queue_head :
    (i : ℕ) (p r : Tpool) (w : Work)
    → take_work i p ≡ some r
    → get_elem? r.thr_id i ≡ some (working w)
    → p.queue_head ≡ w ∷ r.queue_head
unfolding take_work
take_work-queue_head i p r w e g =
    taken-queue_head i p r (get_elem? p.thr_id i) p.queue_head w refl e g

finished-queue_head :
    (i : ℕ) (p r : Tpool) (o : Option Thread)
    → finished i p o ≡ some r
    → r.queue_head ≡ p.queue_head
finished-queue_head i p r (some (working w)) e =
    if_queue (ltb (p.queue_size - 1) max_active_size && ltb max_active_size p.now_thread_count)
      (record p {
        thr_id = set p.thr_id i ended;
        queue_size = p.queue_size - 1;
        now_thread_count = p.now_thread_count - 1;
      })
      (record p { thr_id = set p.thr_id i idle; queue_size = p.queue_size - 1 }) r e refl
finished-queue_head i p r (some unused) e = ground arith
finished-queue_head i p r (some idle) e = ground arith
finished-queue_head i p r (some ended) e = ground arith
finished-queue_head i p r none e = ground arith

add_back :
    (old xs ts now now' : List Work) (w : Work)
    → old ++ xs ≡ ts ++ now
    → now' ≡ now ++ w ∷ []
    → old ++ (xs ++ w ∷ []) ≡ ts ++ now'
add_back old xs ts now now' w e n =
    sym (append_assoc old xs (w ∷ []))
    ∙ ap (λ (l : List Work). l ++ w ∷ []) e
    ∙ append_assoc ts now (w ∷ [])
    ∙ ap (λ (l : List Work). ts ++ l) (sym n)

take_front :
    (all ts now now' : List Work) (w : Work)
    → all ≡ ts ++ now
    → now ≡ w ∷ now'
    → all ≡ (ts ++ w ∷ []) ++ now'
take_front all ts now now' w e h =
    e ∙ ap (λ (l : List Work). ts ++ l) h ∙ sym (append_assoc ts (w ∷ []) now')

-- Work is taken in the order in which it was added, each piece once: over any run in which the
-- pool is not destroyed, what was in the queue and what was added since is what threads have got
-- to work on, followed by what is in the queue.
pub Runs-queue_head :
    {p q : Tpool} {xs ts : List Work} → Runs p xs ts q → p.queue_head ++ xs ≡ ts ++ q.queue_head
unfolding tpool_add_work finish_work
Runs-queue_head (begin p) = append-nil p.queue_head
Runs-queue_head (add {q} routine arg run) =
    let w : Work = record { routine = routine; arg = arg } in
    add_back _ _ _ q.queue_head _ w (Runs-queue_head run)
      (grow-queue_head (queued w (record q { queue_size = suc q.queue_size })))
Runs-queue_head (add_null arg run) = Runs-queue_head run
Runs-queue_head (take {q} {r} i w run e g) =
    take_front _ _ q.queue_head r.queue_head w (Runs-queue_head run)
      (take_work-queue_head i q r w e g)
Runs-queue_head (finish {q} {r} {ts} i run e) =
    Runs-queue_head run
    ∙ ap (λ (l : List Work). ts ++ l) (sym (finished-queue_head i q r (get_elem? q.thr_id i) e))
