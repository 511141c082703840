-- ===== src/RedisPool/Lease.antt =====
-- What the operations of server/redis_pool.c do to the list of workers.
use push_server.Base.{
  ℕ, suc, ◌≤◌, Bool, true, false, Bool-cases, inl, inr, List, [], ◌∷◌, Option, none, some, length,
  ◌==◌, ==_iff, if◌then◌else◌, ◌≡◌, refl, sym, ap, ◌∙◌, arith, subst,
}
use push_server.RedisPool.{Worker, lock, return_worker, behind, scan, return_all}

-- The ids from `k` on, in order.
abbrev pub AreNumbered : ℕ → List Worker → Type 0
AreNumbered k [] = Unit
AreNumbered k (w ∷ ws) = (w.workid ≡ k) × AreNumbered (suc k) ws

pub return_worker-AreNumbered :
    (id k : ℕ) (ws : List Worker) → AreNumbered k ws → AreNumbered k (return_worker id ws)
unfolding return_worker
return_worker-AreNumbered id k [] v = v
return_worker-AreNumbered id k (w ∷ ws) v = elim (Bool-cases (w.workid == id)) [
  | inl e ↦ rw e v
  | inr e ↦ rw e (v.0, return_worker-AreNumbered id (suc k) ws v.1)
]

pub length-return_worker : (id : ℕ) (ws : List Worker) → length (return_worker id ws) ≡ length ws
unfolding return_worker
length-return_worker id [] = refl
length-return_worker id (w ∷ ws) = elim (Bool-cases (w.workid == id)) [
  | inl e ↦ rw e refl
  | inr e ↦ rw e (ap suc (length-return_worker id ws))
]

pub return_all-AreNumbered :
    (ids : List ℕ) (k : ℕ) (ws : List Worker) → AreNumbered k ws → AreNumbered k (return_all ids ws)
return_all-AreNumbered [] k ws v = v
return_all-AreNumbered (id ∷ ids) k ws v =
    return_all-AreNumbered ids k (return_worker id ws) (return_worker-AreNumbered id k ws v)

pub length-return_all : (ids : List ℕ) (ws : List Worker) → length (return_all ids ws) ≡ length ws
length-return_all [] ws = refl
length-return_all (id ∷ ids) ws =
    length-return_all ids (return_worker id ws) ∙ length-return_worker id ws

-- `Leases ws w vs`: `w` is the first free worker of `ws`, and `vs` is `ws` with it locked.
pub data Leases : List Worker → Worker → List Worker → Type 0 where
  here : (w : Worker) (ws : List Worker) → w.locked ≡ false → Leases (w ∷ ws) w (lock w ∷ ws)
  there :
      (v w : Worker) (ws vs : List Worker)
      → v.locked ≡ true
      → Leases ws w vs
      → Leases (v ∷ ws) w (v ∷ vs)

-- No worker is free.
abbrev pub AllLocked : List Worker → Type 0
AllLocked [] = Unit
AllLocked (w ∷ ws) = (w.locked ≡ true) × AllLocked ws

abbrev pub ScanLeases : List Worker → Option (Worker × List Worker) → Type 0
ScanLeases ws none = AllLocked ws
ScanLeases ws (some (w, vs)) = Leases ws w vs

behind-ScanLeases :
    (v : Worker) (ws : List Worker) (r : Option (Worker × List Worker))
    → v.locked ≡ true
    → ScanLeases ws r
    → ScanLeases (v ∷ ws) (behind v r)
behind-ScanLeases v ws none e h = (e, h)
behind-ScanLeases v ws (some (w, vs)) e h = there v w ws vs e h

-- The scan leases the first worker that is free, and fails only if none is.
pub scan-Leases : (ws : List Worker) → ScanLeases ws (scan ws)
unfolding scan
scan-Leases [] = tt
scan-Leases (w ∷ ws) =
    let goal =
      λ (b : Bool). ScanLeases (w ∷ ws) (if b then behind w (scan ws) else some (w, lock w ∷ ws)) in
    elim (Bool-cases w.locked) [
      | inl e ↦ subst goal (sym e) (behind-ScanLeases w ws (scan ws) e (scan-Leases ws))
      | inr e ↦ subst goal (sym e) (here w ws e)
    ]

pub Leases-AreNumbered :
    {ws vs : List Worker} {w : Worker} (k : ℕ)
    → Leases ws w vs
    → AreNumbered k ws
    → AreNumbered k vs
Leases-AreNumbered k (here w ws e) v = v
Leases-AreNumbered k (there v w ws vs e l) h = (h.0, Leases-AreNumbered (suc k) l h.1)

pub Leases-length : {ws vs : List Worker} {w : Worker} → Leases ws w vs → length vs ≡ length ws
Leases-length (here w ws e) = refl
Leases-length (there v w ws vs e l) = ap suc (Leases-length l)

pub Leases-workid :
    {ws vs : List Worker} {w : Worker} (k : ℕ) → Leases ws w vs → AreNumbered k ws → k ≤ w.workid
Leases-workid k (here w ws e) v = omega (arith, v.0)
Leases-workid k (there v w ws vs e l) h = omega (arith, Leases-workid (suc k) l h.1)

other : (a b k : ℕ) → a ≡ k → suc k ≤ b → (a == b) ≡ false
other a b k e h = ground arith

-- Giving the leased worker back undoes the lease.
pub return_worker-Leases :
    {ws vs : List Worker} {w : Worker} (k : ℕ)
    → Leases ws w vs
    → AreNumbered k ws
    → return_worker w.workid vs ≡ ws
unfolding return_worker
return_worker-Leases k (here w ws e) v =
    rw ((==_iff w.workid w.workid).1 refl) (ap (λ b. record w { locked = b } ∷ ws) (sym e))
return_worker-Leases k (there v w ws vs e l) h =
    rw (other v.workid w.workid k h.0 (Leases-workid (suc k) l h.1))
      (ap (λ (t : List Worker). v ∷ t) (return_worker-Leases (suc k) l h.1))
