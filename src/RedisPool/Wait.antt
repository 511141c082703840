-- ===== src/RedisPool/Wait.antt =====
-- The waiting loop of `getRedis`: it ends, and how.
use push_server.Base.{
  ℕ, zero, suc, ◌+◌, ◌-◌, ◌*◌, ◌≤◌, ◌<◌, Bool, Bool-cases, inl, inr, List, [], ◌∷◌, Option, none,
  some, Option-cases, length, length-set, get_elem?, set, ltb, if◌then◌else◌, ◌≡◌, refl, sym, subst,
  ltb→lt, ap, ◌∙◌, arith,
}
use push_server.RedisPool.{
  Worker, lock, return_all, max_time_out, Waited, found, timeout, endless, wait, wait_fuel, attempt,
}
use push_server.RedisPool.Lease.{AreNumbered, return_all-AreNumbered, length-return_all}

-- What holds of the way the loop ended.
abbrev pub Ended : ℕ → Waited → Type 0
Ended n (found w vs) = (length vs ≡ n) × AreNumbered 0 vs
Ended n (timeout vs) = (length vs ≡ n) × AreNumbered 0 vs
Ended n endless = ⊥

id_of : (x w : Worker) (k : ℕ) → some x ≡ some w → x.workid ≡ k → w.workid ≡ k
id_of x w k e h = cc

set-lock-AreNumbered :
    (k : ℕ) (ws : List Worker) (i : ℕ) (w : Worker)
    → get_elem? ws i ≡ some w
    → AreNumbered k ws
    → AreNumbered k (set ws i (lock w))
set-lock-AreNumbered k [] i w e v = tt
set-lock-AreNumbered k (x ∷ ws) zero w e v = (id_of x w k e v.0, v.1)
set-lock-AreNumbered k (x ∷ ws) (suc i) w e v = (v.0, set-lock-AreNumbered (suc k) ws i w e v.1)

-- The list ends where it has no more elements.
get_elem?-none : {A : Type 0} (xs : List A) (i : ℕ) → get_elem? xs i ≡ none → length xs ≤ i
get_elem?-none [] i e = omega arith
get_elem?-none (x ∷ xs) zero e = ground arith
get_elem?-none (x ∷ xs) (suc i) e = omega (arith, get_elem?-none xs i e)

get_elem?-some :
    {A : Type 0} (xs : List A) (i : ℕ) (x : A) → get_elem? xs i ≡ some x → i < length xs
get_elem?-some [] i x e = ground arith
get_elem?-some (y ∷ xs) zero x e = omega arith
get_elem?-some (y ∷ xs) (suc i) x e = omega (arith, get_elem?-some xs i x e)

mul_step : (a b c : ℕ) → a + 1 ≤ b → a * c + c ≤ b * c
mul_step a b c h = grind arith

mul_le : (a b c : ℕ) → a ≤ b → a * c ≤ b * c
mul_le a b c h = grind arith

-- One pass over a list that is not empty takes ten microseconds a worker, so what is left of the
-- time, for each place of the list, goes down.
pass_bound :
    (n i : ℕ)
    → 0 < n
    → i < max_time_out
    → (max_time_out - (i + 10 * n)) * suc n + suc n ≤ (max_time_out - i) * suc n
pass_bound n i z h =
    let b : (max_time_out - (i + 10 * n)) + 1 ≤ max_time_out - i = omega arith in
    mul_step (max_time_out - (i + 10 * n)) (max_time_out - i) (suc n) b

-- The steps that the loop may still take: to the end of the list, and then for the time left.
abbrev steps : ℕ → ℕ → ℕ → ℕ
steps n i k = (n - k) + 1 + (max_time_out - (i + 10 * (n - k))) * suc n

restart :
    (n i k fuel : ℕ)
    → 0 < n
    → i < max_time_out
    → n ≤ k
    → steps n i k ≤ suc fuel
    → steps n i 0 ≤ fuel
restart n i k fuel z h g f =
    let left : n - k ≡ 0 = omega arith in
    let e : steps n i k ≡ 1 + (max_time_out - i) * suc n =
      ap (λ d. d + 1 + (max_time_out - (i + 10 * d)) * suc n) left
      ∙ ap (λ d. 0 + 1 + (max_time_out - d) * suc n) {x = i + 10 * 0} {y = i} (omega arith)
      ∙ omega arith in
    let all : steps n i 0 ≡ n + 1 + (max_time_out - (i + 10 * n)) * suc n =
      ap (λ d. d + 1 + (max_time_out - (i + 10 * d)) * suc n) {x = n - 0} {y = n} (omega arith) in
    omega (arith, pass_bound n i z h)

go_on : (n i k fuel : ℕ) → k < n → steps n i k ≤ suc fuel → steps n (i + 10) (suc k) ≤ fuel
go_on n i k fuel g f =
    let e : (max_time_out - (i + 10 * (n - k))) * suc n
        ≡ (max_time_out - (i + 10 + 10 * (n - suc k))) * suc n =
      ap (λ d. (max_time_out - d) * suc n) {x = i + 10 * (n - k)} {y = i + 10 + 10 * (n - suc k)}
        (omega arith) in
    omega arith

enough : (n : ℕ) → steps n 0 0 ≤ 1000 * suc n + n + 2
enough n = grind (arith, mul_le (max_time_out - (0 + 10 * (n - 0))) 1000 (suc n))

wait-Ended :
    (fuel : ℕ) (returned : ℕ → List ℕ) (i k : ℕ) (ws : List Worker)
    → 0 < length ws
    → k ≤ length ws
    → steps (length ws) i k ≤ fuel
    → AreNumbered 0 ws
    → Ended (length ws) (wait fuel returned i k ws)
unfolding wait
wait-Ended zero returned i k ws z h f v = absurd (omega arith)
wait-Ended (suc fuel) returned i k ws z h f v =
    let now = return_all (returned i) ws in
    let later = wait fuel returned (i + 10) (suc k) now in
    let again = wait fuel returned i 0 ws in
    let goal = λ (o : Option Worker). Ended (length ws) (attempt i k now ws later again o) in
    let same = length-return_all (returned i) ws in
    let numbered = return_all-AreNumbered (returned i) 0 ws v in
    elim (Option-cases (get_elem? now k)) [
      | inl e ↦
          let g : length ws ≤ k = omega (arith, get_elem?-none now k e, same) in
          subst goal (sym e) (elim (Bool-cases (ltb i max_time_out)) [
            | inl t ↦ rw t (
                wait-Ended fuel returned i 0 ws z (omega arith)
                  (restart (length ws) i k fuel z (ltb→lt i max_time_out t) g f) v)
            | inr t ↦ rw t (refl, v)
          ])
      | inr (w, e) ↦
          let g : k < length ws = omega (arith, get_elem?-some now k w e, same) in
          subst goal (sym e) (elim (Bool-cases w.locked) [
            | inl t ↦
                subst
                  (λ (b : Bool).
                    Ended (length ws) (if b then later else found w (set now k (lock w))))
                  (sym t)
                  (subst (λ n. Ended n later) same
                    (wait-Ended fuel returned (i + 10) (suc k) now (omega arith) (omega arith)
                      (subst (λ n. steps n (i + 10) (suc k) ≤ fuel) (sym same)
                        (go_on (length ws) i k fuel g f))
                      numbered))
            | inr t ↦
                subst
                  (λ (b : Bool).
                    Ended (length ws) (if b then later else found w (set now k (lock w))))
                  (sym t)
                  (length-set now k (lock w) ∙ same, set-lock-AreNumbered 0 now k w e numbered)
          ])
    ]

-- The waiting loop of a pool that has workers, with their places as ids, ends with a worker or at
-- the end of the time, whatever other threads give back meanwhile, and keeps the number of
-- workers and their ids.
pub wait-ends :
    (returned : ℕ → List ℕ) (ws : List Worker)
    → 0 < length ws
    → AreNumbered 0 ws
    → Ended (length ws) (wait (wait_fuel ws) returned 0 0 ws)
wait-ends returned ws z v =
    wait-Ended (wait_fuel ws) returned 0 0 ws z (omega arith) (enough (length ws)) v
