-- ===== src/Server/Dispatch/Held.antt =====
-- The client that a thread serves in `read_thread_function` of server/server.c, and what is to be in
-- order when the thread ends.
use push_server.Base.{
  ℕ, zero, suc, ◌≤◌, ◌<◌, true, false, List, [], ◌∷◌, none, some, Bytes, length, get_elem?,
  get_elem?-set_self, get_elem?-set_ne, ◌≡◌, ◌≢◌, sym, ap, ◌∙◌, subst, arith,
}
use push_server.Server.Table.{Client, Clients, is_open, close_at, close_socket}
use push_server.Server.Table.Connections.{IsCounted, count, connected-set, close_at-IsCounted}
use push_server.Server.Table.Timeouts.{place, close_at_ne}
use push_server.Server.Dispatch.{Ending, done, crashes, undefined, put}

-- The client `c` is at place `i` with a socket, the count is right, and the places of the others
-- are as in `t0`.
pub record IsHeld (i : ℕ) (t0 t : Clients) (c : Client) : Type 0 where
  pub at : place i t ≡ some c
  pub open_ : is_open c ≡ true
  pub counted : IsCounted t
  pub others : (j : ℕ) → i ≢ j → place j t ≡ place j t0

-- The lock is released, every other client is where it was, and the count is right.
abbrev pub IsSafe : ℕ → Clients → Ending → Type 0
IsSafe i t0 (done t sent unlocks) =
    (1 ≤ unlocks) × ((j : ℕ) → i ≢ j → place j t ≡ place j t0) × IsCounted t
IsSafe i t0 crashes = Unit
IsSafe i t0 undefined = Unit

pub lt_of_get_elem? {ℓ} :
    {A : Type ℓ} (xs : List A) (i : ℕ) (a : A) → get_elem? xs i ≡ some a → i < length xs
lt_of_get_elem? [] i a e = absurd (ground arith)
lt_of_get_elem? (x ∷ xs) zero a e = omega arith
lt_of_get_elem? (x ∷ xs) (suc i) a e = omega (arith, lt_of_get_elem? xs i a e)

module _ (i : ℕ) (t0 t : Clients) (c : Client) (h : IsHeld i t0 t c) where
  -- A client that is written back with its socket is still held.
  pub put-IsHeld : (c' : Client) → c'.fd ≡ c.fd → IsHeld i t0 (put i c' t) c'
  put-IsHeld c' e =
      let same : is_open c' ≡ is_open c = ap (λ o. elim o [ none ↦ false | some fd ↦ true ]) e in
      record {
        at = get_elem?-set_self t.g_clients i c' (lt_of_get_elem? t.g_clients i c h.at);
        open_ = same ∙ h.open_;
        counted = omega (arith, h.counted, connected-set t.g_clients i c c' h.at, ap count same);
        others = λ j n. get_elem?-set_ne t.g_clients c' n ∙ h.others j n;
      }

  pub done-IsSafe :
      (sent : List Bytes) (unlocks : ℕ) → 1 ≤ unlocks → IsSafe i t0 (done t sent unlocks)
  done-IsSafe sent unlocks u = (u, h.others, h.counted)

  pub closed-IsSafe :
      (sent : List Bytes) (unlocks : ℕ)
      → 1 ≤ unlocks
      → IsSafe i t0 (done (close_socket i t) sent unlocks)
  unfolding close_socket
  closed-IsSafe sent unlocks u = (
    u,
    λ j n. close_at_ne i j t (place i t) n ∙ h.others j n,
    subst (λ o. IsCounted (close_at i t o)) (sym h.at)
        (close_at-IsCounted i t c h.at h.open_ h.counted),
  )
