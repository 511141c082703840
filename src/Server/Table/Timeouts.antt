-- ===== src/Server/Table/Timeouts.antt =====
-- Which clients a pass of `check_time_out_thread` of server/server.c closes.
use push_server.Base.{
  ℕ, zero, suc, ◌+◌, ◌≤◌, ◌<◌, Bool, true, false, Bool-cases, inl, inr, List, [], ◌∷◌, Option, none,
  some, length, get_elem?, get_elem?-set_self, get_elem?-set_ne, ltb, leb, ◌==◌, ==_iff, ◌≡◌, ◌≢◌,
  refl, sym, ap, ◌∙◌, subst, arith,
}
use push_server.Base.Int.{pos}
use push_server.Server.Table.{
  Client, Clients, is_open, closed, close_at, close_socket, check, check_at, check_from,
  places_below, check_time_out,
}
use push_server.Server.Table.Connections.{
  count, connected-set, IsCounted, close_at-active, close_at-IsCounted,
}

abbrev pub place : ℕ → Clients → Option Client
place j t = get_elem? t.g_clients j

abbrev forget : Client → Clients → Clients
forget c t = record t { forgotten = c.drivce_id ∷ t.forgotten }

-- A client that is closed is at one place.
pub close_at_ne :
    (i j : ℕ) (t : Clients) (o : Option Client) → i ≢ j → place j (close_at i t o) ≡ place j t
close_at_ne i j t none n = refl
close_at_ne i j t (some c) n = elim (Bool-cases (ltb t.active_socket_connect 1)) [
  | inl e ↦ rw e refl
  | inr e ↦ rw e (get_elem?-set_ne t.g_clients (closed (leb 2 t.active_socket_connect) c) n)
]

check_ne :
    (i j : ℕ) (c : Client) (t : Clients) (o due : Bool)
    → i ≢ j
    → place j (check i c t o due) ≡ place j t
unfolding close_socket
check_ne i j c t true true n = close_at_ne i j (forget c t) (place i t) n
check_ne i j c t true false n = refl
check_ne i j c t false due n = refl

check_at_ne :
    (now limit i j : ℕ) (t : Clients) (o : Option Client)
    → i ≢ j
    → place j (check_at now limit i t o) ≡ place j t
check_at_ne now limit i j t none n = refl
check_at_ne now limit i j t (some c) n = check_ne i j c t (is_open c) (now == c.timeout + limit) n

-- The loop leaves the places behind its end.
check_from-behind :
    (now limit n i j : ℕ) (t : Clients)
    → i + n ≤ j
    → place j (check_from now limit n i t) ≡ place j t
unfolding check_from
check_from-behind now limit zero i j t h = refl
check_from-behind now limit (suc n) i j t h =
    check_from-behind now limit n (suc i) j (check_at now limit i t (place i t)) (omega arith)
    ∙ check_at_ne now limit i j t (place i t) (λ e. absurd (omega arith))

not_equal : (a b : ℕ) → a ≢ b → (a == b) ≡ false
not_equal a b h = ground arith

differ : (i j : ℕ) → (i == j) ≡ false → i ≢ j
differ i j h e = absurd (ground arith)

check-not_due :
    (i : ℕ) (c : Client) (t : Clients) (o due : Bool) → due ≡ false → check i c t o due ≡ t
check-not_due i c t true true e = absurd (ground arith)
check-not_due i c t true false e = refl
check-not_due i c t false due e = refl

check_at-not_due :
    (now limit i j : ℕ) (t : Clients) (c : Client)
    → place j t ≡ some c
    → now ≢ c.timeout + limit
    → place j (check_at now limit i t (place i t)) ≡ some c
check_at-not_due now limit i j t c at h = elim (Bool-cases (i == j)) [
  | inl e ↦
      let here : place i t ≡ some c = ap (λ k. place k t) ((==_iff i j).0 e) ∙ at in
      subst (λ (o : Option Client). place j (check_at now limit i t o) ≡ some c) (sym here)
        (ap (place j) (
            check-not_due i c t (is_open c) (now == c.timeout + limit)
              (not_equal now (c.timeout + limit) h))
          ∙ at)
  | inr e ↦ check_at_ne now limit i j t (place i t) (differ i j e) ∙ at
]

-- Nor does it change a place whose time is not up just now.
check_from-not_due :
    (now limit n i j : ℕ) (t : Clients) (c : Client)
    → place j t ≡ some c
    → now ≢ c.timeout + limit
    → place j (check_from now limit n i t) ≡ some c
unfolding check_from
check_from-not_due now limit zero i j t c at h = at
check_from-not_due now limit (suc n) i j t c at h =
    check_from-not_due now limit n (suc i) j (check_at now limit i t (place i t)) c
      (check_at-not_due now limit i j t c at h) h

-- A pass leaves a client alone whose last message is not exactly the time limit ago: one that has
-- been silent for longer, because a pass came late, is never closed by a later one.
pub check_time_out-not_due :
    (now limit j : ℕ) (t : Clients) (c : Client)
    → get_elem? t.g_clients j ≡ some c
    → now ≢ c.timeout + limit
    → get_elem? (check_time_out now limit t).g_clients j ≡ some c
unfolding check_time_out
check_time_out-not_due now limit j t c at h =
    check_from-not_due now limit (places_below t.g_maxi) 0 j t c at h

-- The client at the highest place that was ever taken, `g_maxi`, is never closed by a pass.
pub check_time_out-last :
    (now limit m : ℕ) (t : Clients)
    → t.g_maxi ≡ pos m
    → get_elem? (check_time_out now limit t).g_clients m ≡ get_elem? t.g_clients m
unfolding check_time_out
check_time_out-last now limit m t e =
    check_from-behind now limit (places_below t.g_maxi) 0 m t (omega (arith, ap places_below e))

-- The loop leaves the places that it has passed.
check_from-passed :
    (now limit n i j : ℕ) (t : Clients) → j < i → place j (check_from now limit n i t) ≡ place j t
unfolding check_from
check_from-passed now limit zero i j t h = refl
check_from-passed now limit (suc n) i j t h =
    check_from-passed now limit n (suc i) j (check_at now limit i t (place i t)) (omega arith)
    ∙ check_at_ne now limit i j t (place i t) (λ e. absurd (omega arith))

check-IsCounted :
    (i : ℕ) (c : Client) (t : Clients) (o due : Bool)
    → place i t ≡ some c
    → is_open c ≡ o
    → IsCounted t
    → IsCounted (check i c t o due)
unfolding close_socket
check-IsCounted i c t true true at o v =
    subst (λ (p : Option Client). IsCounted (close_at i (forget c t) p)) (sym at)
      (close_at-IsCounted i (forget c t) c at o v)
check-IsCounted i c t true false at o v = v
check-IsCounted i c t false due at o v = v

check_at-IsCounted :
    (now limit i : ℕ) (t : Clients) (p : Option Client)
    → place i t ≡ p
    → IsCounted t
    → IsCounted (check_at now limit i t p)
check_at-IsCounted now limit i t none at v = v
check_at-IsCounted now limit i t (some c) at v =
    check-IsCounted i c t (is_open c) (now == c.timeout + limit) at refl v

-- A place that is closed has no socket.
abbrev pub IsClosed : Option Client → Type 0
IsClosed none = ⊥
IsClosed (some c) = c.fd ≡ none

inside : (cs : List Client) (i : ℕ) (c : Client) → get_elem? cs i ≡ some c → i < length cs
inside [] i c e = ground arith
inside (x ∷ cs) zero c e = omega arith
inside (x ∷ cs) (suc i) c e = omega (arith, inside cs i c e)

close_socket-IsClosed :
    (i : ℕ) (t : Clients) (c : Client)
    → place i t ≡ some c
    → is_open c ≡ true
    → IsCounted t
    → IsClosed (place i (close_socket i t))
unfolding close_socket
close_socket-IsClosed i t c at o v =
    let d = closed (leb 2 t.active_socket_connect) c in
    let one : count (is_open c) ≡ 1 = ap count o in
    let shut = connected-set t.g_clients i c d at in
    subst (λ (p : Option Client). IsClosed (place i (close_at i t p))) (sym at)
      (subst (λ (u : Clients). IsClosed (place i u))
        (sym (close_at-active i t c (omega (arith, v, one, shut))))
        (subst IsClosed (sym (get_elem?-set_self t.g_clients i d (inside t.g_clients i c at)))
          refl))

check_at-IsClosed :
    (now limit i : ℕ) (t : Clients) (c : Client)
    → place i t ≡ some c
    → is_open c ≡ true
    → now ≡ c.timeout + limit
    → IsCounted t
    → IsClosed (place i (check_at now limit i t (place i t)))
check_at-IsClosed now limit i t c at o e v =
    subst (λ (p : Option Client). IsClosed (place i (check_at now limit i t p))) (sym at)
      (subst (λ (b : Bool). IsClosed (place i (check i c t b (now == c.timeout + limit)))) (sym o)
        (subst (λ (b : Bool). IsClosed (place i (check i c t true b)))
          (sym ((==_iff now (c.timeout + limit)).1 e))
          (close_socket-IsClosed i (forget c t) c at o v)))

check_from-due :
    (now limit n i j : ℕ) (t : Clients) (c : Client)
    → i ≤ j
    → j < i + n
    → place j t ≡ some c
    → is_open c ≡ true
    → now ≡ c.timeout + limit
    → IsCounted t
    → IsClosed (place j (check_from now limit n i t))
unfolding check_from
check_from-due now limit zero i j t c lo hi at o e v = absurd (omega arith)
check_from-due now limit (suc n) i j t c lo hi at o e v = elim (Bool-cases (i == j)) [
  | inl s ↦
      let same : i ≡ j = (==_iff i j).0 s in
      let after = check_at now limit i t (place i t) in
      let at_i : place i t ≡ some c = ap (λ k. place k t) same ∙ at in
      subst (λ k. IsClosed (place k (check_from now limit n (suc i) after))) same
        (subst IsClosed (sym (check_from-passed now limit n (suc i) i after (omega arith)))
          (check_at-IsClosed now limit i t c at_i o e v))
  | inr s ↦
      check_from-due now limit n (suc i) j (check_at now limit i t (place i t)) c
        (omega (arith, differ i j s)) (omega arith)
        (check_at_ne now limit i j t (place i t) (differ i j s) ∙ at) o e
        (check_at-IsCounted now limit i t (place i t) refl v)
]

-- A client with a socket below `g_maxi` whose last message came exactly the time limit ago has no
-- socket after the pass, if `active_socket_connect` is the number of clients that have one.
pub check_time_out-due :
    (now limit j : ℕ) (t : Clients) (c : Client)
    → j < places_below t.g_maxi
    → get_elem? t.g_clients j ≡ some c
    → is_open c ≡ true
    → now ≡ c.timeout + limit
    → IsCounted t
    → IsClosed (get_elem? (check_time_out now limit t).g_clients j)
unfolding check_time_out
check_time_out-due now limit j t c h at o e v =
    check_from-due now limit (places_below t.g_maxi) 0 j t c (omega arith) (omega arith) at o e v
