-- ===== src/Server/Loop/Inputs.antt =====
-- What becomes of the clients that have sent something, in a batch of events of server/server.c.
use push_server.Base.{
  ℕ, Bool, true, false, Bool-cases, ◌||◌, ◌&&◌, ◌==◌, List, [], ◌∷◌, ◌++◌, map, Option, none, some,
  get_elem?, ◌≡◌, ◌⊎◌, inl, inr, refl, sym, ap, ◌∙◌, arith, if◌then◌else◌, subst,
}
use push_server.ThreadPool.{Work, tpool_add_work}
use push_server.Server.Table.{Client, Clients, is_open}
use push_server.Server.Loop.{
  Source, listener, terminal, client, Event, Main, read_thread, member, on_input, and_go_on,
  on_event, unless_quit, on_events,
}
use push_server.Server.Loop.Batch.{
  IsClient, AreClients, serving, held, senders, Turn, Leaves, Leaves-map, Leaves-some,
  on_events-Turn,
}

-- Events of clients that are no errors.
abbrev pub AreInputs : List Event → Type 0
AreInputs [] = Unit
AreInputs (e ∷ es) = (e.fails ≡ false) × IsClient e.source × AreInputs es

-- A client that has a socket holds its lock.
abbrev pub IsLocked : Main → Source → Type 0
IsLocked n (client i) =
    (c : Client)
    → get_elem? n.clients.g_clients i ≡ some c
    → is_open c ≡ true
    → member i n.busy ≡ true
IsLocked n (listener fds) = Unit
IsLocked n (terminal line) = Unit

abbrev pub AreLocked : Main → List Event → Type 0
AreLocked n [] = Unit
AreLocked n (e ∷ es) = IsLocked n e.source × AreLocked n es

AreInputs-AreClients : (es : List Event) → AreInputs es → AreClients es
AreInputs-AreClients [] h = tt
AreInputs-AreClients (e ∷ es) (f, c, h) = (c, AreInputs-AreClients es h)

member-held : (is busy : List ℕ) (j : ℕ) → member j busy ≡ true → member j (held is busy) ≡ true
member-held [] busy j h = h
member-held (i ∷ is) busy j h = member-held is (i ∷ busy) j (ground (arith, h))

-- The table is as it was, and the client of the event is served.
abbrev Serves : Main → Source → Main → Type 0
Serves m s n = (n.clients ≡ m.clients) × IsLocked n s

Serves-if :
    (m : Main) (s : Source) (b : Bool) (x y : Main)
    → (b ≡ true → Serves m s x)
    → (b ≡ false → Serves m s y)
    → Serves m s (if b then x else y)
Serves-if m s true x y f g = f refl
Serves-if m s false x y f g = g refl

abbrev opened : Option Client → Bool
opened none = false
opened (some c) = is_open c

on_input-Serves :
    (m : Main) (i : ℕ) (o : Option Client)
    → get_elem? m.clients.g_clients i ≡ o
    → Leaves (Serves m (client i)) (and_go_on (on_input m i o))
on_input-Serves m i none e = tt
on_input-Serves m i (some c) e =
    let n : Main = record m {
      busy = i ∷ m.busy;
      pool = (tpool_add_work (some read_thread) i m.pool).1;
    } in
    (
      Serves-if m (client i) (is_open c) (if member i m.busy then m else n) m
          (λ up.
            Serves-if m (client i) (member i m.busy) m n (λ b. (refl, λ d at o. b))
              (λ b. (refl, λ d at o. ground arith)))
          (λ shut. (
            refl,
            λ d at o.
                let clash : true ≡ false = sym o ∙ ap opened (sym at ∙ e) ∙ shut in
                absurd (ground arith),
          )),
      refl,
    )

on_event-Serves : (m : Main) (s : Source) → IsClient s → Leaves (Serves m s) (on_event m false s)
unfolding on_event
on_event-Serves m (client i) h = on_input-Serves m i (get_elem? m.clients.g_clients i) refl
on_event-Serves m (listener fds) h = absurd h
on_event-Serves m (terminal line) h = absurd h

IsLocked-later :
    (sent : List ℕ) (n k : Main) (s : Source)
    → k.clients ≡ n.clients
    → Turn sent n k
    → IsLocked n s
    → IsLocked k s
IsLocked-later sent n k (client i) t (is, q, takes, b, from) h = λ c at o.
    subst (λ (l : List ℕ). member i l ≡ true) (sym b)
      (member-held is n.busy i (h c (ap (λ (t : Clients). get_elem? t.g_clients i) (sym t) ∙ at) o))
IsLocked-later sent n k (listener fds) t r h = tt
IsLocked-later sent n k (terminal line) t r h = tt

unless_quit-Leaves :
    (P Q : Main → Type 0) (o : Option (Main × Bool)) (f : Main → Option (Main × Bool))
    → Leaves P o
    → ((n : Main) → P n → Leaves Q (f n))
    → Leaves Q (unless_quit o f)
unless_quit-Leaves P Q none f h k = tt
unless_quit-Leaves P Q (some (n, true)) f h k = absurd (ground (arith, h.1))
unless_quit-Leaves P Q (some (n, false)) f h k = k n h.0

Leaves-both :
    (P Q : Main → Type 0) (o : Option (Main × Bool))
    → Leaves P o
    → Leaves Q o
    → Leaves (λ n. P n × Q n) o
Leaves-both P Q none h k = tt
Leaves-both P Q (some (n, q)) h k = ((h.0, k.0), h.1)

abbrev ServesAll : Main → List Event → Main → Type 0
ServesAll m es n = (n.clients ≡ m.clients) × AreLocked n es

on_events-Serves :
    (es : List Event) (m : Main) → AreInputs es → Leaves (ServesAll m es) (on_events es m)
unfolding on_events
on_events-Serves [] m h = ((refl, tt), refl)
on_events-Serves (e ∷ es) m (f, s, hs) =
    unless_quit-Leaves (Serves m e.source) (ServesAll m (e ∷ es)) (on_event m e.fails e.source)
      (on_events es)
      (subst (λ b. Leaves (Serves m e.source) (on_event m b e.source)) (sym f)
        (on_event-Serves m e.source s))
      (λ n one.
        Leaves-map (λ k. ServesAll n es k × Turn (senders es) n k) (ServesAll m (e ∷ es))
          (λ k both. (
            both.0.0 ∙ one.0,
            (IsLocked-later (senders es) n k e.source both.0.0 both.1 one.1, both.0.1),
          ))
          (on_events es n)
          (Leaves-both (ServesAll n es) (Turn (senders es) n) (on_events es n)
            (on_events-Serves es n hs) (on_events-Turn es n (AreInputs-AreClients es hs))))

-- Whether a work that serves the client at a place waits in the queue.
abbrev pub waits_for : ℕ → List Work → Bool
waits_for i [] = false
waits_for i (w ∷ ws) = w.routine == read_thread && w.arg == i || waits_for i ws

waits_for-append :
    (i : ℕ) (vs ws : List Work) → waits_for i ws ≡ true → waits_for i (vs ++ ws) ≡ true
waits_for-append i [] ws h = h
waits_for-append i (v ∷ vs) ws h = ground (arith, waits_for-append i vs ws h)

waits_for-serving : (i : ℕ) (is : List ℕ) → member i is ≡ true → waits_for i (map serving is) ≡ true
waits_for-serving i [] h = absurd (ground arith)
waits_for-serving i (j ∷ js) h = elim (Bool-cases (j == i)) [
  | inl e ↦ rw e refl
  | inr e ↦ rw e (waits_for-serving i js (ground arith))
]

held-cases :
    (is busy : List ℕ) (j : ℕ)
    → member j (held is busy) ≡ true
    → (member j busy ≡ true) ⊎ (member j is ≡ true)
held-cases [] busy j h = inl h
held-cases (i ∷ is) busy j h = elim (held-cases is (i ∷ busy) j h) [
  | inl k ↦ elim (Bool-cases (i == j)) [ inl e ↦ inr (ground arith) | inr e ↦ inl (ground arith) ]
  | inr k ↦ inr (ground arith)
]

-- A client that has a socket holds its lock: it did so before, or a work that serves it is in the
-- queue now.
abbrev pub IsServed : Main → Main → Source → Type 0
IsServed m n (client i) =
    (c : Client)
    → get_elem? n.clients.g_clients i ≡ some c
    → is_open c ≡ true
    → (member i n.busy ≡ true) × ((member i m.busy ≡ true) ⊎ (waits_for i n.pool.queue_head ≡ true))
IsServed m n (listener fds) = Unit
IsServed m n (terminal line) = Unit

abbrev pub AreServed : Main → Main → List Event → Type 0
AreServed m n [] = Unit
AreServed m n (e ∷ es) = IsServed m n e.source × AreServed m n es

IsLocked-IsServed :
    (sent : List ℕ) (m n : Main) (s : Source) → Turn sent m n → IsLocked n s → IsServed m n s
IsLocked-IsServed sent m n (client i) (is, q, takes, b, from) h = λ c at o.
    let locked = h c at o in
    (
      locked,
      elim (held-cases is m.busy i (ap (member i) (sym b) ∙ locked)) [
        | inl k ↦ inl k
        | inr k ↦ inr (
            ap (waits_for i) q
            ∙ waits_for-append i m.pool.queue_head (map serving is) (waits_for-serving i is k))
      ],
    )
IsLocked-IsServed sent m n (listener fds) t h = tt
IsLocked-IsServed sent m n (terminal line) t h = tt

AreLocked-AreServed :
    (sent : List ℕ) (m n : Main) (es : List Event)
    → Turn sent m n
    → AreLocked n es
    → AreServed m n es
AreLocked-AreServed sent m n [] t h = tt
AreLocked-AreServed sent m n (e ∷ es) t (h, hs) =
    (IsLocked-IsServed sent m n e.source t h, AreLocked-AreServed sent m n es t hs)

-- After a batch of events in which clients have sent something and none is an error, the table is
-- as it was. Each of these clients that has a socket holds its lock; and if it did not before the
-- batch, then a work for the thread that serves it waits in the queue of the pool.
pub on_events-AreServed :
    (es : List Event) (m n : Main) (q : Bool)
    → AreInputs es
    → on_events es m ≡ some (n, q)
    → (n.clients ≡ m.clients) × AreServed m n es
on_events-AreServed es m n q h e =
    let (same, locked) =
      (Leaves-some (ServesAll m es) (on_events es m) n q (on_events-Serves es m h) e).0 in
    let (turn, goes) =
      Leaves-some (Turn (senders es) m) (on_events es m) n q
        (on_events-Turn es m (AreInputs-AreClients es h)) e in
    (same, AreLocked-AreServed (senders es) m n es turn locked)
