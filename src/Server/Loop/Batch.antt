-- ===== src/Server/Loop/Batch.antt =====
-- The work that the loop of `main` of server/server.c hands to the pool for a batch of events.
use push_server.Base.{
  ℕ, Bool, true, false, Bool-cases, List, [], ◌∷◌, ◌++◌, Option, none, some, map, append_assoc,
  append-nil, get_elem?, ◌||◌, ◌==◌, ◌≡◌, ==_iff, inl, inr, refl, sym, ap, ◌∙◌, arith,
  if◌then◌else◌, subst,
}
use push_server.ThreadPool.{Work}
use push_server.ThreadPool.Order.{tpool_add_work-queue_head}
use push_server.Server.Table.{Client, is_open, close_socket}
use push_server.Server.Loop.{
  Source, listener, terminal, client, Event, Main, read_thread, member, on_error, on_input,
  and_go_on, on_event, unless_quit, on_events,
}

-- The events are all of clients: no connection is accepted, and the terminal is not read.
abbrev pub IsClient : Source → Type 0
IsClient (client i) = Unit
IsClient (listener fds) = ⊥
IsClient (terminal line) = ⊥

abbrev pub AreClients : List Event → Type 0
AreClients [] = Unit
AreClients (e ∷ es) = IsClient e.source × AreClients es

-- The work of a thread that serves the client at a place.
abbrev pub serving : ℕ → Work
serving i = record { routine = read_thread; arg = i }

-- Locks taken one after the other.
abbrev pub held : List ℕ → List ℕ → List ℕ
held [] busy = busy
held (i ∷ is) busy = held is (i ∷ busy)

-- None of the places is in the other list, and no place stands twice.
abbrev pub AreFree : List ℕ → List ℕ → Type 0
AreFree busy [] = Unit
AreFree busy (i ∷ is) = (member i busy ≡ false) × AreFree busy is

abbrev pub Distinct : List ℕ → Type 0
Distinct [] = Unit
Distinct (i ∷ is) = (member i is ≡ false) × Distinct is

-- Each place is free when it is taken.
abbrev pub Takes : List ℕ → List ℕ → Type 0
Takes busy [] = Unit
Takes busy (i ∷ is) = (member i busy ≡ false) × Takes (i ∷ busy) is

Takes-avoids :
    (busy is : List ℕ) (j : ℕ) → Takes busy is → member j busy ≡ true → member j is ≡ false
Takes-avoids busy [] j h k = refl
Takes-avoids busy (i ∷ is) j (h, hs) k = elim (Bool-cases (i == j)) [
  | inl e ↦ ground (arith, ap (λ (n : ℕ). member n busy) ((==_iff i j).0 e), h, k)
  | inr e ↦ rw e (Takes-avoids (i ∷ busy) is j hs (ap (λ b. b || member j busy) e ∙ k))
]

Takes-Distinct : (busy is : List ℕ) → Takes busy is → Distinct is
Takes-Distinct busy [] h = tt
Takes-Distinct busy (i ∷ is) (h, hs) =
    (Takes-avoids (i ∷ busy) is i hs (ground arith), Takes-Distinct (i ∷ busy) is hs)

AreFree-cons : (busy is : List ℕ) (i : ℕ) → AreFree (i ∷ busy) is → AreFree busy is
AreFree-cons busy [] i h = tt
AreFree-cons busy (j ∷ js) i (h, hs) = (ground arith, AreFree-cons busy js i hs)

Takes-AreFree : (busy is : List ℕ) → Takes busy is → AreFree busy is
Takes-AreFree busy [] h = tt
Takes-AreFree busy (i ∷ is) (h, hs) = (h, AreFree-cons busy is i (Takes-AreFree (i ∷ busy) is hs))

-- The clients that have sent something: the places of the events that are no errors.
abbrev pub place : Source → List ℕ
place (client i) = i ∷ []
place (listener fds) = []
place (terminal line) = []

abbrev pub sender : Bool → Source → List ℕ
sender true s = []
sender false s = place s

abbrev pub senders : List Event → List ℕ
senders [] = []
senders (e ∷ es) = sender e.fails e.source ++ senders es

-- Each place of the first list is in the second.
abbrev pub AreIn : List ℕ → List ℕ → Type 0
AreIn [] js = Unit
AreIn (i ∷ is) js = (member i js ≡ true) × AreIn is js

member-append : (i : ℕ) (js ks : List ℕ) → member i (js ++ ks) ≡ (member i js || member i ks)
member-append i [] ks = refl
member-append i (j ∷ js) ks = ground (arith, member-append i js ks)

AreIn-first : (is js ks : List ℕ) → AreIn is js → AreIn is (js ++ ks)
AreIn-first [] js ks h = tt
AreIn-first (i ∷ is) js ks (h, hs) =
    (ground (arith, member-append i js ks, h), AreIn-first is js ks hs)

AreIn-second : (is js ks : List ℕ) → AreIn is ks → AreIn is (js ++ ks)
AreIn-second [] js ks h = tt
AreIn-second (i ∷ is) js ks (h, hs) =
    (ground (arith, member-append i js ks, h), AreIn-second is js ks hs)

AreIn-append : (is js ks : List ℕ) → AreIn is ks → AreIn js ks → AreIn (is ++ js) ks
AreIn-append [] js ks h k = k
AreIn-append (i ∷ is) js ks (h, hs) k = (h, AreIn-append is js ks hs k)

-- What events of clients do to the queue and to the locks; `sent` are the clients of those that
-- are no errors.
abbrev pub Turn : List ℕ → Main → Main → Type 0
Turn sent m n =
    (is : List ℕ) × (n.pool.queue_head ≡ m.pool.queue_head ++ map serving is)
    × Takes m.busy is
    × (n.busy ≡ held is m.busy)
    × AreIn is sent

Turn-none : (sent : List ℕ) (m n : Main) → n.pool ≡ m.pool → n.busy ≡ m.busy → Turn sent m n
Turn-none sent m n p b =
    ([], ap (λ q. q.queue_head) p ∙ sym (append-nil m.pool.queue_head), tt, b, tt)

pub Turn-if :
    (sent : List ℕ) (m x y : Main) (b : Bool)
    → (b ≡ true → Turn sent m x)
    → (b ≡ false → Turn sent m y)
    → Turn sent m (if b then x else y)
Turn-if sent m x y true f g = f refl
Turn-if sent m x y false f g = g refl

-- What holds of the state that is left, if the loop goes on.
abbrev pub Leaves : (Main → Type 0) → Option (Main × Bool) → Type 0
Leaves P none = Unit
Leaves P (some (n, q)) = P n × (q ≡ false)

error-Turn :
    (m : Main) (i : ℕ) (o : Option Client) → Leaves (Turn [] m) (and_go_on (on_error m i o))
error-Turn m i none = tt
error-Turn m i (some c) =
    let t = m.clients in
    let n : Main = record m {
      clients = close_socket i (record t { forgotten = c.drivce_id ∷ t.forgotten });
    } in
    (
      Turn-if [] m n m (is_open c) (λ e. Turn-none [] m n refl refl)
          (λ e. Turn-none [] m m refl refl),
      refl,
    )

input-Turn :
    (m : Main) (i : ℕ) (o : Option Client) → Leaves (Turn (i ∷ []) m) (and_go_on (on_input m i o))
input-Turn m i none = tt
input-Turn m i (some c) = (
  Turn-if (i ∷ []) m _ _ (is_open c)
      (λ e.
        Turn-if (i ∷ []) m _ _ (member i m.busy) (λ b. Turn-none (i ∷ []) m m refl refl)
          (λ b. (
            i ∷ [],
            tpool_add_work-queue_head read_thread i m.pool,
            (b, tt),
            refl,
            (ground arith, tt),
          )))
      (λ e. Turn-none (i ∷ []) m m refl refl),
  refl,
)

pub on_event-Turn :
    (m : Main) (fails : Bool) (s : Source)
    → IsClient s
    → Leaves (Turn (sender fails s) m) (on_event m fails s)
unfolding on_event
on_event-Turn m true (client i) h = error-Turn m i (get_elem? m.clients.g_clients i)
on_event-Turn m false (client i) h = input-Turn m i (get_elem? m.clients.g_clients i)
on_event-Turn m b (listener fds) h = absurd h
on_event-Turn m b (terminal line) h = absurd h

held-append : (is js busy : List ℕ) → held (is ++ js) busy ≡ held js (held is busy)
held-append [] js busy = refl
held-append (i ∷ is) js busy = held-append is js (i ∷ busy)

Takes-append :
    (is js busy : List ℕ) → Takes busy is → Takes (held is busy) js → Takes busy (is ++ js)
Takes-append [] js busy h k = k
Takes-append (i ∷ is) js busy (h, hs) k = (h, Takes-append is js (i ∷ busy) hs k)

map-append : (is js : List ℕ) → map serving (is ++ js) ≡ map serving is ++ map serving js
map-append [] js = refl
map-append (i ∷ is) js = ap (λ (l : List Work). serving i ∷ l) (map-append is js)

Turn-trans : (xs ys : List ℕ) (m n k : Main) → Turn xs m n → Turn ys n k → Turn (xs ++ ys) m k
Turn-trans xs ys m n k (is, q, t, b, a) (js, q', t', b', a') = (
  is ++ js,
  q'
      ∙ ap (λ (l : List Work). l ++ map serving js) q
      ∙ append_assoc m.pool.queue_head (map serving is) (map serving js)
      ∙ ap (λ (l : List Work). m.pool.queue_head ++ l) (sym (map-append is js)),
  Takes-append is js m.busy t (subst (λ l. Takes l js) b t'),
  b' ∙ ap (held js) b ∙ sym (held-append is js m.busy),
  AreIn-append is js (xs ++ ys) (AreIn-first is xs ys a) (AreIn-second js xs ys a'),
)

pub Leaves-map :
    (P Q : Main → Type 0)
    → ((n : Main) → P n → Q n)
    → (o : Option (Main × Bool)) → Leaves P o
    → Leaves Q o
Leaves-map P Q f none h = tt
Leaves-map P Q f (some (n, q)) (h, e) = (f n h, e)

unless_quit-Turn :
    (xs ys : List ℕ) (m : Main) (o : Option (Main × Bool)) (f : Main → Option (Main × Bool))
    → Leaves (Turn xs m) o
    → ((n : Main) → Leaves (Turn ys n) (f n))
    → Leaves (Turn (xs ++ ys) m) (unless_quit o f)
unless_quit-Turn xs ys m none f h k = tt
unless_quit-Turn xs ys m (some (n, true)) f h k = absurd (ground (arith, h.1))
unless_quit-Turn xs ys m (some (n, false)) f h k =
    Leaves-map (Turn ys n) (Turn (xs ++ ys) m) (λ l. Turn-trans xs ys m n l h.0) (f n) (k n)

pub on_events-Turn :
    (es : List Event) (m : Main) → AreClients es → Leaves (Turn (senders es) m) (on_events es m)
unfolding on_events
on_events-Turn [] m h = (Turn-none [] m m refl refl, refl)
on_events-Turn (e ∷ es) m (h, hs) =
    unless_quit-Turn (sender e.fails e.source) (senders es) m (on_event m e.fails e.source)
      (on_events es) (on_event-Turn m e.fails e.source h) (λ n. on_events-Turn es n hs)

pub Leaves-some :
    (P : Main → Type 0) (o : Option (Main × Bool)) (n : Main) (q : Bool)
    → Leaves P o
    → o ≡ some (n, q)
    → P n × (q ≡ false)
Leaves-some P o n q h e = subst (Leaves P) e h

-- For a batch of events that are all of clients, the loop puts work at the end of the queue for
-- clients that no thread serves or is to serve, one work for each at most, and takes their locks;
-- no other lock changes, and the loop goes on. Each of these clients is one of those that have
-- sent something: errors among the events add no work.
pub on_events-queue_head :
    (es : List Event) (m n : Main) (q : Bool)
    → AreClients es
    → on_events es m ≡ some (n, q)
    → (is : List ℕ) × (n.pool.queue_head ≡ m.pool.queue_head ++ map serving is)
      × AreFree m.busy is
      × Distinct is
      × (n.busy ≡ held is m.busy)
      × AreIn is (senders es)
      × (q ≡ false)
on_events-queue_head es m n q h e =
    let ((is, queue, takes, busy, from), goes) =
      Leaves-some (Turn (senders es) m) (on_events es m) n q (on_events-Turn es m h) e in
    (is, queue, Takes-AreFree m.busy is takes, Takes-Distinct m.busy is takes, busy, from, goes)
