-- ===== src/Server/Table/Connections.antt =====
-- The places and the count of the table of clients of server/server.c.
use push_server.Base.{
  ℕ, zero, suc, ◌+◌, ◌-◌, ◌≤◌, ◌<◌, Bool, true, false, Bool-cases, inl, inr, List, [], ◌∷◌, Option,
  none, some, length, get_elem?, set, get_elem?-set_self, get_elem?-set_ne, ltb, leb, lt→ltb,
  ltb→lt, if◌then◌else◌, ◌≡◌, ◌≢◌, refl, sym, ap, ◌∙◌, subst, arith,
}
use push_server.Server.Table.{
  Client, Clients, unused_from, init_clients, is_open, free_place, seat, connect, new_connection,
  unwatch, closed, close_at, close_socket,
}

-- The number of clients that have a socket.
abbrev pub count : Bool → ℕ
count b = if b then 1 else 0

abbrev pub connected : List Client → ℕ
connected [] = 0
connected (c ∷ cs) = count (is_open c) + connected cs

is_open-none : (o : Option ℕ) → (elim o [ none ↦ false | some fd ↦ true ]) ≡ false → o ≡ none
is_open-none none e = refl
is_open-none (some fd) e = ground arith

-- What the search and the store do at a place, in terms of whether it has a socket.
abbrev Seats : ℕ → Client → List Client → Bool → Type 0
Seats connectfd c cs b =
    (if b then suc (free_place cs) else 0) < suc (length cs)
    → (d : Client) × (get_elem? (c ∷ cs) (if b then suc (free_place cs) else 0) ≡ some d)
      × (d.fd ≡ none)
      × ((if b then c ∷ seat connectfd cs else (record c { fd = some connectfd } ∷ cs))
          ≡ set (c ∷ cs) (if b then suc (free_place cs) else 0) (record d { fd = some connectfd }))

-- A socket is stored at the free place, which has none and is in the table unless it is full.
seat-free_place :
    (connectfd : ℕ) (cs : List Client)
    → free_place cs < length cs
    → (c : Client) × (get_elem? cs (free_place cs) ≡ some c)
      × (c.fd ≡ none)
      × (seat connectfd cs ≡ set cs (free_place cs) (record c { fd = some connectfd }))
unfolding seat free_place
seat-free_place connectfd [] h = absurd (omega arith)
seat-free_place connectfd (c ∷ cs) h = elim (Bool-cases (is_open c)) [
  | inl e ↦
      subst (Seats connectfd c cs) (sym e)
        (λ k.
          let (d, at, free, stored) = seat-free_place connectfd cs (omega arith) in
          (d, at, free, ap (λ (l : List Client). c ∷ l) stored))
        h
  | inr e ↦ subst (Seats connectfd c cs) (sym e) (λ k. (c, refl, is_open-none c.fd e, refl)) h
]

abbrev Full : ℕ → Client → List Client → Bool → Type 0
Full connectfd c cs b =
    suc (length cs) ≤ (if b then suc (free_place cs) else 0)
    → ((if b then c ∷ seat connectfd cs else (record c { fd = some connectfd } ∷ cs)) ≡ c ∷ cs)
      × ((if b then suc (free_place cs) else 0) ≡ suc (length cs))

-- A full table has no free place, and nothing is stored.
seat-full :
    (connectfd : ℕ) (cs : List Client)
    → length cs ≤ free_place cs
    → (seat connectfd cs ≡ cs) × (free_place cs ≡ length cs)
unfolding seat free_place
seat-full connectfd [] h = (refl, refl)
seat-full connectfd (c ∷ cs) h = elim (Bool-cases (is_open c)) [
  | inl e ↦
      subst (Full connectfd c cs) (sym e)
        (λ k.
          let (same, end) = seat-full connectfd cs (omega arith) in
          (ap (λ (l : List Client). c ∷ l) same, ap suc end))
        h
  | inr e ↦ subst (Full connectfd c cs) (sym e) (λ k. absurd (omega arith)) h
]

-- One place changes.
pub connected-set :
    (cs : List Client) (i : ℕ) (c d : Client)
    → get_elem? cs i ≡ some c
    → connected (set cs i d) + count (is_open c) ≡ connected cs + count (is_open d)
connected-set [] i c d e = ground arith
connected-set (x ∷ cs) zero c d e =
    let g : count (is_open x) ≡ count (is_open c) =
      ap (λ (o : Option Client). elim o [ none ↦ 0 | some y ↦ count (is_open y) ]) e in
    omega arith
connected-set (x ∷ cs) (suc i) c d e = omega (arith, connected-set cs i c d e)

not-lt : (a b : ℕ) → b ≤ a → ltb a b ≡ false
not-lt a b h = ground arith

-- A connection takes a place that had no socket, is counted, and is watched under that place; the
-- place of every other client is left as it was. This needs a free place.
pub connect-free_place :
    (connectfd j : ℕ) (t : Clients)
    → free_place t.g_clients < length t.g_clients
    → free_place t.g_clients ≢ j
    → (c : Client) × (get_elem? t.g_clients (free_place t.g_clients) ≡ some c)
      × (c.fd ≡ none)
      × (get_elem? (connect connectfd t).g_clients (free_place t.g_clients)
          ≡ some (record c { fd = some connectfd }))
      × (get_elem? (connect connectfd t).g_clients j ≡ get_elem? t.g_clients j)
      × ((connect connectfd t).active_socket_connect ≡ suc t.active_socket_connect)
      × ((connect connectfd t).epoll ≡ (connectfd, free_place t.g_clients) ∷ t.epoll)
unfolding connect
connect-free_place connectfd j t h n =
    let i = free_place t.g_clients in
    let (c, at, free, stored) = seat-free_place connectfd t.g_clients h in
    let new = record c { fd = some connectfd } in
    (
      c,
      at,
      free,
      ap (λ (l : List Client). get_elem? l i) stored ∙ get_elem?-set_self t.g_clients i new h,
      ap (λ (l : List Client). get_elem? l j) stored ∙ get_elem?-set_ne t.g_clients new n,
      ap (λ (b : Bool). if b then suc t.active_socket_connect else t.active_socket_connect)
          (lt→ltb i (length t.g_clients) h),
      refl,
    )

-- With all places taken the connection is stored nowhere and not counted, and it is watched under
-- the place behind the end of the table.
pub connect-full :
    (connectfd : ℕ) (t : Clients)
    → length t.g_clients ≤ free_place t.g_clients
    → ((connect connectfd t).g_clients ≡ t.g_clients)
      × ((connect connectfd t).active_socket_connect ≡ t.active_socket_connect)
      × ((connect connectfd t).epoll ≡ (connectfd, length t.g_clients) ∷ t.epoll)
unfolding connect
connect-full connectfd t h =
    let (same, end) = seat-full connectfd t.g_clients h in
    (
      same,
      ap (λ (b : Bool). if b then suc t.active_socket_connect else t.active_socket_connect)
          (not-lt (free_place t.g_clients) (length t.g_clients) h),
      ap (λ (i : ℕ). (connectfd, i) ∷ t.epoll) end,
    )

-- `active_socket_connect` is the number of clients that have a socket.
abbrev pub IsCounted : Clients → Type 0
IsCounted t = t.active_socket_connect ≡ connected t.g_clients

connected-seat :
    (connectfd : ℕ) (cs : List Client)
    → free_place cs < length cs
    → connected (seat connectfd cs) ≡ suc (connected cs)
connected-seat connectfd cs h =
    let (c, at, free, stored) = seat-free_place connectfd cs h in
    let shut : count (is_open c) ≡ 0 =
      ap (λ (o : Option ℕ). count (elim o [ none ↦ false | some fd ↦ true ])) free in
    ap connected stored
    ∙ omega (arith, shut, connected-set cs (free_place cs) c (record c { fd = some connectfd }) at)

ltb-le : (a b : ℕ) → ltb a b ≡ false → b ≤ a
ltb-le a b h = ground arith

connect-IsCounted : (connectfd : ℕ) (t : Clients) → IsCounted t → IsCounted (connect connectfd t)
unfolding connect
connect-IsCounted connectfd t v =
    elim (Bool-cases (ltb (free_place t.g_clients) (length t.g_clients))) [
      | inl e ↦ rw e (ap suc v ∙ sym (connected-seat connectfd t.g_clients (ltb→lt _ _ e)))
      | inr e ↦ rw e (v ∙ sym (ap connected (seat-full connectfd t.g_clients (ltb-le _ _ e)).0))
    ]

-- What `close_socket` does while a client is counted.
pub close_at-active :
    (i : ℕ) (t : Clients) (c : Client)
    → 0 < t.active_socket_connect
    → close_at i t (some c) ≡ record t {
      g_clients = set t.g_clients i (closed (leb 2 t.active_socket_connect) c);
      active_socket_connect = t.active_socket_connect - 1;
      epoll = unwatch c.fd t.epoll;
    }
close_at-active i t c h = rw (not-lt t.active_socket_connect 1 (omega arith)) refl

pub close_at-IsCounted :
    (i : ℕ) (t : Clients) (c : Client)
    → get_elem? t.g_clients i ≡ some c
    → is_open c ≡ true
    → IsCounted t
    → IsCounted (close_at i t (some c))
close_at-IsCounted i t c at o v =
    let one : count (is_open c) ≡ 1 = ap count o in
    let shut = connected-set t.g_clients i c (closed (leb 2 t.active_socket_connect) c) at in
    rw (close_at-active i t c (omega (arith, v, one, shut))) (omega (arith, v, one, shut))

-- What the server does with the table: connections come, and clients that have a socket are
-- closed.
pub data Step : Clients → Clients → Type 0 where
  came : (fds : List ℕ) (t : Clients) → Step t (new_connection fds t)
  went :
      (i : ℕ) (t : Clients) (c : Client)
      → get_elem? t.g_clients i ≡ some c
      → is_open c ≡ true
      → Step t (close_socket i t)

pub data Reaches : Clients → Clients → Type 0 where
  start : (t : Clients) → Reaches t t
  next : {s t u : Clients} → Reaches s t → Step t u → Reaches s u

new_connection-IsCounted :
    (fds : List ℕ) (t : Clients) → IsCounted t → IsCounted (new_connection fds t)
unfolding new_connection
new_connection-IsCounted [] t v = v
new_connection-IsCounted (fd ∷ fds) t v =
    new_connection-IsCounted fds (connect fd t) (connect-IsCounted fd t v)

Step-IsCounted : {t u : Clients} → Step t u → IsCounted t → IsCounted u
unfolding close_socket
Step-IsCounted (came fds t) v = new_connection-IsCounted fds t v
Step-IsCounted (went i t c at o) v =
    subst (λ (o : Option Client). IsCounted (close_at i t o)) (sym at)
      (close_at-IsCounted i t c at o v)

Reaches-keeps : {t u : Clients} → Reaches t u → IsCounted t → IsCounted u
Reaches-keeps (start t) v = v
Reaches-keeps (next run s) v = Step-IsCounted s (Reaches-keeps run v)

unused_from-connected : (i n : ℕ) → 0 ≡ connected (unused_from i n)
unused_from-connected i zero = refl
unused_from-connected i (suc n) = omega (arith, unused_from-connected (suc i) n)

-- However connections come, also to a full table, and clients that have a socket are closed,
-- `active_socket_connect` is the number of clients that have a socket.
pub Reaches-IsCounted : (n : ℕ) (t : Clients) → Reaches (init_clients n) t → IsCounted t
unfolding init_clients
Reaches-IsCounted n t run = Reaches-keeps run (unused_from-connected 0 n)

-- A client that is closed twice is counted twice: with a place that has no socket, as long as the
-- count is positive, the count falls one below the number of clients that have a socket.
pub close_socket-twice :
    (i : ℕ) (t : Clients) (c : Client)
    → get_elem? t.g_clients i ≡ some c
    → c.fd ≡ none
    → 0 < t.active_socket_connect
    → IsCounted t
    → suc (close_socket i t).active_socket_connect ≡ connected (close_socket i t).g_clients
unfolding close_socket
close_socket-twice i t c at none_open h v =
    let zero_open : count (is_open c) ≡ 0 =
      ap (λ (o : Option ℕ). count (elim o [ none ↦ false | some fd ↦ true ])) none_open in
    let same = connected-set t.g_clients i c (closed (leb 2 t.active_socket_connect) c) at in
    rw at (rw (close_at-active i t c h) (omega (arith, v, zero_open, same)))
