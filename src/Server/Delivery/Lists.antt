-- ===== src/Server/Delivery/Lists.antt =====
-- What the commands of the delivery in server/server.c do to the length of a list key.
use push_server.Base.{
  ℕ, suc, ◌≤◌, ◌<◌, false, Bool-cases, inl, inr, List, [], ◌∷◌, Bytes, bytes_eq, bytes_eq-false,
  length, ◌==◌, ◌≡◌, ◌≢◌, refl, ap, arith,
}
use push_server.Redis.Values.{
  Value, absent, list, hash, members, scored, Command, rpop, lpush, lrem, hset, exists, hgetall,
  update, key_of, reply_of, set_field, remove, init, list_or_absent, members_or_absent, sadd, srem,
  zadd, zremrangebyscore, zrem, set, del,
}
use push_server.Redis.Conn.{after, seen}
use push_server.MessageStorage.Lookup.{IsKept, lookups}
use push_server.MessageStorage.Routing.{queued}
use push_server.MessageStorage.{string_of}

set_field-IsKept : (f v : Bytes) (h : List (Bytes × Bytes)) → IsKept (hash (set_field f v h))
set_field-IsKept f v [] = tt
set_field-IsKept f v ((g, w) ∷ h) = elim (Bool-cases (bytes_eq g f)) [
  | inl e ↦ rw e tt
  | inr e ↦ rw e tt
]

list_or_absent-IsKept : (xs : List Bytes) → IsKept (list_or_absent xs)
list_or_absent-IsKept [] = tt
list_or_absent-IsKept (x ∷ xs) = tt

members_or_absent-IsKept : (xs : List Bytes) → IsKept (members_or_absent xs)
members_or_absent-IsKept [] = tt
members_or_absent-IsKept (x ∷ xs) = tt

-- No command leaves an empty hash.
update-IsKept : (c : Command) (w : Value) → IsKept w → IsKept (update c w)
update-IsKept (hset k f v) absent h = tt
update-IsKept (hset k f v) (hash fs) h = set_field-IsKept f v fs
update-IsKept (rpop k) (list xs) h = list_or_absent-IsKept (init xs)
update-IsKept (lrem k v) (list xs) h = list_or_absent-IsKept (remove v xs)
update-IsKept (lpush k v) absent h = tt
update-IsKept (lpush k v) (list xs) h = tt
update-IsKept (sadd k v) absent h = tt
update-IsKept (sadd k v) (members s) h = tt
update-IsKept (srem k v) (members s) h = members_or_absent-IsKept (remove v s)
update-IsKept (zadd k s v) absent h = tt
update-IsKept (zadd k s v) (scored z) h = tt
update-IsKept (zremrangebyscore k a b) (scored z) h = tt
update-IsKept (zrem k v) (scored z) h = tt
update-IsKept (set k v) w h = tt
update-IsKept (del k) w h = tt
update-IsKept c w h = h

pub after-IsKept : (cs : List Command) (j : Bytes) (w : Value) → IsKept w → IsKept (after cs j w)
after-IsKept [] j w h = h
after-IsKept (c ∷ cs) j w h = elim (Bool-cases (bytes_eq (key_of c) j)) [
  | inl e ↦ rw e (after-IsKept cs j (update c w) (update-IsKept c w h))
  | inr e ↦ rw e (after-IsKept cs j w h)
]

-- The length of a list key.
abbrev pub size : Value → ℕ
size w = length (queued w)

length-remove : (v : Bytes) (xs : List Bytes) → length (remove v xs) ≤ length xs
length-remove v [] = omega arith
length-remove v (x ∷ xs) = elim (Bool-cases (bytes_eq x v)) [
  | inl e ↦ rw e (omega (arith, length-remove v xs))
  | inr e ↦ rw e (omega (arith, length-remove v xs))
]

length-init : (x : Bytes) (xs : List Bytes) → length (init (x ∷ xs)) ≡ length xs
length-init x [] = refl
length-init x (y ∷ ys) = ap suc (length-init y ys)

size-list_or_absent : (xs : List Bytes) → size (list_or_absent xs) ≡ length xs
size-list_or_absent [] = refl
size-list_or_absent (x ∷ xs) = refl

size-lrem : (k v : Bytes) (w : Value) → size (update (lrem k v) w) ≤ size w
size-lrem k v (list xs) = omega (arith, size-list_or_absent (remove v xs), length-remove v xs)
size-lrem k v absent = omega arith
size-lrem k v _ = omega arith

size-hset : (k f v : Bytes) (w : Value) → size (update (hset k f v) w) ≤ size w
size-hset k f v absent = omega arith
size-hset k f v _ = omega arith

-- The commands of the loop make no list longer but the read list.
abbrev pub IsCalm : Bytes → Command → Type 0
IsCalm j (lpush k v) = k ≢ j
IsCalm j (lrem k v) = Unit
IsCalm j (hset k f v) = Unit
IsCalm j (exists k) = Unit
IsCalm j (hgetall k) = Unit
IsCalm j _ = ⊥

abbrev pub AreCalm : Bytes → List Command → Type 0
AreCalm j [] = Unit
AreCalm j (c ∷ cs) = IsCalm j c × AreCalm j cs

size-seen : (c : Command) (j : Bytes) (w : Value) → IsCalm j c → size (seen c j w) ≤ size w
size-seen (lpush k v) j w h = rw (bytes_eq-false k j h) (omega arith)
size-seen (lrem k v) j w h = elim (Bool-cases (bytes_eq k j)) [
  | inl e ↦ rw e (size-lrem k v w)
  | inr e ↦ rw e (omega arith)
]
size-seen (hset k f v) j w h = elim (Bool-cases (bytes_eq k j)) [
  | inl e ↦ rw e (size-hset k f v w)
  | inr e ↦ rw e (omega arith)
]
size-seen (exists k) j w h = elim (Bool-cases (bytes_eq k j)) [
  | inl e ↦ rw e (omega arith)
  | inr e ↦ rw e (omega arith)
]
size-seen (hgetall k) j w h = elim (Bool-cases (bytes_eq k j)) [
  | inl e ↦ rw e (omega arith)
  | inr e ↦ rw e (omega arith)
]
size-seen _ j w h = absurd h

pub size-after :
    (cs : List Command) (j : Bytes) (w : Value) → AreCalm j cs → size (after cs j w) ≤ size w
size-after [] j w h = omega arith
size-after (c ∷ cs) j w h = omega (arith, size-seen c j w h.0, size-after cs j (seen c j w) h.1)

pub lookups-AreCalm : (j k : Bytes) (v : Value) → AreCalm j (lookups k v)
lookups-AreCalm j k absent = (tt, tt)
lookups-AreCalm j k _ = (tt, (tt, tt))

-- An element that is taken off makes the list shorter.
pub size-rpop :
    (k : Bytes) (w : Value)
    → ((string_of (reply_of (rpop k) w)).1 == 0) ≡ false
    → size (update (rpop k) w) < size w
size-rpop k (list []) h = absurd (ground arith)
size-rpop k (list (x ∷ xs)) h = omega (arith, size-list_or_absent (init (x ∷ xs)), length-init x xs)
size-rpop k absent h = absurd (ground arith)
size-rpop k _ h = absurd (ground arith)
