-- ===== src/Redis/Values.antt =====
-- The Redis types that the program uses, and the documented effect of each command on its key.
-- EXPIRE and EXISTS leave the value as it is: a key is seen here before its time runs out.
-- ZRANGEBYSCORE is the query from -inf to a score with `limit 0 1`; `multi_exec` is MULTI or EXEC.
use push_server.Base.{
  ℕ, suc, ◌-◌, Bool, true, false, ◌&&◌, List, [], ◌∷◌, Option, none, some, Bytes, bytes_eq, length,
  leb, ltb, if◌then◌else◌,
}

-- A hash is listed in the order of HGETALL.
pub data Value : Type 0 where
  absent : Value
  string : Bytes → Value
  list : List Bytes → Value
  hash : List (Bytes × Bytes) → Value
  members : List Bytes → Value
  scored : List (ℕ × Bytes) → Value

-- The reply types of hiredis.
pub data Reply : Type 0 where
  nil : Reply
  status : Reply
  failure : Reply
  integer : ℕ → Reply
  bulk : Bytes → Reply
  array : List Bytes → Reply

pub data Command : Type 0 where
  lpush : Bytes → Bytes → Command
  rpop : Bytes → Command
  lrem : Bytes → Bytes → Command
  llen : Bytes → Command
  hset : Bytes → Bytes → Bytes → Command
  hget : Bytes → Bytes → Command
  hgetall : Bytes → Command
  sadd : Bytes → Bytes → Command
  srem : Bytes → Bytes → Command
  smembers : Bytes → Command
  sismember : Bytes → Bytes → Command
  set : Bytes → Bytes → Command
  get : Bytes → Command
  zadd : Bytes → ℕ → Bytes → Command
  zremrangebyscore : Bytes → ℕ → ℕ → Command
  exists : Bytes → Command
  del : Bytes → Command
  expire : Bytes → ℕ → Command
  zrangebyscore : Bytes → ℕ → Command
  zrem : Bytes → Bytes → Command
  watch : Bytes → Command
  multi_exec : Command
  -- a command that Redis refuses: an unknown name, or the wrong number of arguments
  refused : Bytes → Command

abbrev pub key_of : Command → Bytes
key_of (lpush k v) = k
key_of (rpop k) = k
key_of (lrem k v) = k
key_of (llen k) = k
key_of (hset k f v) = k
key_of (hget k f) = k
key_of (hgetall k) = k
key_of (sadd k v) = k
key_of (srem k v) = k
key_of (smembers k) = k
key_of (sismember k v) = k
key_of (set k v) = k
key_of (get k) = k
key_of (zadd k s v) = k
key_of (zremrangebyscore k a b) = k
key_of (exists k) = k
key_of (del k) = k
key_of (expire k t) = k
key_of (zrangebyscore k s) = k
key_of (zrem k v) = k
key_of (watch k) = k
key_of multi_exec = []
key_of (refused k) = k

-- Without the last element; the last element.
abbrev pub init : List Bytes → List Bytes
init [] = []
init (x ∷ []) = []
init (x ∷ y ∷ ys) = x ∷ init (y ∷ ys)

abbrev pub last? : List Bytes → Option Bytes
last? [] = none
last? (x ∷ []) = some x
last? (x ∷ y ∷ ys) = last? (y ∷ ys)

abbrev pub remove : Bytes → List Bytes → List Bytes
remove v [] = []
remove v (x ∷ xs) = if bytes_eq x v then remove v xs else x ∷ remove v xs

abbrev pub contains : Bytes → List Bytes → Bool
contains v [] = false
contains v (x ∷ xs) = if bytes_eq x v then true else contains v xs

abbrev pub field : Bytes → List (Bytes × Bytes) → Option Bytes
field f [] = none
field f ((g, v) ∷ h) = if bytes_eq g f then some v else field f h

abbrev pub set_field : Bytes → Bytes → List (Bytes × Bytes) → List (Bytes × Bytes)
set_field f v [] = (f, v) ∷ []
set_field f v ((g, w) ∷ h) = if bytes_eq g f then (g, v) ∷ h else (g, w) ∷ set_field f v h

abbrev pub flatten : List (Bytes × Bytes) → List Bytes
flatten [] = []
flatten ((f, v) ∷ h) = f ∷ v ∷ flatten h

-- A list or a set that has become empty is no key any more.
abbrev pub list_or_absent : List Bytes → Value
list_or_absent [] = absent
list_or_absent (x ∷ xs) = list (x ∷ xs)

abbrev pub members_or_absent : List Bytes → Value
members_or_absent [] = absent
members_or_absent (x ∷ xs) = members (x ∷ xs)

abbrev pub between : ℕ → ℕ → ℕ → Bool
between a b s = leb a s && leb s b

abbrev pub outside : ℕ → ℕ → List (ℕ × Bytes) → List (ℕ × Bytes)
outside a b [] = []
outside a b ((s, v) ∷ z) = if between a b s then outside a b z else (s, v) ∷ outside a b z

abbrev pub unscore : Bytes → List (ℕ × Bytes) → List (ℕ × Bytes)
unscore v [] = []
unscore v ((s, w) ∷ z) = if bytes_eq w v then unscore v z else (s, w) ∷ unscore v z

-- The first of those whose score is lowest, if that is no more than the bound.
abbrev pub lowest : ℕ → Bytes → List (ℕ × Bytes) → List Bytes
lowest s v [] = v ∷ []
lowest s v ((t, w) ∷ z) = if ltb t s then lowest t w z else lowest s v z

abbrev pub due : ℕ → List (ℕ × Bytes) → List Bytes
due now [] = []
due now ((s, v) ∷ z) = if leb s now then lowest s v z else due now z

-- A command at a key of another type is an error, and changes nothing.
abbrev pub update : Command → Value → Value
update (lpush k v) absent = list (v ∷ [])
update (lpush k v) (list xs) = list (v ∷ xs)
update (rpop k) (list xs) = list_or_absent (init xs)
update (lrem k v) (list xs) = list_or_absent (remove v xs)
update (hset k f v) absent = hash ((f, v) ∷ [])
update (hset k f v) (hash h) = hash (set_field f v h)
update (sadd k v) absent = members (v ∷ [])
update (sadd k v) (members s) = members (if contains v s then s else v ∷ s)
update (srem k v) (members s) = members_or_absent (remove v s)
update (zadd k s v) absent = scored ((s, v) ∷ [])
update (zadd k s v) (scored z) = scored ((s, v) ∷ unscore v z)
update (zremrangebyscore k a b) (scored z) = scored (outside a b z)
update (zrem k v) (scored z) = scored (unscore v z)
update (set k v) _ = string v
update (del k) _ = absent
update _ x = x

abbrev pub answer : Option Bytes → Reply
answer none = nil
answer (some v) = bulk v

abbrev pub reply_of : Command → Value → Reply
reply_of (lpush k v) absent = integer 1
reply_of (lpush k v) (list xs) = integer (suc (length xs))
reply_of (rpop k) absent = nil
reply_of (rpop k) (list xs) = answer (last? xs)
reply_of (lrem k v) absent = integer 0
reply_of (lrem k v) (list xs) = integer (length xs - length (remove v xs))
reply_of (llen k) absent = integer 0
reply_of (llen k) (list xs) = integer (length xs)
reply_of (hset k f v) absent = integer 1
reply_of (hset k f v) (hash h) = integer (length (set_field f v h) - length h)
reply_of (hget k f) absent = nil
reply_of (hget k f) (hash h) = answer (field f h)
reply_of (hgetall k) absent = array []
reply_of (hgetall k) (hash h) = array (flatten h)
reply_of (sadd k v) absent = integer 1
reply_of (sadd k v) (members s) = integer (if contains v s then 0 else 1)
reply_of (srem k v) absent = integer 0
reply_of (srem k v) (members s) = integer (if contains v s then 1 else 0)
reply_of (smembers k) absent = array []
reply_of (smembers k) (members s) = array s
reply_of (sismember k v) absent = integer 0
reply_of (sismember k v) (members s) = integer (if contains v s then 1 else 0)
reply_of (set k v) _ = status
reply_of (get k) absent = nil
reply_of (get k) (string v) = bulk v
reply_of (zadd k s v) absent = integer 1
reply_of (zadd k s v) (scored z) = integer (suc (length (unscore v z)) - length z)
reply_of (zremrangebyscore k a b) absent = integer 0
reply_of (zremrangebyscore k a b) (scored z) = integer (length z - length (outside a b z))
reply_of (zrangebyscore k s) absent = array []
reply_of (zrangebyscore k s) (scored z) = array (due s z)
reply_of (zrem k v) absent = integer 0
reply_of (zrem k v) (scored z) = integer (length z - length (unscore v z))
reply_of (watch k) _ = status
reply_of multi_exec _ = status
reply_of (exists k) absent = integer 0
reply_of (exists k) _ = integer 1
reply_of (del k) absent = integer 0
reply_of (del k) _ = integer 1
reply_of (expire k t) absent = integer 0
reply_of (expire k t) _ = integer 1
reply_of _ _ = failure
