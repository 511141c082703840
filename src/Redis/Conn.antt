-- ===== src/Redis/Conn.antt =====
-- A hiredis connection: `redisAppendCommand` sends a command whose reply is left on the
-- connection, `redisGetReply` takes the oldest reply that is left, and `redisCommand` is one of
-- each. A wait for a reply that no command owes blocks, which is `none`.
use push_server.Base.{
  ℕ, zero, suc, List, [], ◌∷◌, ◌++◌, Option, none, some, Bytes, bytes_eq, ◌≡◌, refl, ap,
  if◌then◌else◌,
}
use push_server.Redis.{Redis}
use push_server.Redis.Values.{Value, Reply, Command, key_of, update}

-- What one command does at a key, seen from outside.
abbrev pub seen : Command → Bytes → Value → Value
seen c j v = if bytes_eq (key_of c) j then update c v else v

-- A key after a run of commands, the first command first.
abbrev pub after : List Command → Bytes → Value → Value
after [] j v = v
after (c ∷ cs) j v = after cs j (seen c j v)

pub record Conn (R : Redis) : Type 0 where
  pub db : R.Db
  pub pending : List Reply

-- A connection that owes no reply.
abbrev pub idle : {R : Redis} → R.Db → Conn R
idle d = record { db = d; pending = [] }

abbrev pub M : Redis → Type 0 → Type 0
M R A = Conn R → Option (A × Conn R)

module _ {R : Redis} where
  abbrev pub pure : {A : Type 0} → A → M R A
  pure a s = some (a, s)

  abbrev pub redis_append_command : Command → M R (Unit {0})
  redis_append_command c s =
      some (tt, record { db = R.exec c s.db; pending = s.pending ++ R.reply c s.db ∷ [] })

  abbrev take_reply : R.Db → List Reply → Option (Reply × Conn R)
  take_reply d [] = none
  take_reply d (r ∷ rs) = some (r, record { db = d; pending = rs })

  abbrev pub redis_get_reply : M R Reply
  redis_get_reply s = take_reply s.db s.pending

  infixl 5 ◌>>=◌ ◌>>◌
  abbrev pub ◌>>=◌ : {A B : Type 0} → M R A → (A → M R B) → M R B
  ◌>>=◌ m f s = elim (m s) [ none ↦ none | some (a, s') ↦ f a s' ]

  -- An action whose first step is known goes on from there.
  pub bind-some :
      {A B : Type 0} (m : M R A) (f : A → M R B) {s t : Conn R} {a : A}
      → m s ≡ some (a, t)
      → (m >>= f) s ≡ f a t
  bind-some {A} {B} m f e =
      ap (λ (o : Option (A × Conn R)). elim o [ none ↦ none | some (a, t) ↦ f a t ]) e

  abbrev pub ◌>>◌ : {B : Type 0} → M R (Unit {0}) → M R B → M R B
  m >> k = m >>= λ _. k

  abbrev pub redis_command : Command → M R Reply
  redis_command c = redis_append_command c >> redis_get_reply

  -- The loop that reads and frees the replies of a pipeline.
  abbrev pub free_replies : ℕ → M R (Unit {0})
  free_replies zero s = some (tt, s)
  free_replies (suc n) s = elim (redis_get_reply s) [
    | none ↦ none
    | some (r, s') ↦ free_replies n s'
  ]

module _ (R : Redis) where
  abbrev pub exec_all : List Command → R.Db → R.Db
  exec_all [] db = db
  exec_all (c ∷ cs) db = exec_all cs (R.exec c db)

  -- The value at a key after a run of commands depends on that key's value alone.
  pub value-exec_all :
      (cs : List Command) (db : R.Db) (j : Bytes)
      → R.value (exec_all cs db) j ≡ after cs j (R.value db j)
  value-exec_all [] db j = refl
  value-exec_all (c ∷ cs) db j = rw (value-exec_all cs (R.exec c db) j, R.value-exec c db j)
