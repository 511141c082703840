-- ===== src/ParseCommand/Store/Kept.antt =====
-- What one `putmessageinfo2` without delay does to the keys that the others depend on: queues stay
-- queues and lose nothing, and the records of devices stay as they are.
use push_server.Base.{
  ℕ, true, ◌∷◌, Option, none, some, Bytes, bytes_eq, bytes_eq_refl, Bool-cases, inl, inr, ◌≡◌, ◌≢◌,
  ◌⊎◌, refl, sym, ◌∙◌, if◌then◌else◌,
}
use push_server.Redis.Values.{Value, absent, list, lpush, contains}
use push_server.Redis.Conn.{seen}
use push_server.MessageStorage.Keys.{
  pushlist, noread, content, pushlist-ne-content, noread-ne-content,
}
use push_server.MessageStorage.Records.{ClientInfo}
use push_server.MessageStorage.Routing.{IsQueue, queued, queue_key}

-- The unread lists of devices and the queues of servers.
abbrev pub QueueKey : Bytes → Type 0
QueueKey j = ((d : Bytes) × (j ≡ noread d)) ⊎ ((s : ℕ) × (j ≡ pushlist s))

pub queue_key-QueueKey : (to : Bytes) (c : Option ClientInfo) → QueueKey (queue_key to c)
queue_key-QueueKey to none = inl (to, refl)
queue_key-QueueKey to (some c) = inr (c.serverid, refl)

pub QueueKey-ne-content : (j d : Bytes) → QueueKey j → j ≢ content d
QueueKey-ne-content j d (inl (c, e)) f = noread-ne-content c d (sym e ∙ f)
QueueKey-ne-content j d (inr (s, e)) f = pushlist-ne-content s d (sym e ∙ f)

module _ (k g j : Bytes) where
  -- A push leaves a queue a queue.
  pub IsQueue-seen : (w : Value) → IsQueue w → IsQueue (seen (lpush k g) j w)
  IsQueue-seen absent h = elim (Bool-cases (bytes_eq k j)) [ inl e ↦ rw e tt | inr e ↦ rw e tt ]
  IsQueue-seen (list xs) h = elim (Bool-cases (bytes_eq k j)) [ inl e ↦ rw e tt | inr e ↦ rw e tt ]
  IsQueue-seen _ h = absurd h

  pub queued-seen :
      (w : Value)
      → IsQueue w
      → queued (seen (lpush k g) j w) ≡ (if bytes_eq k j then g ∷ queued w else queued w)
  queued-seen absent h = elim (Bool-cases (bytes_eq k j)) [ inl e ↦ rw e refl | inr e ↦ rw e refl ]
  queued-seen (list xs) h = elim (Bool-cases (bytes_eq k j)) [
    | inl e ↦ rw e refl
    | inr e ↦ rw e refl
  ]
  queued-seen _ h = absurd h

  -- It loses nothing.
  pub contains-seen :
      (v : Bytes) (w : Value)
      → IsQueue w
      → contains v (queued w) ≡ true
      → contains v (queued (seen (lpush k g) j w)) ≡ true
  contains-seen v w h c = rw (queued-seen w h) (elim (Bool-cases (bytes_eq k j)) [
    | inl e ↦ rw e (elim (Bool-cases (bytes_eq g v)) [ inl f ↦ rw f refl | inr f ↦ rw f c ])
    | inr e ↦ rw e c
  ])

-- What is pushed is there.
pub contains-pushed :
    (k g : Bytes) (w : Value) → IsQueue w → contains g (queued (seen (lpush k g) k w)) ≡ true
contains-pushed k g w h =
    rw (queued-seen k g k w h) (rw (bytes_eq_refl k) (rw (bytes_eq_refl g) refl))
