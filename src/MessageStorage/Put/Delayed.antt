-- ===== src/MessageStorage/Put/Delayed.antt =====
-- `getDelyMessage` of server/messagestorage.c waits for a string, and Redis answers a query by
-- score with an array.
use push_server.Base.{ℕ, [], some, Bytes, bytes_eq, Bool-cases, inl, inr, ◌≡◌, refl, ◌∙◌}
use push_server.Redis.{Redis}
use push_server.Redis.Values.{Value, absent, watch, zrangebyscore, update, reply_of}
use push_server.Redis.Conn.{idle}
use push_server.MessageStorage.Keys.{dely_pushlist_set}
use push_server.MessageStorage.Put.{get_dely_message, take_delayed}

module _ (R : Redis) (now : ℕ) (messageid : Bytes) (db : R.Db) where
  abbrev watched : R.Db
  watched = R.exec (watch dely_pushlist_set) db

  abbrev asked : R.Db
  asked = R.exec (zrangebyscore dely_pushlist_set now) watched

  -- A query by score is answered by an array or an error.
  take_delayed-reply :
      (w : Value)
      → take_delayed {R = R} (reply_of (zrangebyscore dely_pushlist_set now) w) (idle asked)
        ≡ some (([], 0), idle asked)
  take_delayed-reply absent = refl
  take_delayed-reply _ = refl

  value-watched : (j : Bytes) → R.value watched j ≡ R.value db j
  value-watched j =
      R.value-exec (watch dely_pushlist_set) db j
      ∙ elim (Bool-cases (bytes_eq dely_pushlist_set j)) [
        | inl e ↦ rw e (kept (R.value db j))
        | inr e ↦ rw e refl
      ]
    where
      kept : (w : Value) → update (watch dely_pushlist_set) w ≡ w
      kept absent = refl
      kept _ = refl

  value-asked : (j : Bytes) → R.value asked j ≡ R.value watched j
  value-asked j =
      R.value-exec (zrangebyscore dely_pushlist_set now) watched j
      ∙ elim (Bool-cases (bytes_eq dely_pushlist_set j)) [
        | inl e ↦ rw e (kept (R.value watched j))
        | inr e ↦ rw e refl
      ]
    where
      kept : (w : Value) → update (zrangebyscore dely_pushlist_set now) w ≡ w
      kept absent = refl
      kept _ = refl

  -- No message of the delayed queue is ever taken out: whatever the queue holds and however late
  -- it is, the answer is that there is none, and no key changes.
  pub get_dely_message-never :
      (j : Bytes)
      → (db' : R.Db) × (get_dely_message {R = R} now (some messageid) (idle db)
          ≡ some (([], 0), idle db'))
        × (R.value db' j ≡ R.value db j)
  unfolding get_dely_message
  get_dely_message-never j = (
    asked,
    rw (R.reply-value (zrangebyscore dely_pushlist_set now) watched) (take_delayed-reply _),
    value-asked j ∙ value-watched j,
  )
