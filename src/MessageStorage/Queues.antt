-- ===== src/MessageStorage/Queues.antt =====
-- The queues of server/messagestorage.c: `saveInPushlist` and `getNextMessageId` make a queue that
-- serves the oldest message first, and `messageIsSendOK2` takes a message out of every queue.
use mathlib.Core.List.{reverse, reverse-cons}
use push_server.Base.{
  ℕ, zero, suc, false, List, [], ◌∷◌, ◌++◌, some, Bytes, text, bytes_eq, bytes_eq_refl,
  bytes_eq-false, length, append-nil, Bool-cases, inl, inr, ◌≡◌, ◌≢◌, refl, sym, ◌∙◌, ap,
  append_assoc,
}
use push_server.Redis.{Redis}
use push_server.Redis.Values.{
  Value, absent, list, hash, Command, lpush, rpop, lrem, hset, update, init, last?, remove,
  contains, list_or_absent, set_field, reply_of, answer, bulk,
}
use push_server.Redis.Conn.{M, pure, idle, exec_all, value-exec_all, bind-some, ◌>>=◌, ◌>>◌}
use push_server.MessageStorage.Keys.{
  pushlist, noread, read, pushlist-ne-noread, pushlist-ne-read, noread-ne-read,
}
use push_server.MessageStorage.Records.{PushMessageInfo}
use push_server.MessageStorage.Routing.{IsQueue, queued, seen-lpush}
use push_server.MessageStorage.{
  save_in_pushlist, get_next_message_id, message_is_send_ok2, string_of,
}

last?-snoc : (xs : List Bytes) (x : Bytes) → last? (xs ++ x ∷ []) ≡ some x
last?-snoc [] x = refl
last?-snoc (y ∷ []) x = refl
last?-snoc (y ∷ z ∷ zs) x = last?-snoc (z ∷ zs) x

init-snoc : (xs : List Bytes) (x : Bytes) → init (xs ++ x ∷ []) ≡ xs
init-snoc [] x = refl
init-snoc (y ∷ []) x = refl
init-snoc (y ∷ z ∷ zs) x = ap (λ (l : List Bytes). y ∷ l) (init-snoc (z ∷ zs) x)

update-lpush :
    (k x : Bytes) (xs : List Bytes) → update (lpush k x) (list_or_absent xs) ≡ list (x ∷ xs)
update-lpush k x [] = refl
update-lpush k x (y ∷ ys) = refl

pub update-rpop-snoc :
    (k x : Bytes) (xs : List Bytes)
    → update (rpop k) (list_or_absent (xs ++ x ∷ [])) ≡ list_or_absent xs
update-rpop-snoc k x [] = refl
update-rpop-snoc k x (y ∷ ys) = ap list_or_absent (init-snoc (y ∷ ys) x)

reply-rpop-snoc :
    (k x : Bytes) (xs : List Bytes) → reply_of (rpop k) (list_or_absent (xs ++ x ∷ [])) ≡ bulk x
reply-rpop-snoc k x [] = refl
reply-rpop-snoc k x (y ∷ ys) = ap answer (last?-snoc (y ∷ ys) x)

module _ {R : Redis} (serverid : ℕ) where
  -- Messages put in the queue of a server one after the other.
  pub save_all : List Bytes → M R (Unit {0})
  save_all [] = pure tt
  save_all (x ∷ xs) = save_in_pushlist x serverid >> save_all xs

  -- As many calls of `getNextMessageId` as the number says, and what they return.
  pub next_all : ℕ → M R (List Bytes)
  next_all zero = pure []
  next_all (suc n) = do r ← get_next_message_id serverid; rest ← next_all n; pure (r.0 ∷ rest)

module _ (R : Redis) (serverid : ℕ) where
  save_all-idle :
      (ids : List Bytes) (db : R.Db) (xs : List Bytes)
      → R.value db (pushlist serverid) ≡ list_or_absent xs
      → (db' : R.Db) × (save_all {R = R} serverid ids (idle db) ≡ some (tt, idle db'))
        × (R.value db' (pushlist serverid) ≡ list_or_absent (reverse ids ++ xs))
  unfolding save_all save_in_pushlist
  save_all-idle [] db xs v = (db, refl, v)
  save_all-idle (x ∷ ids) db xs v =
      let (db', run, v') = save_all-idle ids (R.exec (lpush (pushlist serverid) x) db) (x ∷ xs) (
        R.value-exec (lpush (pushlist serverid) x) db (pushlist serverid)
        ∙ rw (bytes_eq_refl (pushlist serverid), v) (update-lpush (pushlist serverid) x xs)) in
      (
        db',
        run,
        v' ∙ ap list_or_absent (sym (rw (reverse-cons x ids) (append_assoc (reverse ids) _ xs))),
      )

  -- The oldest message is at the end of the list.
  pub get_next_message_id-snoc :
      (db : R.Db) (x : Bytes) (xs : List Bytes)
      → R.value db (pushlist serverid) ≡ list_or_absent (xs ++ x ∷ [])
      → get_next_message_id {R = R} serverid (idle db)
        ≡ some (string_of (bulk x), idle (R.exec (rpop (pushlist serverid)) db))
  unfolding get_next_message_id
  get_next_message_id-snoc db x xs w =
      ap (λ r. some (string_of r, idle (R.exec (rpop (pushlist serverid)) db)))
        (R.reply-value (rpop (pushlist serverid)) db
          ∙ ap (reply_of (rpop (pushlist serverid))) w
          ∙ reply-rpop-snoc (pushlist serverid) x xs)

  next_all-idle :
      (ids : List Bytes) (db : R.Db)
      → R.value db (pushlist serverid) ≡ list_or_absent (reverse ids)
      → (db' : R.Db) × (next_all {R = R} serverid (length ids) (idle db) ≡ some (ids, idle db'))
        × (R.value db' (pushlist serverid) ≡ absent)
  unfolding next_all
  next_all-idle [] db v = (db, refl, v)
  next_all-idle (x ∷ ids) db v =
      let w : R.value db (pushlist serverid) ≡ list_or_absent (reverse ids ++ x ∷ []) =
        v ∙ ap list_or_absent (reverse-cons x ids) in
      let (db', run, v') = next_all-idle ids (R.exec (rpop (pushlist serverid)) db) (
        R.value-exec (rpop (pushlist serverid)) db (pushlist serverid)
        ∙ rw (bytes_eq_refl (pushlist serverid), w)
            (update-rpop-snoc (pushlist serverid) x (reverse ids))) in
      (
        db',
        bind-some (get_next_message_id serverid)
              (λ r. next_all serverid (length ids) >>= λ rest. pure (r.0 ∷ rest))
              (get_next_message_id-snoc db x (reverse ids) w)
            ∙ bind-some (next_all serverid (length ids)) (λ rest. pure (x ∷ rest)) run,
        v',
      )

  -- A server's queue is first in, first out: messages saved in an empty queue come back, each once
  -- and in the order in which they were saved, and leave it empty.
  pub next_all-save_all :
      (ids : List Bytes) (db : R.Db)
      → R.value db (pushlist serverid) ≡ absent
      → (db' : R.Db) × ((save_all {R = R} serverid ids >> next_all serverid (length ids)) (idle db)
          ≡ some (ids, idle db'))
        × (R.value db' (pushlist serverid) ≡ absent)
  next_all-save_all ids db v =
      let (mid, saved, u) = save_all-idle ids db [] v in
      let (db', run, w) =
        next_all-idle ids mid (u ∙ ap list_or_absent (append-nil (reverse ids))) in
      (db', bind-some (save_all serverid ids) (λ _. next_all serverid (length ids)) saved ∙ run, w)

pub contains-remove : (v : Bytes) (xs : List Bytes) → contains v (remove v xs) ≡ false
contains-remove v [] = refl
contains-remove v (x ∷ xs) = elim (Bool-cases (bytes_eq x v)) [
  | inl h ↦ rw h (contains-remove v xs)
  | inr h ↦ rw h (rw h (contains-remove v xs))
]

pub queued-list_or_absent : (xs : List Bytes) → queued (list_or_absent xs) ≡ xs
queued-list_or_absent [] = refl
queued-list_or_absent (x ∷ xs) = refl

queued-lrem :
    (k v : Bytes) (w : Value) → IsQueue w → contains v (queued (update (lrem k v) w)) ≡ false
queued-lrem k v absent h = refl
queued-lrem k v (list xs) h = rw (queued-list_or_absent (remove v xs)) (contains-remove v xs)
queued-lrem k v _ h = absurd h

abbrev acknowledge : PushMessageInfo → ℕ → List Command
acknowledge m serverid =
    hset m.submessageid (text "state") (text "1")
    ∷ lrem (pushlist serverid) m.submessageid
    ∷ lrem (noread m.to) m.submessageid
    ∷ lpush (read m.to) m.submessageid
    ∷ []

module _ (R : Redis) (m : PushMessageInfo) (serverid : ℕ) (db : R.Db) where
  -- Once a message is acknowledged it is not in the queue of its server and not in the unread
  -- list of its recipient, it is in front of the recipient's read list, and its state is 1; the
  -- connection owes no reply. The id of the message is the key of a hash and none of the three
  -- keys, which hold lists or nothing.
  pub message_is_send_ok2-acknowledged :
      (h : List (Bytes × Bytes))
      → R.value db m.submessageid ≡ hash h
      → IsQueue (R.value db (pushlist serverid))
      → IsQueue (R.value db (noread m.to))
      → IsQueue (R.value db (read m.to))
      → m.submessageid ≢ pushlist serverid
      → m.submessageid ≢ noread m.to
      → m.submessageid ≢ read m.to
      → (db' : R.Db) × (message_is_send_ok2 {R = R} (some m) serverid (idle db)
          ≡ some (tt, idle db'))
        × (contains m.submessageid (queued (R.value db' (pushlist serverid))) ≡ false)
        × (contains m.submessageid (queued (R.value db' (noread m.to))) ≡ false)
        × (R.value db' (read m.to) ≡ list (m.submessageid ∷ queued (R.value db (read m.to))))
        × (R.value db' m.submessageid ≡ hash (set_field (text "state") (text "1") h))
  unfolding message_is_send_ok2
  message_is_send_ok2-acknowledged h s p n r kp kn kr = (
    exec_all R (acknowledge m serverid) db,
    refl,
    rw (value-exec_all R (acknowledge m serverid) db (pushlist serverid)) (
        rw
          (
            bytes_eq-false _ _ kp,
            bytes_eq_refl (pushlist serverid),
            bytes_eq-false _ _ (λ e. pushlist-ne-noread serverid m.to (sym e)),
            bytes_eq-false _ _ (λ e. pushlist-ne-read serverid m.to (sym e)),
          )
          (queued-lrem (pushlist serverid) m.submessageid _ p)),
    rw (value-exec_all R (acknowledge m serverid) db (noread m.to)) (
        rw
          (
            bytes_eq-false _ _ kn,
            bytes_eq-false _ _ (pushlist-ne-noread serverid m.to),
            bytes_eq_refl (noread m.to),
            bytes_eq-false _ _ (λ e. noread-ne-read m.to (sym e)),
          )
          (queued-lrem (noread m.to) m.submessageid _ n)),
    rw (value-exec_all R (acknowledge m serverid) db (read m.to)) (
        rw
          (
            bytes_eq-false _ _ kr,
            bytes_eq-false _ _ (pushlist-ne-read serverid m.to),
            bytes_eq-false _ _ (noread-ne-read m.to),
          )
          (seen-lpush (read m.to) m.submessageid _ r)),
    rw (value-exec_all R (acknowledge m serverid) db m.submessageid) (
        rw
          (
            bytes_eq_refl m.submessageid,
            s,
            bytes_eq-false _ _ (λ e. kp (sym e)),
            bytes_eq-false _ _ (λ e. kn (sym e)),
            bytes_eq-false _ _ (λ e. kr (sym e)),
          )
          refl),
  )
