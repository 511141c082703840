-- ===== src/ParseCommand/Store/Turn.antt =====
-- One turn of the loop of `parseClientMessage` over the recipients: what the turn leaves in Redis, and
-- what the turns behind it keep of that.
use push_server.Base.{
  ℕ, zero, suc, ◌+◌, ◌≤◌, ◌<◌, true, false, List, ◌∷◌, Option, some, Bytes, bytes_eq-false,
  get_elem?, ◌≡◌, ◌≢◌, refl, sym, ◌∙◌, ap, subst, arith,
}
use push_server.Redis.{Redis}
use push_server.Redis.Values.{absent, hash, lpush, contains}
use push_server.Redis.Conn.{idle, seen}
use push_server.MessageStorage.Keys.{content}
use push_server.MessageStorage.Records.{PushMessageInfo, ClientInfo}
use push_server.MessageStorage.Lookup.{client_at, IsKept}
use push_server.MessageStorage.{
  Environment, Outgoing, is_empty, id_or_guid, put_info, putmessageinfo2,
}
use push_server.MessageStorage.Routing.{
  IsQueue, queued, queue_key, message_hash, put_db, putmessageinfo2-exec_all, value-put_db,
  value-put_db_other, after-put_guid, route_undelayed, seen_ne,
}
use push_server.ParseCommand.Store.{Sender, outgoing}
use push_server.ParseCommand.Store.Kept.{
  QueueKey, queue_key-QueueKey, QueueKey-ne-content, IsQueue-seen, contains-seen, contains-pushed,
}

-- New ids name nothing else: they differ from one another, from the id of the whole message, from
-- every queue and from where a device is connected.
pub record AreFresh (messageid : Bytes) (outside : ℕ → Environment) : Type 0 where
  pub named : is_empty messageid ≡ false
  pub apart : (i j : ℕ) → (outside i).guid ≡ (outside j).guid → i ≡ j
  pub id_apart : (i : ℕ) → messageid ≢ (outside i).guid
  pub guid_queue : (i : ℕ) (j : Bytes) → QueueKey j → (outside i).guid ≢ j
  pub id_queue : (j : Bytes) → QueueKey j → messageid ≢ j
  pub guid_content : (i : ℕ) (d : Bytes) → (outside i).guid ≢ content d
  pub id_content : (d : Bytes) → messageid ≢ content d

module _ (R : Redis) (outside : ℕ → Environment) where
  -- Before turn `i`: queues hold lists, no device has an empty record, and the ids from the
  -- turn's own on are free.
  pub record IsReady (i : ℕ) (db : R.Db) : Type 0 where
    pub queues : (j : Bytes) → QueueKey j → IsQueue (R.value db j)
    pub kept : (d : Bytes) → IsKept (R.value db (content d))
    pub free : (k : ℕ) → i ≤ k → R.value db (outside k).guid ≡ absent

  module _ (sender : Sender) (text : Bytes) where
    -- The message of turn `k` for the device `d`, whose record was found in `db`, is in `db'`.
    abbrev pub IsStored : R.Db → R.Db → ℕ → Bytes → Type 0
    IsStored db db' k d =
        (R.value db' (outside k).guid ≡ hash (message_hash (outside k) (outgoing sender text d)))
        × (contains (outside k).guid
              (queued (R.value db' (queue_key d (client_at d (R.value db (content d))))))
            ≡ true)

    pub record AreStored (i : ℕ) (sendto : List Bytes) (db db' : R.Db) : Type 0 where
      pub early : (k : ℕ) → k < i → R.value db' (outside k).guid ≡ R.value db (outside k).guid
      pub records : (d : Bytes) → R.value db' (content d) ≡ R.value db (content d)
      pub grown :
          (j v : Bytes)
          → QueueKey j
          → contains v (queued (R.value db j)) ≡ true
          → contains v (queued (R.value db' j)) ≡ true
      pub each :
          (n k : ℕ) (d : Bytes) → k ≡ i + n → get_elem? sendto n ≡ some d → IsStored db db' k d

module _ (R : Redis) (messageid : Bytes) (outside : ℕ → Environment)
    (fresh : AreFresh messageid outside) (sender : Sender) (text : Bytes)
    (heap : PushMessageInfo) where
  id_lem : (i : ℕ) → id_or_guid messageid (outside i) ≡ messageid
  id_lem i = rw fresh.named refl

  module _ (i : ℕ) (to : Bytes) (db : R.Db) (ready : IsReady R outside i db) where
    abbrev pub q : Outgoing
    q = outgoing sender text to

    abbrev pub found : Option ClientInfo
    found = client_at to (R.value db (content to))

    abbrev pub queue : Bytes
    queue = queue_key to found

    abbrev pub step_db : R.Db
    step_db = put_db R (outside i) messageid q heap db (ready.kept to)

    value-step_db :
        (j : Bytes)
        → (outside i).guid ≢ j
        → messageid ≢ j
        → R.value step_db j ≡ seen (lpush queue (outside i).guid) j (R.value db j)
    value-step_db j g m =
        value-put_db_other R (outside i) messageid q heap db (ready.kept to) j g (rw (id_lem i) m)
        ∙ ap (λ c. seen c j (R.value db j)) (route_undelayed (outside i) q found refl)

    value-step_db-queue :
        (j : Bytes)
        → QueueKey j
        → R.value step_db j ≡ seen (lpush queue (outside i).guid) j (R.value db j)
    value-step_db-queue j h = value-step_db j (fresh.guid_queue i j h) (fresh.id_queue j h)

    value-step_db-content : (d : Bytes) → R.value step_db (content d) ≡ R.value db (content d)
    value-step_db-content d =
        value-step_db (content d) (fresh.guid_content i d) (fresh.id_content d)
        ∙ seen_ne (lpush queue (outside i).guid) (content d) _
            (bytes_eq-false _ _ (QueueKey-ne-content queue d (queue_key-QueueKey to found)))

    value-step_db-guid :
        (k : ℕ) → i ≢ k → R.value step_db (outside k).guid ≡ R.value db (outside k).guid
    value-step_db-guid k h =
        value-step_db (outside k).guid (λ e. h (fresh.apart i k e)) (fresh.id_apart k)
        ∙ seen_ne (lpush queue (outside i).guid) (outside k).guid _ (
            bytes_eq-false _ _
              (λ e. fresh.guid_queue k queue (queue_key-QueueKey to found) (sym e)))

    value-step_db_new : R.value step_db (outside i).guid ≡ hash (message_hash (outside i) q)
    value-step_db_new =
        value-put_db R (outside i) messageid q heap db (ready.kept to) (outside i).guid
        ∙ rw (ready.free i (omega arith)) (
            after-put_guid (outside i) messageid q found
              (bytes_eq-false (id_or_guid messageid (outside i)) (outside i).guid
                (rw (id_lem i) (fresh.id_apart i)))
              (rw (route_undelayed (outside i) q found refl) (
                bytes_eq-false queue (outside i).guid
                  (λ e. fresh.guid_queue i queue (queue_key-QueueKey to found) (sym e)))))

    pub step-IsReady : IsReady R outside (suc i) step_db
    step-IsReady = record {
      queues = λ j h.
          rw (value-step_db-queue j h)
            (IsQueue-seen queue (outside i).guid j (R.value db j) (ready.queues j h));
      kept = λ d. rw (value-step_db-content d) (ready.kept d);
      free = λ k h. value-step_db-guid k (λ e. absurd (omega arith)) ∙ ready.free k (omega arith);
    }

    -- What is in the queue of the recipient after its own turn.
    contains-step_db : contains (outside i).guid (queued (R.value step_db queue)) ≡ true
    contains-step_db = rw (value-step_db-queue queue (queue_key-QueueKey to found)) (
        contains-pushed queue (outside i).guid _ (ready.queues queue (queue_key-QueueKey to found)))

    -- The turn itself, and the turns of the others.
    step-each :
        (sendto : List Bytes) (db' : R.Db)
        → AreStored R outside sender text (suc i) sendto step_db db'
        → (n k : ℕ) (d : Bytes) → k ≡ i + n
        → get_elem? (to ∷ sendto) n ≡ some d
        → IsStored R outside sender text db db' k d
    step-each sendto db' st zero k d e h =
        let own : i ≡ k = omega arith in
        let it : to ≡ d = ground arith in
        subst (λ k. IsStored R outside sender text db db' k d) own
          (subst (IsStored R outside sender text db db' i) it (
            st.early i (omega arith) ∙ value-step_db_new,
            st.grown queue (outside i).guid (queue_key-QueueKey to found) contains-step_db,
          ))
    step-each sendto db' st (suc n) k d e h =
        let (kept, held) = st.each n k d (omega arith) h in
        (
          kept,
          subst
              (λ w.
                contains (outside k).guid (queued (R.value db' (queue_key d (client_at d w))))
                ≡ true)
              (value-step_db-content d) held,
        )

    pub step-AreStored :
        (sendto : List Bytes) (db' : R.Db)
        → AreStored R outside sender text (suc i) sendto step_db db'
        → AreStored R outside sender text i (to ∷ sendto) db db'
    step-AreStored sendto db' st = record {
      early = λ k h. st.early k (omega arith) ∙ value-step_db-guid k (λ e. absurd (omega arith));
      records = λ d. st.records d ∙ value-step_db-content d;
      grown = λ j v h c. st.grown j v h (
          rw (value-step_db-queue j h)
            (contains-seen queue (outside i).guid j v (R.value db j) (ready.queues j h) c));
      each = step-each sendto db' st;
    }

    pub step_run :
        putmessageinfo2 {R = R} (outside i) messageid q heap (idle db)
        ≡ some (put_info (outside i) messageid q heap, idle step_db)
    step_run = putmessageinfo2-exec_all R (outside i) messageid q heap db (ready.kept to)
