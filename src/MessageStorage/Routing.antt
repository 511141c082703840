-- ===== src/MessageStorage/Routing.antt =====
-- What `putmessageinfo2` of server/messagestorage.c leaves in Redis: the queue that the message
-- goes to, the message's hash, and every other key as it was.
use push_server.Base.{
  Bool, false, List, [], ◌∷◌, ◌++◌, Option, none, some, Bytes, text, bytes_eq, bytes_eq_refl,
  bytes_eq-false, Bool-cases, inl, inr, ◌≡◌, ◌≢◌, refl, ◌∙◌, ap, ◌==◌, if◌then◌else◌,
}
use push_server.Base.Decimal.{dec}
use push_server.Redis.{Redis}
use push_server.Redis.Values.{Value, absent, list, hash, Command, lpush, hset, sadd, expire, key_of}
use push_server.Redis.Conn.{idle, exec_all, value-exec_all, seen, after, bind-some}
use push_server.MessageStorage.Keys.{pushlist, noread, content}
use push_server.MessageStorage.Records.{PushMessageInfo, ClientInfo}
use push_server.MessageStorage.Lookup.{
  client_at, lookups, IsKept, get_client_info-client_at, after-lookups,
}
use push_server.MessageStorage.{
  Environment, Outgoing, id_or_guid, route, put_info, put_body, putmessageinfo2, get_client_info,
  message_type_txt,
}

abbrev pub is_text : Outgoing → Bool
is_text q = q.messagetype == message_type_txt

-- The commands of one call after the lookup, in order.
abbrev pub body_commands : Environment → Outgoing → List Command
body_commands e q =
    if is_text q
    then hset e.guid (text "content") q.message ∷ []
    else (hset e.guid (text "orgFileName") q.file_name
        ∷ hset e.guid (text "content") q.new_filename
        ∷ [])

abbrev pub put_commands : Environment → Bytes → Outgoing → Option ClientInfo → List Command
put_commands e messageid q client =
    sadd (id_or_guid messageid e) e.guid
    ∷ expire (id_or_guid messageid e) q.timeout
    ∷ route e q client
    ∷ hset e.guid (text "from") q.from
    ∷ hset e.guid (text "to") q.tochar
    ∷ hset e.guid (text "fromip") q.fromip
    ∷ hset e.guid (text "state") (text "0")
    ∷ (body_commands e q
        ++ (hset e.guid (text "sendtime") e.time
            ∷ hset e.guid (text "retrycount") (text "0")
            ∷ hset e.guid (text "messagetype") (dec q.messagetype)
            ∷ hset e.guid (text "submessageid") e.guid
            ∷ hset e.guid (text "messageid") e.messageid_address
            ∷ expire e.guid q.timeout
            ∷ []))

module _ (R : Redis) where
  -- The whole call as a run of commands: every reply is read, and none is left.
  pub putmessageinfo2-exec_all :
      (e : Environment) (messageid : Bytes) (q : Outgoing) (old : PushMessageInfo) (db : R.Db)
      → IsKept (R.value db (content q.tochar))
      → putmessageinfo2 {R = R} e messageid q old (idle db)
        ≡ some (
          put_info e messageid q old,
          idle (
              exec_all R
                (put_commands e messageid q (client_at q.tochar (R.value db (content q.tochar))))
                (exec_all R (lookups (content q.tochar) (R.value db (content q.tochar))) db)),
        )
  unfolding putmessageinfo2 put_body
  putmessageinfo2-exec_all e messageid q old db k =
      bind-some (get_client_info (some q.tochar)) _ (get_client_info-client_at R q.tochar db k)
      ∙ elim (Bool-cases (is_text q)) [ inl h ↦ rw h refl | inr h ↦ rw h refl ]

-- A list key, which is absent while it is empty.
abbrev pub IsQueue : Value → Type 0
IsQueue absent = Unit
IsQueue (list xs) = Unit
IsQueue _ = ⊥

abbrev pub queued : Value → List Bytes
queued (list xs) = xs
queued _ = []

-- Where a message without delay goes: to the server of a connected device, or to its unread list.
abbrev pub queue_key : Bytes → Option ClientInfo → Bytes
queue_key tochar none = noread tochar
queue_key tochar (some c) = pushlist c.serverid

abbrev pub body_fields : Outgoing → List (Bytes × Bytes)
body_fields q =
    if is_text q
    then (text "content", q.message) ∷ []
    else (text "orgFileName", q.file_name) ∷ (text "content", q.new_filename) ∷ []

-- The hash of a message, in the order in which its fields are set.
abbrev pub message_hash : Environment → Outgoing → List (Bytes × Bytes)
message_hash e q =
    (text "from", q.from)
    ∷ (text "to", q.tochar)
    ∷ (text "fromip", q.fromip)
    ∷ (text "state", text "0")
    ∷ (body_fields q
        ++ ((text "sendtime", e.time)
            ∷ (text "retrycount", text "0")
            ∷ (text "messagetype", dec q.messagetype)
            ∷ (text "submessageid", e.guid)
            ∷ (text "messageid", e.messageid_address)
            ∷ []))

module _ (e : Environment) (messageid : Bytes) (q : Outgoing) (c : Option ClientInfo) where
  pub after-put_other :
      (j : Bytes) (w : Value)
      → bytes_eq e.guid j ≡ false
      → bytes_eq (id_or_guid messageid e) j ≡ false
      → after (put_commands e messageid q c) j w ≡ seen (route e q c) j w
  after-put_other j w g i = elim (Bool-cases (is_text q)) [
    | inl h ↦ rw h (rw g (rw i refl))
    | inr h ↦ rw h (rw g (rw i refl))
  ]

  pub after-put_guid :
      bytes_eq (id_or_guid messageid e) e.guid ≡ false
      → bytes_eq (key_of (route e q c)) e.guid ≡ false
      → after (put_commands e messageid q c) e.guid absent ≡ hash (message_hash e q)
  after-put_guid i r = elim (Bool-cases (is_text q)) [
    | inl h ↦ rw h (rw i (rw r (rw (bytes_eq_refl e.guid) refl)))
    | inr h ↦ rw h (rw i (rw r (rw (bytes_eq_refl e.guid) refl)))
  ]

module _ (e : Environment) (q : Outgoing) where
  pub route_undelayed :
      (c : Option ClientInfo) → q.priority ≡ 0 → route e q c ≡ lpush (queue_key q.tochar c) e.guid
  unfolding route
  route_undelayed none p = refl
  route_undelayed (some c) p = rw p refl

pub seen-lpush : (k v : Bytes) (w : Value) → IsQueue w → seen (lpush k v) k w ≡ list (v ∷ queued w)
seen-lpush k v absent h = rw (bytes_eq_refl k) refl
seen-lpush k v (list xs) h = rw (bytes_eq_refl k) refl
seen-lpush k v _ h = absurd h

pub seen_ne : (c : Command) (j : Bytes) (w : Value) → bytes_eq (key_of c) j ≡ false → seen c j w ≡ w
seen_ne c j w h = rw h refl

module _ (R : Redis) (e : Environment) (messageid : Bytes) (q : Outgoing) (old : PushMessageInfo)
    (db : R.Db) (k : IsKept (R.value db (content q.tochar))) where
  -- What the recipient's key says of its connection.
  abbrev pub recipient : Option ClientInfo
  recipient = client_at q.tochar (R.value db (content q.tochar))

  abbrev pub put_db : R.Db
  put_db =
      exec_all R (put_commands e messageid q recipient)
        (exec_all R (lookups (content q.tochar) (R.value db (content q.tochar))) db)

  pub value-put_db :
      (j : Bytes) → R.value put_db j ≡ after (put_commands e messageid q recipient) j (R.value db j)
  value-put_db j =
      value-exec_all R (put_commands e messageid q recipient) _ j
      ∙ ap (after (put_commands e messageid q recipient) j) (
          value-exec_all R (lookups (content q.tochar) (R.value db (content q.tochar))) db j
          ∙ after-lookups (content q.tochar) _ j (R.value db j))

  pub value-put_db_other :
      (j : Bytes)
      → e.guid ≢ j
      → id_or_guid messageid e ≢ j
      → R.value put_db j ≡ seen (route e q recipient) j (R.value db j)
  value-put_db_other j g i =
      value-put_db j
      ∙ after-put_other e messageid q recipient j (R.value db j) (bytes_eq-false _ _ g)
          (bytes_eq-false _ _ i)

  -- A message without delay is put in front of the queue of the recipient's server if the
  -- recipient is connected, and in front of its unread list if not. A key `j` that is not that
  -- queue, not the message's own hash and not the set of its message id is left as it was, and
  -- every reply is read. The queue's key holds a list or nothing and is neither the new message's
  -- key nor its message id; the recipient's key holds no empty hash.
  pub putmessageinfo2-queue :
      (j : Bytes)
      → q.priority ≡ 0
      → IsQueue (R.value db (queue_key q.tochar recipient))
      → e.guid ≢ queue_key q.tochar recipient
      → id_or_guid messageid e ≢ queue_key q.tochar recipient
      → e.guid ≢ j
      → id_or_guid messageid e ≢ j
      → queue_key q.tochar recipient ≢ j
      → (db' : R.Db) × (putmessageinfo2 {R = R} e messageid q old (idle db)
          ≡ some (put_info e messageid q old, idle db'))
        × (R.value db' (queue_key q.tochar recipient)
            ≡ list (e.guid ∷ queued (R.value db (queue_key q.tochar recipient))))
        × (R.value db' j ≡ R.value db j)
  putmessageinfo2-queue j p h g i gj ij kj = (
    put_db,
    putmessageinfo2-exec_all R e messageid q old db k,
    value-put_db_other (queue_key q.tochar recipient) g i
        ∙ rw (route_undelayed e q recipient p)
            (seen-lpush (queue_key q.tochar recipient) e.guid _ h),
    value-put_db_other j gj ij
        ∙ seen_ne (route e q recipient) j (R.value db j)
            (rw (route_undelayed e q recipient p) (bytes_eq-false _ _ kj)),
  )

  -- Whatever the priority, a message key that was not there before holds the sender, the
  -- recipient, the body and the other fields of the message afterwards, if it is neither the
  -- message id nor the key of the queue that the message goes to, and the recipient's key holds
  -- no empty hash.
  pub putmessageinfo2-hash :
      R.value db e.guid ≡ absent
      → id_or_guid messageid e ≢ e.guid
      → key_of (route e q recipient) ≢ e.guid
      → (db' : R.Db) × (putmessageinfo2 {R = R} e messageid q old (idle db)
          ≡ some (put_info e messageid q old, idle db'))
        × (R.value db' e.guid ≡ hash (message_hash e q))
  putmessageinfo2-hash a i r = (
    put_db,
    putmessageinfo2-exec_all R e messageid q old db k,
    value-put_db e.guid
        ∙ rw a
            (after-put_guid e messageid q recipient (bytes_eq-false _ _ i) (bytes_eq-false _ _ r)),
  )
