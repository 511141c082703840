-- ===== src/MessageStorage/Put/Equivalence.antt =====
-- `putmessageinfo` and `putmessageinfo2` of server/messagestorage.c leave the same in Redis, but
-- for the message id that only the second one keeps.
use push_server.Base.{
  List, [], ◌∷◌, ◌++◌, Option, some, Bytes, text, bytes_eq_refl, bytes_eq-false, Bool-cases, inl,
  inr, ◌≡◌, ◌≢◌, refl, sym, ◌∙◌, ap,
}
use push_server.Base.Decimal.{dec}
use push_server.Redis.{Redis}
use push_server.Redis.Values.{absent, hash, Command, hset, expire, key_of}
use push_server.Redis.Conn.{idle, exec_all, value-exec_all, seen, after, bind-some}
use push_server.MessageStorage.Keys.{content}
use push_server.MessageStorage.Records.{PushMessageInfo, ClientInfo}
use push_server.MessageStorage.Lookup.{
  client_at, lookups, IsKept, get_client_info-client_at, after-lookups,
}
use push_server.MessageStorage.{
  Environment, Outgoing, id_or_guid, route, put_info, put_body, putmessageinfo2, get_client_info,
}
use push_server.MessageStorage.Routing.{
  is_text, body_commands, body_fields, message_hash, put_db, putmessageinfo2-exec_all, value-put_db,
  value-put_db_other, after-put_guid,
}
use push_server.MessageStorage.Put.{put_info_alone, putmessageinfo}

abbrev put_commands_alone : Environment → Outgoing → Option ClientInfo → List Command
put_commands_alone e q client =
    route e q client
    ∷ hset e.guid (text "from") q.from
    ∷ hset e.guid (text "to") q.tochar
    ∷ hset e.guid (text "fromip") q.fromip
    ∷ hset e.guid (text "state") (text "0")
    ∷ (body_commands e q
        ++ (hset e.guid (text "sendtime") e.time
            ∷ hset e.guid (text "retrycount") (text "0")
            ∷ hset e.guid (text "messagetype") (dec q.messagetype)
            ∷ hset e.guid (text "submessageid") e.guid
            ∷ expire e.guid q.timeout
            ∷ []))

-- The hash of a message without its message id.
abbrev pub message_hash_alone : Environment → Outgoing → List (Bytes × Bytes)
message_hash_alone e q =
    (text "from", q.from)
    ∷ (text "to", q.tochar)
    ∷ (text "fromip", q.fromip)
    ∷ (text "state", text "0")
    ∷ (body_fields q
        ++ ((text "sendtime", e.time)
            ∷ (text "retrycount", text "0")
            ∷ (text "messagetype", dec q.messagetype)
            ∷ (text "submessageid", e.guid)
            ∷ []))

module _ (R : Redis) (e : Environment) (messageid : Bytes) (q : Outgoing) (old : PushMessageInfo)
    (db : R.Db) (k : IsKept (R.value db (content q.tochar))) where
  abbrev to_client : Option ClientInfo
  to_client = client_at q.tochar (R.value db (content q.tochar))

  abbrev alone_db : R.Db
  alone_db =
      exec_all R (put_commands_alone e q to_client)
        (exec_all R (lookups (content q.tochar) (R.value db (content q.tochar))) db)

  putmessageinfo-exec_all :
      putmessageinfo {R = R} e q old (idle db) ≡ some (put_info_alone e q old, idle alone_db)
  unfolding putmessageinfo put_body
  putmessageinfo-exec_all =
      bind-some (get_client_info (some q.tochar)) _ (get_client_info-client_at R q.tochar db k)
      ∙ elim (Bool-cases (is_text q)) [ inl h ↦ rw h refl | inr h ↦ rw h refl ]

  value-alone_db :
      (j : Bytes) → R.value alone_db j ≡ after (put_commands_alone e q to_client) j (R.value db j)
  value-alone_db j =
      value-exec_all R (put_commands_alone e q to_client) _ j
      ∙ ap (after (put_commands_alone e q to_client) j) (
          value-exec_all R (lookups (content q.tochar) (R.value db (content q.tochar))) db j
          ∙ after-lookups (content q.tochar) _ j (R.value db j))

  value-alone_db_other :
      (j : Bytes) → e.guid ≢ j → R.value alone_db j ≡ seen (route e q to_client) j (R.value db j)
  value-alone_db_other j g = value-alone_db j ∙ elim (Bool-cases (is_text q)) [
    | inl h ↦ rw h (rw (bytes_eq-false _ _ g) refl)
    | inr h ↦ rw h (rw (bytes_eq-false _ _ g) refl)
  ]

  value-alone_db_guid :
      R.value db e.guid ≡ absent
      → key_of (route e q to_client) ≢ e.guid
      → R.value alone_db e.guid ≡ hash (message_hash_alone e q)
  value-alone_db_guid a r =
      value-alone_db e.guid
      ∙ rw a (elim (Bool-cases (is_text q)) [
        | inl h ↦ rw h (rw (bytes_eq-false _ _ r) (rw (bytes_eq_refl e.guid) refl))
        | inr h ↦ rw h (rw (bytes_eq-false _ _ r) (rw (bytes_eq_refl e.guid) refl))
      ])

  message_hash_lem :
      message_hash e q ≡ message_hash_alone e q ++ (text "messageid", e.messageid_address) ∷ []
  message_hash_lem = elim (Bool-cases (is_text q)) [ inl h ↦ rw h refl | inr h ↦ rw h refl ]

  -- `putmessageinfo` and `putmessageinfo2` are the same to every key `j` but the message id and
  -- the new message: both return with every reply read, and the key holds the same after either.
  -- The new message, if its key was free, holds the same fields after either in the same order,
  -- and after `putmessageinfo2` the field "messageid" behind them. The recipient's key holds no
  -- empty hash, and the key of the new message is neither the message id nor the key of the queue
  -- that the message goes to.
  pub putmessageinfo-putmessageinfo2 :
      (j : Bytes)
      → R.value db e.guid ≡ absent
      → id_or_guid messageid e ≢ e.guid
      → key_of (route e q to_client) ≢ e.guid
      → e.guid ≢ j
      → id_or_guid messageid e ≢ j
      → (one : R.Db) × (two : R.Db) × (putmessageinfo {R = R} e q old (idle db)
          ≡ some (put_info_alone e q old, idle one))
        × (putmessageinfo2 {R = R} e messageid q old (idle db)
            ≡ some (put_info e messageid q old, idle two))
        × (R.value one j ≡ R.value two j)
        × (h : List (Bytes × Bytes)) × (R.value one e.guid ≡ hash h)
        × (R.value two e.guid ≡ hash (h ++ (text "messageid", e.messageid_address) ∷ []))
  putmessageinfo-putmessageinfo2 j a i r g m = (
    alone_db,
    put_db R e messageid q old db k,
    putmessageinfo-exec_all,
    putmessageinfo2-exec_all R e messageid q old db k,
    value-alone_db_other j g ∙ sym (value-put_db_other R e messageid q old db k j g m),
    message_hash_alone e q,
    value-alone_db_guid a r,
    value-put_db R e messageid q old db k e.guid
        ∙ rw a (
            after-put_guid e messageid q to_client (bytes_eq-false _ _ i) (bytes_eq-false _ _ r)
            ∙ ap hash message_hash_lem),
  )
