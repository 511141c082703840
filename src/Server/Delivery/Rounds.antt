-- ===== src/Server/Delivery/Rounds.antt =====
-- What a round of `pushlist_send_thread` of server/server.c does with the oldest message.
use push_server.Base.{
  ℕ, List, [], ◌∷◌, ◌++◌, none, some, Bytes, bytes_eq_refl, bytes_eq-false, get_elem?, ◌≡◌, ◌≢◌,
  refl, sym, ap, ◌∙◌,
}
use push_server.Redis.{Redis}
use push_server.Redis.Values.{list, hash, rpop, lpush, list_or_absent, flatten}
use push_server.Redis.Conn.{idle, exec_all, value-exec_all, seen, bind-some}
use push_server.MessageStorage.Keys.{
  pushlist, noread, content, pushlist-ne-content, pushlist-ne-noread,
}
use push_server.MessageStorage.Records.{PushMessageInfo, ClientInfo, no_message, scan_message}
use push_server.MessageStorage.Lookup.{
  client_at, lookups, IsKept, after-lookups, get_client_info-value, getmessageinfo-value,
}
use push_server.MessageStorage.Routing.{IsQueue, queued, seen-lpush}
use push_server.MessageStorage.Queues.{get_next_message_id-snoc, update-rpop-snoc}
use push_server.MessageStorage.{
  get_next_message_id, getmessageinfo, get_client_info, save_in_noread,
}
use push_server.Server.Table.{Client, Clients}
use push_server.Server.Delivery.{saved, to_place, to_socket, to_client, deliver, next, push_round}

module _ (R : Redis) (t : Clients) (freed : Bytes) (serverid : ℕ) (db : R.Db) (c : ℕ) (cs : Bytes)
    (xs : List Bytes) (h : List (Bytes × Bytes)) where
  -- The id of the oldest message, which is not empty.
  abbrev id : Bytes
  id = c ∷ cs

  abbrev taken_db : R.Db
  taken_db = R.exec (rpop (pushlist serverid)) db

  abbrev m : PushMessageInfo
  m = scan_message (flatten h) no_message

  -- Another key after the message was taken off the queue.
  value-taken_db : (j : Bytes) → pushlist serverid ≢ j → R.value taken_db j ≡ R.value db j
  value-taken_db j n = R.value-exec (rpop (pushlist serverid)) db j ∙ rw (bytes_eq-false _ _ n) refl

  abbrev read_db : R.Db
  read_db = exec_all R (lookups id (hash h)) taken_db

  value-read_db : (j : Bytes) → R.value read_db j ≡ R.value taken_db j
  value-read_db j =
      value-exec_all R (lookups id (hash h)) taken_db j ∙ after-lookups id (hash h) j _

  abbrev asked_db : R.Db
  asked_db = exec_all R (lookups (content m.to) (R.value db (content m.to))) read_db

  value-asked_db : (j : Bytes) → R.value asked_db j ≡ R.value taken_db j
  value-asked_db j =
      value-exec_all R (lookups (content m.to) (R.value db (content m.to))) read_db j
      ∙ after-lookups (content m.to) (R.value db (content m.to)) j _
      ∙ value-read_db j

  -- The round up to the question where the recipient is.
  push_round-to_client :
      R.value db (pushlist serverid) ≡ list_or_absent (xs ++ id ∷ [])
      → R.value db id ≡ hash h
      → IsKept (hash h)
      → IsKept (R.value db (content m.to))
      → pushlist serverid ≢ id
      → push_round {R = R} t freed serverid (idle db)
        ≡ to_client {R = R} t freed id m
            (client_at m.to (R.value db (content m.to)))
            (idle asked_db)
  unfolding push_round
  push_round-to_client q v k l n =
      bind-some (get_next_message_id serverid) (next t freed)
        (get_next_message_id-snoc R serverid db id xs q)
      ∙ bind-some (getmessageinfo (some id)) (deliver t freed id)
          (getmessageinfo-value R id taken_db (hash h) (value-taken_db id n ∙ v) k)
      ∙ bind-some (get_client_info (some m.to)) (to_client t freed id m) (
          get_client_info-value R m.to read_db (R.value db (content m.to))
            (value-read_db (content m.to)
              ∙ value-taken_db (content m.to) (pushlist-ne-content serverid m.to))
            l)

  -- The queue afterwards.
  value-asked_db_queue :
      R.value db (pushlist serverid) ≡ list_or_absent (xs ++ id ∷ [])
      → R.value asked_db (pushlist serverid) ≡ list_or_absent xs
  value-asked_db_queue q =
      value-asked_db (pushlist serverid)
      ∙ R.value-exec (rpop (pushlist serverid)) db (pushlist serverid)
      ∙ rw (bytes_eq_refl (pushlist serverid), q) (update-rpop-snoc (pushlist serverid) id xs)

  -- The id saved for a device.
  abbrev saved_db : Bytes → R.Db
  saved_db d = R.exec (lpush (noread d) id) asked_db

  value-saved_db_queue :
      (d : Bytes)
      → R.value db (pushlist serverid) ≡ list_or_absent (xs ++ id ∷ [])
      → R.value (saved_db d) (pushlist serverid) ≡ list_or_absent xs
  value-saved_db_queue d q =
      R.value-exec (lpush (noread d) id) asked_db (pushlist serverid)
      ∙ rw (bytes_eq-false _ _ (λ e. pushlist-ne-noread serverid d (sym e)))
          (value-asked_db_queue q)

  value-saved_db :
      (d : Bytes)
      → IsQueue (R.value db (noread d))
      → R.value (saved_db d) (noread d) ≡ list (id ∷ queued (R.value db (noread d)))
  value-saved_db d u =
      R.value-exec (lpush (noread d) id) asked_db (noread d)
      ∙ ap (λ w. seen (lpush (noread d) id) (noread d) w)
          (value-asked_db (noread d) ∙ value-taken_db (noread d) (pushlist-ne-noread serverid d))
      ∙ seen-lpush (noread d) id (R.value db (noread d)) u

  -- If the oldest message in the queue of a server is for a device whose record names a client
  -- that has no socket any more, the message is taken off the queue and put in front of the
  -- device's unread list. Its id is not empty and not the key of the queue, neither its key nor
  -- its recipient's holds an empty hash, and the unread list is a list or nothing.
  pub push_round-saved :
      (d : ClientInfo) (e : Client)
      → R.value db (pushlist serverid) ≡ list_or_absent (xs ++ id ∷ [])
      → R.value db id ≡ hash h
      → IsKept (hash h)
      → IsKept (R.value db (content m.to))
      → pushlist serverid ≢ id
      → client_at m.to (R.value db (content m.to)) ≡ some d
      → get_elem? t.g_clients d.clientid ≡ some e
      → e.fd ≡ none
      → IsQueue (R.value db (noread m.to))
      → (db' : R.Db) × (push_round {R = R} t freed serverid (idle db) ≡ some (saved id, idle db'))
        × (R.value db' (pushlist serverid) ≡ list_or_absent xs)
        × (R.value db' (noread m.to) ≡ list (id ∷ queued (R.value db (noread m.to))))
  unfolding save_in_noread
  push_round-saved d e q v k l n is at up u = (
    saved_db m.to,
    push_round-to_client q v k l n
        ∙ ap (λ o. to_client {R = R} t freed id m o (idle asked_db)) is
        ∙ ap (λ o. to_place {R = R} t freed id m d.clientid o (idle asked_db)) at
        ∙ ap (λ o. to_socket {R = R} t freed id m d.clientid o (idle asked_db)) up,
    value-saved_db_queue m.to q,
    value-saved_db m.to u,
  )

  -- If the recipient of the oldest message in the queue of a server has no record any more, the
  -- message goes to the unread list of the device that the freed message's memory names. Its id
  -- is not empty and not the key of the queue, neither its key nor its recipient's holds an empty
  -- hash, and that unread list is a list or nothing.
  pub push_round-freed :
      R.value db (pushlist serverid) ≡ list_or_absent (xs ++ id ∷ [])
      → R.value db id ≡ hash h
      → IsKept (hash h)
      → IsKept (R.value db (content m.to))
      → pushlist serverid ≢ id
      → client_at m.to (R.value db (content m.to)) ≡ none
      → IsQueue (R.value db (noread freed))
      → (db' : R.Db) × (push_round {R = R} t freed serverid (idle db) ≡ some (saved id, idle db'))
        × (R.value db' (noread freed) ≡ list (id ∷ queued (R.value db (noread freed))))
  unfolding save_in_noread
  push_round-freed q v k l n is u = (
    saved_db freed,
    push_round-to_client q v k l n ∙ ap (λ o. to_client {R = R} t freed id m o (idle asked_db)) is,
    value-saved_db freed u,
  )
