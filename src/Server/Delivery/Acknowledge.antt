-- ===== src/Server/Delivery/Acknowledge.antt =====
-- What `sendMessage` of server/server.c leaves in Redis once the sending has returned.
use push_server.Base.{ℕ, true, false, List, ◌∷◌, some, Bytes, text, ◌≡◌, ◌≢◌, refl, ◌∙◌}
use push_server.Base.Int.{ℤ, is_positive}
use push_server.Redis.{Redis}
use push_server.Redis.Values.{list, hash, contains, set_field, lpush}
use push_server.Redis.Conn.{idle, pure, bind-some}
use push_server.ParseCommand.Header.{command_yes}
use push_server.MessageStorage.Keys.{pushlist, noread, read}
use push_server.MessageStorage.Records.{PushMessageInfo}
use push_server.MessageStorage.Routing.{IsQueue, queued, seen-lpush}
use push_server.MessageStorage.Queues.{message_is_send_ok2-acknowledged}
use push_server.MessageStorage.{message_is_send_ok2, save_in_noread}
use push_server.Server.Delivery.{send_pushlist_message, after_send, send_message}

module _ (R : Redis) (sent : ℤ) (serverid : ℕ) (m : PushMessageInfo) (drivce_id freed : Bytes)
    (db : R.Db) where
  sent_ok :
      (db' : R.Db)
      → is_positive sent ≡ true
      → message_is_send_ok2 {R = R} (some m) serverid (idle db) ≡ some (tt, idle db')
      → send_pushlist_message {R = R} (some sent) command_yes serverid m (idle db)
        ≡ some (1, idle db')
  unfolding send_pushlist_message
  sent_ok db' p ok =
      rw (p, send_pushlist_message)
        (bind-some (message_is_send_ok2 (some m) serverid) (λ _. pure 1) ok)

  not_sent :
      (command : ℕ)
      → is_positive sent ≡ false
      → send_pushlist_message {R = R} (some sent) command serverid m (idle db) ≡ some (0, idle db)
  unfolding send_pushlist_message
  not_sent command p = rw (p, send_pushlist_message) refl

  -- A message that is sent, and for which COMMAND_YES is in the buffer, is acknowledged: it is in
  -- front of the recipient's read list, not in the queue of the server and not in the recipient's
  -- unread list, and its state is 1. Its id is the key of a hash and none of the three keys,
  -- which hold lists or nothing.
  pub send_message-acknowledged :
      (h : List (Bytes × Bytes))
      → is_positive sent ≡ true
      → R.value db m.submessageid ≡ hash h
      → IsQueue (R.value db (pushlist serverid))
      → IsQueue (R.value db (noread m.to))
      → IsQueue (R.value db (read m.to))
      → m.submessageid ≢ pushlist serverid
      → m.submessageid ≢ noread m.to
      → m.submessageid ≢ read m.to
      → (db' : R.Db) × (send_message {R = R}
            (some sent)
            command_yes
            serverid
            m
            drivce_id
            freed
            (idle db)
          ≡ some (tt, idle db'))
        × (contains m.submessageid (queued (R.value db' (pushlist serverid))) ≡ false)
        × (contains m.submessageid (queued (R.value db' (noread m.to))) ≡ false)
        × (R.value db' (read m.to) ≡ list (m.submessageid ∷ queued (R.value db (read m.to))))
        × (R.value db' m.submessageid ≡ hash (set_field (text "state") (text "1") h))
  unfolding send_message
  send_message-acknowledged h p s a b c d e f =
      let (db', ok, queue, unread, was_read, state) =
        message_is_send_ok2-acknowledged R m serverid db h s a b c d e f in
      (
        db',
        bind-some (send_pushlist_message (some sent) command_yes serverid m)
            (after_send drivce_id freed) (sent_ok db' p ok),
        queue,
        unread,
        was_read,
        state,
      )

  -- A message of which nothing was sent is lost: the id that goes to the device's unread list is what
  -- the freed message's memory holds.
  pub send_message-freed :
      (command : ℕ)
      → is_positive sent ≡ false
      → IsQueue (R.value db (noread drivce_id))
      → (db' : R.Db) × (send_message {R = R}
            (some sent)
            command
            serverid
            m
            drivce_id
            freed
            (idle db)
          ≡ some (tt, idle db'))
        × (R.value db' (noread drivce_id) ≡ list (freed ∷ queued (R.value db (noread drivce_id))))
  unfolding send_message save_in_noread
  send_message-freed command p u = (
    R.exec (lpush (noread drivce_id) freed) db,
    bind-some (send_pushlist_message (some sent) command serverid m) (after_send drivce_id freed)
        (not_sent command p),
    R.value-exec (lpush (noread drivce_id) freed) db (noread drivce_id)
        ∙ seen-lpush (noread drivce_id) freed (R.value db (noread drivce_id)) u,
  )
