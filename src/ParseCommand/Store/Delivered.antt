-- ===== src/ParseCommand/Store/Delivered.antt =====
-- What the loop of `parseClientMessage` leaves in Redis: each recipient's message, and its place
-- in the queue that serves the recipient.
use push_server.Base.{
  ℕ, suc, List, [], ◌∷◌, some, Bytes, get_elem?, true, ◌≡◌, refl, ◌∙◌, ap, arith,
}
use push_server.Redis.{Redis}
use push_server.Redis.Conn.{idle, bind-some}
use push_server.MessageStorage.Records.{PushMessageInfo}
use push_server.MessageStorage.{Environment, putmessageinfo2}
use push_server.ParseCommand.Message.{ClientMessage, accepted, parse_client_text}
use push_server.ParseCommand.Store.{
  fits_arrays, Sender, outgoing, store_for, store_parsed, parse_client_message,
}
use push_server.ParseCommand.Store.Turn.{
  AreFresh, IsReady, IsStored, AreStored, step_db, step_run, step-IsReady, step-AreStored,
}

module _ (R : Redis) (messageid : Bytes) (outside : ℕ → Environment)
    (fresh : AreFresh messageid outside) (sender : Sender) (heap : PushMessageInfo) where
  store_for-AreStored :
      (text : Bytes) (sendto : List Bytes) (i : ℕ) (db : R.Db)
      → IsReady R outside i db
      → (db' : R.Db) × (store_for {R = R} sender outside heap i messageid text sendto (idle db)
          ≡ some (tt, idle db'))
        × AreStored R outside sender text i sendto db db'
  unfolding store_for
  store_for-AreStored text [] i db ready = (
    db,
    refl,
    record {
      early = λ k h. refl;
      records = λ d. refl;
      grown = λ j v h c. c;
      each = λ n k d e h. absurd (ground arith);
    },
  )
  store_for-AreStored text (to ∷ sendto) i db ready =
      let next = step_db R messageid outside fresh sender text heap i to db ready in
      let (db', run, st) =
        store_for-AreStored text sendto (suc i) next
          (step-IsReady R messageid outside fresh sender text heap i to db ready) in
      (
        db',
        bind-some (putmessageinfo2 (outside i) messageid (outgoing sender text to) heap) _
              (step_run R messageid outside fresh sender text heap i to db ready)
            ∙ run,
        step-AreStored R messageid outside fresh sender text heap i to db ready sendto db' st,
      )

  -- A text message that is read is stored for every one of its recipients, however many there
  -- are and also if one is named twice: the call returns with every reply read, and afterwards
  -- the key of the recipient at place `n` in the message holds the sender, the recipient, the text
  -- and the other fields, and its id is in the queue of the recipient's server if the recipient
  -- was connected and in its unread list if not. The ids of the recipients and of the sender have at
  -- most 63 bytes and the sender's address at most 19, which the arrays of a message hold; the new
  -- ids are fresh and their keys free, the queues hold lists or nothing, and no device has an empty
  -- record.
  pub parse_client_message-IsStored :
      (bufs : Bytes) (total : ℕ) (pieces : List Bytes) (m : ClientMessage) (db : R.Db)
      → parse_client_text bufs total pieces ≡ accepted m
      → fits_arrays sender m.sendto ≡ true
      → IsReady R outside 0 db
      → (db' : R.Db) × (parse_client_message {R = R} sender outside heap messageid bufs total pieces
            (idle db)
          ≡ some (accepted m, idle db'))
        × ((n : ℕ) (d : Bytes)
            → get_elem? m.sendto n ≡ some d
            → IsStored R outside sender m.content db db' n d)
  unfolding parse_client_message
  parse_client_message-IsStored bufs total pieces m db e short ready =
      let (db', run, st) = store_for-AreStored m.content m.sendto 0 db ready in
      (
        db',
        ap (λ p. store_parsed {R = R} sender outside heap messageid p (idle db)) e
            ∙ rw short
                (bind-some (store_for sender outside heap 0 messageid m.content m.sendto) _ run),
        λ n d h. st.each n n d (omega arith) h,
      )
