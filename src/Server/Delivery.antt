-- ===== src/Server/Delivery.antt =====
-- The delivery of messages in server/server.c: a round of `pushlist_send_thread`, the work that it
-- hands to the pool of threads, `sendMessage`, and `send_pushlist_message`.
use push_server.Base.{
  ℕ, zero, suc, Bool, true, false, List, Option, none, some, Bytes, get_elem?, ◌==◌, if◌then◌else◌,
}
use push_server.Base.Int.{ℤ, is_positive}
use push_server.Redis.{Redis}
use push_server.Redis.Conn.{M, pure, ◌>>=◌, ◌>>◌}
use push_server.ParseCommand.Header.{command_yes}
use push_server.MessageStorage.Records.{PushMessageInfo, ClientInfo}
use push_server.MessageStorage.{
  get_next_message_id, get_next_no_read_message_id, getmessageinfo, get_client_info, save_in_noread,
  message_is_send_ok2,
}
use push_server.Server.Table.{Client, Clients}
pub mod Acknowledge
pub mod Lists
pub mod Rounds
pub mod Unread

-- How a round ends: the queue is empty, the message is not known any more, its id went to the
-- unread list, a thread is to send it to the client at a place, or the place that the device's
-- record names is not in the table. What is handed to the thread is the address of a variable of
-- the block, so the thread may find it changed: `handed` has what it holds when it is handed over.
pub data Round : Type 0 where
  nothing : Round
  unknown : Bytes → Round
  saved : Bytes → Round
  handed : ℕ → PushMessageInfo → Round
  outside : ℕ → Round

module _ {R : Redis} (t : Clients) (freed : Bytes) where
  -- `clientx->fd != -1`
  abbrev pub to_socket : Bytes → PushMessageInfo → ℕ → Option ℕ → M R Round
  to_socket messageid m i none s = (save_in_noread m.to messageid >> pure (saved messageid)) s
  to_socket messageid m i (some fd) s = pure (handed i m) s

  abbrev pub to_place : Bytes → PushMessageInfo → ℕ → Option Client → M R Round
  to_place messageid m i none s = pure (outside i) s
  to_place messageid m i (some c) s = to_socket messageid m i c.fd s

  -- For a device that is not connected the recipient is read after the message has been freed;
  -- `freed` is what that memory holds then.
  abbrev pub to_client : Bytes → PushMessageInfo → Option ClientInfo → M R Round
  to_client messageid m none s = (save_in_noread freed messageid >> pure (saved messageid)) s
  to_client messageid m (some c) s =
      to_place messageid m c.clientid (get_elem? t.g_clients c.clientid) s

  abbrev pub deliver : Bytes → Option PushMessageInfo → M R Round
  deliver messageid none s = pure (unknown messageid) s
  deliver messageid (some m) s = (get_client_info (some m.to) >>= λ c. to_client messageid m c) s

  abbrev pub next : Bytes × ℕ → M R Round
  next r s = elim r.1 [
    | zero ↦ pure nothing s
    | suc n ↦ (getmessageinfo (some r.0) >>= λ m. deliver r.0 m) s
  ]

  -- What `pushlist_send_thread` does between two pauses: the inner `ret` hides the one that its
  -- loop tests, which is 0, so there is one turn.
  unfoldable pub push_round : ℕ → M R Round
  push_round serverid = get_next_message_id serverid >>= next

module _ {R : Redis} where
  -- `send_pushlist_message`, with what `createServerMessage` returns, and the command that
  -- `readReturnMessage` finds in its buffer; 1 if the message was acknowledged. `none`:
  -- `createServerMessage` does not return, as when `send` fails again and again. The socket does not
  -- wait, so the command is what the client has answered only if the answer is there already, and
  -- what the buffer held if not.
  unfoldable pub send_pushlist_message : Option ℤ → ℕ → ℕ → PushMessageInfo → M R ℕ
  send_pushlist_message none command serverid m s = none
  send_pushlist_message (some sent) command serverid m s =
      if is_positive sent
      then if command == command_yes
        then (message_is_send_ok2 (some m) serverid >> pure 1) s
        else pure 0 s
      else pure 0 s

  abbrev pub after_send : Bytes → Bytes → ℕ → M R (Unit {0})
  after_send drivce_id freed zero s = save_in_noread drivce_id freed s
  after_send drivce_id freed (suc n) s = pure tt s

  -- `sendMessage`: after a failure the id of the message is read from memory that is freed.
  unfoldable pub send_message : Option ℤ → ℕ → ℕ → PushMessageInfo → Bytes → Bytes → M R (Unit {0})
  send_message sent command serverid m drivce_id freed =
      send_pushlist_message sent command serverid m >>= after_send drivce_id freed

  -- One message of `send_helo_to_client_message`; what came of the sending is not looked at.
  abbrev pub send_unread : ℕ → Option ℤ × ℕ → Option PushMessageInfo → M R (Unit {0})
  send_unread serverid outcome none s = pure tt s
  send_unread serverid outcome (some m) s =
      (send_pushlist_message outcome.0 outcome.1 serverid m >>= λ ret. pure tt) s

  -- `send_helo_to_client_message` from its turn `i` on, with what `createServerMessage` returns
  -- and `readReturnMessage` finds in each turn. `none` with no fuel left, or if a sending does not
  -- return.
  unfoldable pub send_helo_to_client_message :
      ℕ → (ℕ → Option ℤ × ℕ) → ℕ → ℕ → Bytes → M R (Unit {0})
  send_helo_to_client_message zero outcomes i serverid drivce_id s = none
  send_helo_to_client_message (suc n) outcomes i serverid drivce_id s =
      (get_next_no_read_message_id drivce_id >>= λ r.
      if r.1 == 0
      then pure tt
      else (getmessageinfo (some r.0) >>= λ m. send_unread serverid (outcomes i) m >>= λ _.
          send_helo_to_client_message n outcomes (suc i) serverid drivce_id))
        s
