-- ===== src/Server/Delivery/Unread.antt =====
-- `send_helo_to_client_message` of server/server.c comes to its end.
use push_server.Base.{
  ℕ, zero, suc, ◌≤◌, ◌<◌, false, Bool-cases, inl, inr, List, [], ◌∷◌, Option, none, some, Bytes,
  bytes_eq_refl, text, ◌==◌, ◌≡◌, refl, sym, ap, ◌∙◌, subst, arith,
}
use push_server.Base.Int.{ℤ, is_positive}
use push_server.Redis.{Redis}
use push_server.Redis.Values.{Value, Command, rpop, lpush, lrem, hset, update, reply_of}
use push_server.Redis.Conn.{idle, exec_all, value-exec_all, bind-some}
use push_server.MessageStorage.Lookup.{IsKept, lookups, message_at, getmessageinfo-message_at}
use push_server.ParseCommand.Header.{command_yes}
use push_server.MessageStorage.Keys.{pushlist, noread, read, read-ne-noread}
use push_server.MessageStorage.Records.{PushMessageInfo}
use push_server.MessageStorage.{
  string_of, getmessageinfo, get_next_no_read_message_id, message_is_send_ok2,
}
use push_server.Server.Delivery.{send_pushlist_message, send_unread, send_helo_to_client_message}
use push_server.Server.Delivery.Lists.{
  after-IsKept, size, AreCalm, size-after, lookups-AreCalm, size-rpop,
}

abbrev acknowledge : PushMessageInfo → ℕ → List Command
acknowledge m serverid =
    hset m.submessageid (text "state") (text "1")
    ∷ lrem (pushlist serverid) m.submessageid
    ∷ lrem (noread m.to) m.submessageid
    ∷ lpush (read m.to) m.submessageid
    ∷ []

-- A sending that returns.
abbrev pub returned : ℤ × ℕ → Option ℤ × ℕ
returned (sent, command) = (some sent, command)

module _ (R : Redis) (serverid : ℕ) (drivce_id : Bytes) where
  abbrev unread : R.Db → Value
  unread db = R.value db (noread drivce_id)

  -- What one sending does is a run of commands that make no unread list longer.
  abbrev Sends : ℤ × ℕ → Option PushMessageInfo → R.Db → Type 0
  Sends outcome m db =
      (cs : List Command) × AreCalm (noread drivce_id) cs
      × (send_unread {R = R} serverid (returned outcome) m (idle db)
          ≡ some (tt, idle (exec_all R cs db)))

  send_unread-Sends :
      (outcome : ℤ × ℕ) (m : Option PushMessageInfo) (db : R.Db) → Sends outcome m db
  unfolding send_pushlist_message message_is_send_ok2
  send_unread-Sends outcome none db = ([], tt, refl)
  send_unread-Sends outcome (some m) db = elim (Bool-cases (is_positive outcome.0)) [
    | inr e ↦ ([], tt, rw (e, send_pushlist_message) refl)
    | inl e ↦ elim (Bool-cases (outcome.1 == command_yes)) [
      | inr f ↦ ([], tt, rw (e, send_pushlist_message) (rw (f, send_pushlist_message) refl))
      | inl f ↦ (
        acknowledge m serverid,
        (tt, (tt, (tt, (read-ne-noread m.to drivce_id, tt)))),
        rw (e, send_pushlist_message) (rw (f, send_pushlist_message) refl),
      )
    ]
  ]

  size-exec_all :
      (cs : List Command) (db : R.Db)
      → AreCalm (noread drivce_id) cs
      → size (unread (exec_all R cs db)) ≤ size (unread db)
  size-exec_all cs db h = omega (
    arith,
    size-after cs (noread drivce_id) (unread db) h,
    ap size (value-exec_all R cs db (noread drivce_id)),
  )

  exec_all-IsKept :
      (cs : List Command) (db : R.Db)
      → ((j : Bytes) → IsKept (R.value db j))
      → (j : Bytes) → IsKept (R.value (exec_all R cs db) j)
  exec_all-IsKept cs db h j =
      subst IsKept (sym (value-exec_all R cs db j)) (after-IsKept cs j (R.value db j) (h j))

  abbrev popped : R.Db → R.Db
  popped db = R.exec (rpop (noread drivce_id)) db

  size-popped :
      (db : R.Db)
      → ((string_of (R.reply (rpop (noread drivce_id)) db)).1 == 0) ≡ false
      → size (unread (popped db)) < size (unread db)
  size-popped db e =
      let w : unread (popped db) ≡ update (rpop (noread drivce_id)) (unread db) =
        R.value-exec (rpop (noread drivce_id)) db (noread drivce_id)
        ∙ rw (bytes_eq_refl (noread drivce_id)) refl in
      let f : ((string_of (reply_of (rpop (noread drivce_id)) (unread db))).1 == 0) ≡ false =
        ap (λ r. (string_of r).1 == 0) (sym (R.reply-value (rpop (noread drivce_id)) db)) ∙ e in
      omega (arith, ap size w, size-rpop (noread drivce_id) (unread db) f)

  -- If every sending returns, the delivery of unread messages comes to its end, whatever is sent and
  -- answered: any fuel greater than the length of the unread list is enough. No key holds an empty
  -- hash.
  pub send_helo_to_client_message-ends :
      (outcomes : ℕ → ℤ × ℕ) (n i : ℕ) (db : R.Db)
      → size (unread db) < n
      → ((j : Bytes) → IsKept (R.value db j))
      → (db' : R.Db) × (send_helo_to_client_message {R = R} n
            (λ j. returned (outcomes j))
            i
            serverid
            drivce_id
            (idle db)
          ≡ some (tt, idle db'))
  unfolding send_helo_to_client_message get_next_no_read_message_id
  send_helo_to_client_message-ends outcomes zero i db h k = absurd (omega arith)
  send_helo_to_client_message-ends outcomes (suc n) i db h k =
      let r = string_of (R.reply (rpop (noread drivce_id)) db) in
      elim (Bool-cases (r.1 == 0)) [
        | inl e ↦ (popped db, rw e refl)
        | inr e ↦
            let kept = exec_all-IsKept (rpop (noread drivce_id) ∷ []) db k in
            let asks = lookups r.0 (R.value (popped db) r.0) in
            let asked = exec_all R asks (popped db) in
            let m = message_at (R.value (popped db) r.0) in
            let (cs, calm, run) = send_unread-Sends (outcomes i) m asked in
            let smaller : size (unread (exec_all R cs asked)) < n = omega (
              arith,
              size-popped db e,
              size-exec_all asks (popped db)
                  (lookups-AreCalm (noread drivce_id) r.0 (R.value (popped db) r.0)),
              size-exec_all cs asked calm,
            ) in
            let (db', rest) =
              send_helo_to_client_message-ends outcomes n (suc i) (exec_all R cs asked) smaller
                (exec_all-IsKept cs asked (exec_all-IsKept asks (popped db) kept)) in
            (
              db',
              rw e (
                  bind-some (getmessageinfo (some r.0)) _
                    (getmessageinfo-message_at R r.0 (popped db) (kept r.0))
                  ∙ bind-some (send_unread serverid (returned (outcomes i)) m) _ run
                  ∙ rest),
            )
      ]
