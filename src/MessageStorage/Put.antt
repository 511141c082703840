-- ===== src/MessageStorage/Put.antt =====
-- The operations of server/messagestorage.c that no other part calls now: `putmessageinfo`, the
-- older form of `putmessageinfo2`, `getmessage` and the delayed queue of `getDelyMessage`;
-- and `newClient`.
use push_server.Base.{
  ℕ, ◌*◌, List, [], ◌∷◌, ◌++◌, Option, none, some, Bytes, text, length, ◌==◌, if◌then◌else◌,
}
use push_server.Base.Decimal.{dec}
use push_server.Base.Int.{ℤ, pos, negsuc}
use push_server.Redis.{Redis}
use push_server.Redis.Values.{
  Reply, bulk, rpop, hset, expire, zrangebyscore, zrem, watch, multi_exec,
}
use push_server.Redis.Conn.{M, pure, redis_append_command, redis_command, free_replies, ◌>>=◌, ◌>>◌}
use push_server.MessageStorage.Keys.{dely_pushlist_set}
use push_server.MessageStorage.Records.{PushMessageInfo, ClientInfo}
use push_server.MessageStorage.{
  Environment, Outgoing, Peer, message_type_txt, route, put_body, get_client_info, putclientinfo,
}
pub mod Equivalence
pub mod Delayed

-- The structure that is returned; its `messageid` stays what it was.
unfoldable pub put_info_alone : Environment → Outgoing → PushMessageInfo → PushMessageInfo
put_info_alone e q old =
    if q.messagetype == message_type_txt
    then record filled { content = q.message }
    else record filled { content = q.new_filename; org_file_name = q.file_name }
  where
    filled : PushMessageInfo
    filled = record old {
      submessageid = e.guid;
      form = q.from;
      to = q.tochar;
      fromip = q.fromip;
      state = 0;
      sendtime = e.time;
      retrycount = 0;
      messagetype = q.messagetype;
      timeout = q.timeout;
    }

module _ {R : Redis} where
  unfoldable pub putmessageinfo : Environment → Outgoing → PushMessageInfo → M R PushMessageInfo
  unfolding put_body
  putmessageinfo e q old = do
    client ← get_client_info (some q.tochar)
    redis_append_command (route e q client)
    redis_append_command (hset e.guid (text "from") q.from)
    redis_append_command (hset e.guid (text "to") q.tochar)
    redis_append_command (hset e.guid (text "fromip") q.fromip)
    redis_append_command (hset e.guid (text "state") (text "0"))
    put_body e q
    redis_append_command (hset e.guid (text "sendtime") e.time)
    redis_append_command (hset e.guid (text "retrycount") (text "0"))
    redis_append_command (hset e.guid (text "messagetype") (dec q.messagetype))
    redis_append_command (hset e.guid (text "submessageid") e.guid)
    redis_append_command (expire e.guid q.timeout)
    free_replies 11
    if q.messagetype == message_type_txt then pure tt else free_replies 1
    pure (put_info_alone e q old)

  unfoldable pub new_client : Peer → ℕ → Bytes → Bytes → ℕ → Bytes → M R ClientInfo
  new_client client serverid serverip d clienttype time =
      putclientinfo client serverid serverip d clienttype time

  -- What is copied to `des`, if it is not NULL, and the result. The key is that of no server.
  unfoldable pub getmessage : Option Bytes → M R (Bytes × ℤ)
  getmessage none s = some (([], negsuc 0), s)
  getmessage (some des) s =
      (do r ← redis_command (rpop (text "pushlist")); pure (copied r, pos 0)) s
    where
      copied : Reply → Bytes
      copied (bulk v) = v
      copied _ = des

  -- The transaction that takes a message out of the delayed queue.
  abbrev pub take_delayed : Reply → M R (Bytes × ℕ)
  take_delayed (bulk v) s =
      (do
        redis_append_command multi_exec
        redis_append_command (zrem dely_pushlist_set v)
        redis_append_command multi_exec
        free_replies 3
        pure (v, 1))
        s
  take_delayed _ s = some (([], 0), s)

  -- The id of a delayed message whose time has come, and whether there is one. `none` for the
  -- argument is NULL.
  unfoldable pub get_dely_message : ℕ → Option Bytes → M R (Bytes × ℕ)
  get_dely_message now none s = some (([], 0), s)
  get_dely_message now (some messageid) s =
      (do
        _ ← redis_command (watch dely_pushlist_set)
        r ← redis_command (zrangebyscore dely_pushlist_set now)
        take_delayed r)
        s
