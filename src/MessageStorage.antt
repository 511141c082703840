-- ===== src/MessageStorage.antt =====
-- server/messagestorage.c: the messages and the presence of devices, kept in Redis.
-- Each function takes a connection from the pool and gives it back; here it runs on one
-- connection, which is up. A `char*` that the source tests for NULL is an `Option`. `none` as the
-- outcome of an action is a call that does not return: a wait for a reply that no command owes,
-- or a loop that runs past the end of an empty reply (`elements - 1` is unsigned).
pub mod Keys
pub mod Records
pub mod Lookup
pub mod Routing
pub mod Scan
pub mod Queues
pub mod Presence
pub mod Put
use push_server.Base.{
  ℕ, zero, suc, ◌+◌, ◌*◌, ◌%◌, Bool, true, false, not, List, [], ◌∷◌, Option, none, some, Bytes,
  text, ◌==◌, if◌then◌else◌,
}
use push_server.Base.Decimal.{dec}
use push_server.Base.Int.{ℤ, pos, negsuc, is_positive}
use push_server.Redis.{Redis}
use push_server.Redis.Values.{
  Reply, nil, status, failure, integer, bulk, array, Command, lpush, rpop, lrem, llen, hset, hget,
  hgetall, sadd, zadd, zremrangebyscore, exists, del, expire, refused,
}
use push_server.Redis.Conn.{
  Conn, M, pure, redis_append_command, redis_command, free_replies, ◌>>=◌, ◌>>◌,
}
use Keys.{pushlist, noread, read, content, dely_pushlist_set, userlist, userlistonline}
use Records.{PushMessageInfo, ClientInfo, no_message, no_client, scan_message, scan_client}

-- MESSAGE_TYPE_TXT
abbrev pub message_type_txt : ℕ
message_type_txt = 0xF1

-- rand() % delytime + 1 seconds from now
unfoldable pub delytime : ℕ → ℕ → ℕ → ℕ
delytime now rand bound = now + (rand % bound + 1)

abbrev pub is_empty : Bytes → Bool
is_empty [] = true
is_empty (c ∷ cs) = false

-- 1 for an integer reply of 1.
abbrev pub flag : Reply → ℤ
flag (integer n) = if n == 1 then pos 1 else pos 0
flag _ = pos 0

-- The text that a string reply copies out, and the length that it returns.
abbrev pub string_of : Reply → Bytes × ℕ
string_of (bulk v) = (v, length_of v)
  where
    length_of : Bytes → ℕ
    length_of [] = 0
    length_of (c ∷ cs) = suc (length_of cs)
string_of _ = ([], 0)

abbrev pub set_drivce_id : Bytes → ClientInfo → ClientInfo
set_drivce_id d i = record i { drivce_id = d }

-- What the loops of `getmessageinfo` and `getClientInfo` do with a reply to HGETALL.
abbrev pub read_message : {R : Redis} → Reply → M R (Option PushMessageInfo)
read_message (array []) s = none
read_message (array (x ∷ xs)) s = some (some (scan_message (x ∷ xs) no_message), s)
read_message _ s = some (none, s)

abbrev pub read_client : {R : Redis} → Bytes → Reply → M R (Option ClientInfo)
read_client d (array []) s = none
read_client d (array (x ∷ xs)) s = some (some (set_drivce_id d (scan_client (x ∷ xs) no_client)), s)
read_client d _ s = some (none, s)

module _ {R : Redis} where
  -- "hset %s_content %d" has no field name, and Redis refuses it.
  pub change_client_id : Option Bytes → ℤ → M R (Unit {0})
  change_client_id none clientid s = some (tt, s)
  change_client_id (some d) (negsuc n) s = some (tt, s)
  change_client_id (some d) (pos n) s = (do _ ← redis_command (refused (content d)); pure tt) s

  unfoldable pub is_has_message_info : Option Bytes → M R ℤ
  is_has_message_info none s = some (negsuc 0, s)
  is_has_message_info (some id) s = (do r ← redis_command (exists id); pure (flag r)) s

  unfoldable pub is_client_online : Option Bytes → M R ℤ
  is_client_online none s = some (negsuc 0, s)
  is_client_online (some d) s = (do r ← redis_command (exists (content d)); pure (flag r)) s

  unfoldable pub getmessageinfo : Option Bytes → M R (Option PushMessageInfo)
  unfolding is_has_message_info
  getmessageinfo none s = some (none, s)
  getmessageinfo (some id) s =
      (do
        has ← is_has_message_info (some id)
        if is_positive has then (do r ← redis_command (hgetall id); read_message r) else pure none)
        s

  unfoldable pub get_client_info : Option Bytes → M R (Option ClientInfo)
  unfolding is_client_online
  get_client_info none s = some (none, s)
  get_client_info (some d) s =
      (do
        online ← is_client_online (some d)
        if is_positive online
            then (do r ← redis_command (hgetall (content d)); read_client d r)
            else pure none)
        s

  unfoldable pub get_no_read_message_size : Bytes → M R ℕ
  get_no_read_message_size d = do r ← redis_command (llen (noread d)); pure (size_of r)
    where
      size_of : Reply → ℕ
      size_of (integer n) = n
      size_of _ = 0

  unfoldable pub save_in_noread : Bytes → Bytes → M R (Unit {0})
  save_in_noread d messageid = do _ ← redis_command (lpush (noread d) messageid); pure tt

  unfoldable pub save_in_pushlist : Bytes → ℕ → M R (Unit {0})
  save_in_pushlist messageid serverid = do
    _ ← redis_command (lpush (pushlist serverid) messageid)
    pure tt

  unfoldable pub get_next_no_read_message_id : Bytes → M R (Bytes × ℕ)
  get_next_no_read_message_id d = do r ← redis_command (rpop (noread d)); pure (string_of r)

  unfoldable pub get_next_message_id : ℕ → M R (Bytes × ℕ)
  get_next_message_id serverid = do r ← redis_command (rpop (pushlist serverid)); pure (string_of r)

  unfoldable pub get_client_drivce_id_from_message : Option Bytes → M R (Bytes × ℕ)
  get_client_drivce_id_from_message none s = some (([], 0), s)
  get_client_drivce_id_from_message (some messageid) s =
      (do r ← redis_command (hget messageid (text "to")); pure (found r)) s
    where
      found : Reply → Bytes × ℕ
      found (bulk v) = (v, 1)
      found _ = ([], 0)

  unfoldable pub message_is_send_ok2 : Option PushMessageInfo → ℕ → M R (Unit {0})
  message_is_send_ok2 none serverid s = some (tt, s)
  message_is_send_ok2 (some m) serverid s =
      (do
        redis_append_command (hset m.submessageid (text "state") (text "1"))
        redis_append_command (lrem (pushlist serverid) m.submessageid)
        redis_append_command (lrem (noread m.to) m.submessageid)
        redis_append_command (lpush (read m.to) m.submessageid)
        free_replies 4)
        s

  unfoldable pub message_is_send_ok : Option PushMessageInfo → Option ClientInfo → M R (Unit {0})
  message_is_send_ok none client s = some (tt, s)
  message_is_send_ok (some m) none s = some (tt, s)
  message_is_send_ok (some m) (some client) s =
      (do
        redis_append_command (hset m.submessageid (text "state") (text "1"))
        redis_append_command (lrem (pushlist client.serverid) m.submessageid)
        redis_append_command (lrem (noread m.to) m.submessageid)
        redis_append_command (lpush (read m.to) m.submessageid)
        free_replies 4)
        s

-- What the caller hands to `putmessageinfo2`, and what `createGUID`, `formattime`, `time`, `rand`
-- and the address of `messageid` give it.
pub record Outgoing : Type 0 where
  pub message : Bytes
  pub tochar : Bytes
  pub file_name : Bytes
  pub new_filename : Bytes
  pub timeout : ℕ
  pub from : Bytes
  pub fromip : Bytes
  pub messagetype : ℕ
  pub priority : ℕ

pub record Environment : Type 0 where
  pub message_guid : Bytes
  pub guid : Bytes
  pub time : Bytes
  pub now : ℕ
  pub rand : ℕ
  -- the address of the text of `messageid`, as "%d" prints it
  pub messageid_address : Bytes

-- A caller's empty message id is replaced.
abbrev pub id_or_guid : Bytes → Environment → Bytes
id_or_guid messageid e = if is_empty messageid then e.message_guid else messageid

-- The queue that the new message goes to.
unfoldable pub route : Environment → Outgoing → Option ClientInfo → Command
unfolding delytime
route e q none = lpush (noread q.tochar) e.guid
route e q (some c) =
    if q.priority == 0
    then lpush (pushlist c.serverid) e.guid
    else zadd dely_pushlist_set (delytime e.now e.rand (q.priority * 10 * 60)) e.guid

-- The structure that is returned; `old` is what it held before. The recipient, the sender and the
-- address are copied to arrays of 64, 64 and 20 bytes without a test: ParseCommand/Store has the
-- test that tells whether they fit.
unfoldable pub put_info : Environment → Bytes → Outgoing → PushMessageInfo → PushMessageInfo
put_info e messageid q old =
    if q.messagetype == message_type_txt
    then record filled { content = q.message }
    else record filled { content = q.new_filename; org_file_name = q.file_name }
  where
    filled : PushMessageInfo
    filled = record old {
      submessageid = e.guid;
      form = q.from;
      to = q.tochar;
      fromip = q.fromip;
      state = 0;
      sendtime = e.time;
      retrycount = 0;
      messagetype = q.messagetype;
      messageid = id_or_guid messageid e;
      timeout = q.timeout;
    }

module _ {R : Redis} where
  put_body : Environment → Outgoing → M R (Unit {0})
  put_body e q =
      if q.messagetype == message_type_txt
      then redis_append_command (hset e.guid (text "content") q.message)
      else (do
        redis_append_command (hset e.guid (text "orgFileName") q.file_name)
        redis_append_command (hset e.guid (text "content") q.new_filename))

  unfoldable pub putmessageinfo2 :
      Environment → Bytes → Outgoing → PushMessageInfo → M R PushMessageInfo
  unfolding put_body
  putmessageinfo2 e messageid q old = do
    client ← get_client_info (some q.tochar)
    redis_append_command (sadd (id_or_guid messageid e) e.guid)
    redis_append_command (expire (id_or_guid messageid e) q.timeout)
    redis_append_command (route e q client)
    redis_append_command (hset e.guid (text "from") q.from)
    redis_append_command (hset e.guid (text "to") q.tochar)
    redis_append_command (hset e.guid (text "fromip") q.fromip)
    redis_append_command (hset e.guid (text "state") (text "0"))
    put_body e q
    redis_append_command (hset e.guid (text "sendtime") e.time)
    redis_append_command (hset e.guid (text "retrycount") (text "0"))
    redis_append_command (hset e.guid (text "messagetype") (dec q.messagetype))
    redis_append_command (hset e.guid (text "submessageid") e.guid)
    redis_append_command (hset e.guid (text "messageid") e.messageid_address)
    redis_append_command (expire e.guid q.timeout)
    free_replies 14
    if q.messagetype == message_type_txt then pure tt else free_replies 1
    pure (put_info e messageid q old)

-- The address and the slot of a connected client, as `putclientinfo` reads them.
pub record Peer : Type 0 where
  pub ip : Bytes
  pub port : ℕ
  pub client_id : ℕ

module _ {R : Redis} where
  -- "zdd" is no Redis command.
  unfoldable pub putclientinfo : Peer → ℕ → Bytes → Bytes → ℕ → Bytes → M R ClientInfo
  putclientinfo client serverid serverip d clienttype time = do
    redis_append_command (hset (content d) (text "clientip") client.ip)
    redis_append_command (hset (content d) (text "clientport") (dec client.port))
    redis_append_command (hset (content d) (text "logintime") time)
    redis_append_command (hset (content d) (text "serverip") serverip)
    redis_append_command (hset (content d) (text "clienttype") (dec clienttype))
    redis_append_command (refused client.ip)
    redis_append_command (lpush userlist d)
    redis_append_command (hset (content d) (text "serverid") (dec serverid))
    redis_append_command (hset (content d) (text "clientid") (dec client.client_id))
    free_replies 9
    pure (record {
      drivce_id = d;
      clienttype = clienttype;
      clinetport = client.port;
      clientid = client.client_id;
      serverid = serverid;
      clientip = client.ip;
      serverip = serverip;
      logintime = time;
    })

  -- `removeClient`: the device id of the client, and its peer.
  unfoldable pub remove_client : Option (Bytes × Peer) → M R (Unit {0})
  remove_client none s = some (tt, s)
  remove_client (some ([], client)) s = some (tt, s)
  remove_client (some (c ∷ cs, client)) s =
      (do
        redis_append_command (del (content (c ∷ cs)))
        redis_append_command (lrem userlistonline (c ∷ cs))
        redis_append_command (zremrangebyscore client.ip client.port client.port)
        free_replies 3)
        s
