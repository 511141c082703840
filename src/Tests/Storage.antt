-- ===== src/Tests/Storage.antt =====
-- Messages and devices in a small keyspace, for the theorems on server/messagestorage.c.
use push_server.Base.{
  false, List, [], ◌∷◌, ◌++◌, none, some, Bytes, text, bytes_eq, bytes_eq_refl, ◌≡◌, ◌≢◌, refl, ap,
  ◌∙◌, if◌then◌else◌, arith,
}
use push_server.Base.Decimal.{dec}
use push_server.Redis.Values.{Value, absent, list, hash, scored, contains, set_field}
use push_server.Redis.Conn.{idle, ◌>>=◌}
use push_server.Redis.Instance.{keyspace, empty}
use push_server.MessageStorage.Keys.{pushlist, noread, read, content, dely_pushlist_set}
use push_server.MessageStorage.Records.{PushMessageInfo, no_message, message_field}
use push_server.MessageStorage.Routing.{queued, message_hash, putmessageinfo2-queue}
use push_server.MessageStorage.Scan.{received, getmessageinfo-received}
use push_server.MessageStorage.Queues.{
  save_all, next_all, next_all-save_all, message_is_send_ok2-acknowledged,
}
use push_server.MessageStorage.Put.{put_info_alone, putmessageinfo}
use push_server.MessageStorage.Put.Equivalence.{putmessageinfo-putmessageinfo2}
use push_server.MessageStorage.Presence.{
  connected, get_client_info-putclientinfo, get_client_info-remove_client,
}
use push_server.MessageStorage.{
  Outgoing, Environment, route, Peer, put_info, putmessageinfo2, getmessageinfo, putclientinfo,
  get_client_info, remove_client, message_is_send_ok2, message_type_txt,
}

-- Texts that a computation tells apart.
ne : (xs ys : Bytes) → bytes_eq xs ys ≡ false → xs ≢ ys
ne xs ys h e =
    let same : bytes_eq xs xs ≡ false = ap (bytes_eq xs) e ∙ h in ground (arith, bytes_eq_refl xs)

abbrev hello : Outgoing
hello = record {
  message = text "hello";
  tochar = text "bob";
  file_name = [];
  new_filename = [];
  timeout = 60;
  from = text "al";
  fromip = text "10.0.0.1";
  messagetype = message_type_txt;
  priority = 0;
}

abbrev world : Environment
world = record {
  message_guid = text "M1";
  guid = text "G1";
  time = text "noon";
  now = 0;
  rand = 0;
  messageid_address = text "4096";
}

putmessageinfo2-queue_example :
    (db : Bytes → Value) × (putmessageinfo2 {R = keyspace} world [] hello no_message (idle empty)
      ≡ some (put_info world [] hello no_message, idle db))
    × (db (noread (text "bob")) ≡ list (text "G1" ∷ []))
    × (db (noread (text "carol")) ≡ absent)
unfolding noread content
putmessageinfo2-queue_example =
    putmessageinfo2-queue keyspace world [] hello no_message empty tt (noread (text "carol")) refl
      tt (ne _ _ refl) (ne _ _ refl) (ne _ _ refl) (ne _ _ refl) (ne _ _ refl)

-- The message `hello` as it is stored.
abbrev stored : Bytes → Value
stored j = if bytes_eq (text "G1") j then hash (message_hash world hello) else absent

getmessageinfo-received_example :
    (db : Bytes → Value) × (getmessageinfo {R = keyspace} (some (text "G1")) (idle stored)
      ≡ some (some (received world hello), idle db))
unfolding message_field
getmessageinfo-received_example =
    getmessageinfo-received keyspace world hello stored (text "G1") refl refl

-- A sender whose id begins with "to".
abbrev toms : Outgoing
toms = record hello { from = text "tom" }

abbrev stored_toms : Bytes → Value
stored_toms j = if bytes_eq (text "G1") j then hash (message_hash world toms) else absent

next_all-save_all_example :
    (db : Bytes → Value) × ((save_all {R = keyspace} 3 (text "a" ∷ text "b" ∷ []) >>= λ _.
    next_all 3 2)
        (idle empty)
      ≡ some (text "a" ∷ text "b" ∷ [], idle db))
    × (db (pushlist 3) ≡ absent)
next_all-save_all_example = next_all-save_all keyspace 3 (text "a" ∷ text "b" ∷ []) empty refl

-- A message that waits in the queue of server 3 and in its recipient's unread list.
abbrev waiting : Bytes → Value
waiting j =
    if bytes_eq (text "G1") j
    then hash ((text "to", text "bob") ∷ [])
    else if bytes_eq (pushlist 3) j
    then list (text "G2" ∷ text "G1" ∷ [])
    else absent

abbrev known : PushMessageInfo
known = record no_message { submessageid = text "G1"; to = text "bob" }

message_is_send_ok2-acknowledged_example :
    (db : Bytes → Value) × (message_is_send_ok2 {R = keyspace} (some known) 3 (idle waiting)
      ≡ some (tt, idle db))
    × (contains (text "G1") (queued (db (pushlist 3))) ≡ false)
    × (contains (text "G1") (queued (db (noread (text "bob")))) ≡ false)
    × (db (read (text "bob")) ≡ list (text "G1" ∷ []))
    × (db (text "G1") ≡ hash (set_field (text "state") (text "1") ((text "to", text "bob") ∷ [])))
unfolding pushlist noread read dec
message_is_send_ok2-acknowledged_example =
    message_is_send_ok2-acknowledged keyspace known 3 waiting ((text "to", text "bob") ∷ []) refl tt
      tt tt (ne _ _ refl) (ne _ _ refl) (ne _ _ refl)

abbrev peer : Peer
peer = record { ip = text "10.0.0.9"; port = 4000; client_id = 7 }

get_client_info-putclientinfo_example :
    (db : Bytes → Value) × ((putclientinfo {R = keyspace} peer 3
            (text "10.0.0.2")
            (text "bob")
            26
            (text "noon")
          >>= λ _. get_client_info (some (text "bob")))
        (idle empty)
      ≡ some (some (connected peer 3 (text "10.0.0.2") (text "bob") 26 (text "noon")), idle db))
get_client_info-putclientinfo_example =
    get_client_info-putclientinfo keyspace peer 3 (text "10.0.0.2") (text "bob") 26 (text "noon")
      empty refl

-- The device "bob" is connected.
abbrev online : Bytes → Value
online j =
    if bytes_eq (content (text "bob")) j then hash ((text "serverid", text "3") ∷ []) else absent

get_client_info-remove_client_example :
    (db : Bytes → Value) × ((remove_client {R = keyspace} (some (text "bob", peer)) >>= λ _.
    get_client_info (some (text "bob")))
        (idle online)
      ≡ some (none, idle db))
get_client_info-remove_client_example =
    get_client_info-remove_client keyspace b'b' (text "ob") peer online

putmessageinfo-putmessageinfo2_example :
    (one : Bytes → Value) × (two : Bytes → Value) × (putmessageinfo {R = keyspace} world hello
        no_message
        (idle empty)
      ≡ some (put_info_alone world hello no_message, idle one))
    × (putmessageinfo2 {R = keyspace} world [] hello no_message (idle empty)
        ≡ some (put_info world [] hello no_message, idle two))
    × (one (noread (text "bob")) ≡ two (noread (text "bob")))
    × (h : List (Bytes × Bytes)) × (one (text "G1") ≡ hash h)
    × (two (text "G1") ≡ hash (h ++ (text "messageid", text "4096") ∷ []))
unfolding noread content route
putmessageinfo-putmessageinfo2_example =
    putmessageinfo-putmessageinfo2 keyspace world [] hello no_message empty tt (noread (text "bob"))
      refl (ne _ _ refl) (ne _ _ refl) (ne _ _ refl) (ne _ _ refl)

-- A message that is long due.
abbrev late : Bytes → Value
late j = if bytes_eq dely_pushlist_set j then scored ((5, text "G1") ∷ []) else absent
