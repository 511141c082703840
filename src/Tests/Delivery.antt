-- ===== src/Tests/Delivery.antt =====
-- A message on its way, for the theorems on the delivery in server/server.c.
use push_server.Base.{
  false, List, Option, [], ◌∷◌, none, some, Bytes, text, bytes_eq, bytes_eq_refl, ◌≡◌, ◌≢◌, refl,
  ap, ◌∙◌, if◌then◌else◌, arith,
}
use push_server.Base.Decimal.{dec, atoi}
use push_server.Base.Int.{pos}
use push_server.Redis.Values.{Value, absent, list, hash}
use push_server.Redis.Conn.{Conn, idle}
use push_server.Redis.Instance.{keyspace}
use push_server.ParseCommand.Header.{command_yes}
use push_server.MessageStorage.Keys.{pushlist, noread, read, content}
use push_server.MessageStorage.Records.{
  PushMessageInfo, ClientInfo, no_message, no_client, scan_message, message_field, set_message,
  scan_client, client_field, set_client,
}
use push_server.MessageStorage.{
  message_is_send_ok2, save_in_noread, getmessageinfo, get_next_no_read_message_id,
}
use push_server.Server.Table.{Client, Clients}
use push_server.Server.Delivery.{
  saved, push_round, send_message, send_pushlist_message, send_helo_to_client_message,
}
use push_server.Server.Delivery.Rounds.{push_round-saved}

-- Texts that a computation tells apart.
differ : (xs ys : Bytes) → bytes_eq xs ys ≡ false → xs ≢ ys
differ xs ys h e =
    let same : bytes_eq xs xs ≡ false = ap (bytes_eq xs) e ∙ h in ground (arith, bytes_eq_refl xs)

abbrev fields : List (Bytes × Bytes)
fields = (text "to", text "bob") ∷ []

abbrev info : PushMessageInfo
info = record no_message { to = text "bob" }

-- A message for "bob" in the queue of server 3, whose record names place 0 of the table.
abbrev queue_and_bob : Bytes → Value
queue_and_bob j =
    if bytes_eq (pushlist 3) j
    then list (text "G1" ∷ [])
    else if bytes_eq (text "G1") j
    then hash fields
    else if bytes_eq (content (text "bob")) j
    then hash ((text "clientid", text "0") ∷ [])
    else absent

-- The same without the record.
abbrev queue_only : Bytes → Value
queue_only j =
    if bytes_eq (pushlist 3) j
    then list (text "G1" ∷ [])
    else if bytes_eq (text "G1") j
    then hash fields
    else absent

abbrev bob : Client
bob = record { fd = some 8; client_id = 0; drivce_id = text "bob"; timeout = 0 }

abbrev table : Client → Clients
table c = record {
  g_clients = c ∷ [];
  active_socket_connect = 1;
  g_maxi = pos 0;
  epoll = [];
  forgotten = [];
}

abbrev found : ClientInfo
found = record no_client { drivce_id = text "bob" }

abbrev away : Client
away = record bob { fd = none }

push_round-saved_example :
    (db : Bytes → Value) × (push_round {R = keyspace} (table away) [] 3 (idle queue_and_bob)
      ≡ some (saved (text "G1"), idle db))
    × (db (pushlist 3) ≡ absent)
    × (db (noread (text "bob")) ≡ list (text "G1" ∷ []))
unfolding pushlist noread content dec scan_message message_field set_message scan_client
    client_field set_client atoi
push_round-saved_example =
    push_round-saved keyspace (table away) [] 3 queue_and_bob b'G' (text "1") [] fields found away
      refl refl tt tt (differ _ _ refl) refl refl refl tt

abbrev known : PushMessageInfo
known = record no_message { submessageid = text "G1"; to = text "bob" }

-- What a key holds afterwards.
left : Bytes → Option (Unit {0} × Conn keyspace) → Value
left j none = absent
left j (some (r, s)) = s.db j

-- Sent and answered; of which nothing was sent, so the freed id is saved; and a sending that does
-- not return.
acknowledged :
    left (read (text "bob")) (
      send_message {R = keyspace}
        (some (pos 20))
        command_yes
        3
        known
        (text "bob")
        []
        (idle queue_only))
    ≡ list (text "G1" ∷ [])
unfolding left send_message send_pushlist_message message_is_send_ok2 pushlist noread read dec
acknowledged = refl

freed_id :
    left (noread (text "bob")) (
      send_message {R = keyspace}
        (some (pos 0))
        command_yes
        3
        known
        (text "bob")
        (text "?")
        (idle queue_only))
    ≡ list (text "?" ∷ [])
unfolding left send_message send_pushlist_message save_in_noread noread pushlist
freed_id = refl

no_return :
    send_message {R = keyspace} none command_yes 3 known (text "bob") [] (idle queue_only) ≡ none
unfolding send_message send_pushlist_message
no_return = refl

-- Two unread messages, of which nothing else is known any more, are both taken.
abbrev unread_two : Bytes → Value
unread_two j =
    if bytes_eq (noread (text "bob")) j then list (text "G2" ∷ text "G1" ∷ []) else absent

all_taken :
    left (noread (text "bob")) (
      send_helo_to_client_message {R = keyspace} 3
        (λ i. (some (pos 20), command_yes))
        0
        3
        (text "bob")
        (idle unread_two))
    ≡ absent
unfolding left send_helo_to_client_message get_next_no_read_message_id getmessageinfo noread
all_taken = refl
