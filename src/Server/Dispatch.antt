-- ===== src/Server/Dispatch.antt =====
-- `read_thread_function` of server/server.c: what a thread of the pool does with what a client has
-- sent, from the header to the reply or to the close. The main loop holds `opt_lock` of the client
-- when the thread starts.
use push_server.Base.{
  ℕ, zero, suc, Bool, true, false, List, [], ◌∷◌, Option, none, some, Bytes, length, take, drop,
  set, cstr, read16, ltb, leb, ◌==◌, if◌then◌else◌,
}
use push_server.Base.Int.{ℤ}
use push_server.Json.{JsonLibrary}
use push_server.Redis.{Redis}
use push_server.Redis.Conn.{M, pure, ◌>>=◌, ◌>>◌}
use push_server.ParseCommand.Header.{
  ClientHeader, header_size, server_header_bytes, parse_client_header, create_server_ping,
  command_ping, command_helo, command_bye, command_message, command_other_message, command_yes,
  command_server,
}
use push_server.ParseCommand.Helo.{Helo, parse_client_helo, create_server_helo}
use push_server.ParseCommand.Message.{
  Parsed, accepted, refused, crashed, ClientMessage, create_server_message_reply,
}
use push_server.ParseCommand.Store.{Sender, store_parsed, parse_client_message}
use push_server.MessageStorage.{Environment, Peer, message_type_txt, remove_client}
use push_server.MessageStorage.Put.{new_client}
use push_server.MessageStorage.Records.{PushMessageInfo, ClientInfo}
use push_server.AccountProtocol.{
  Heap, message_type_user_reg, message_type_user_login, message_type_user_find_username,
  message_type_user_add_friend, message_type_user_get_friend,
}
use push_server.AccountProtocol.Requests.{
  Handled, answered, parse_client_user_reg, parse_client_user_login, parse_client_user_find_user,
  parse_client_user_add_user, parse_client_user_get_friends,
}
use push_server.Server.Table.{Client, Clients, close_socket}
use push_server.Server.Delivery.{send_helo_to_client_message}
pub mod Ends
pub mod Held
pub mod Safe
pub mod Closing
pub mod Greeting
pub mod Welcome

-- What the thread finds: `received` is none if `recv` gives nothing or fails, `pieces` what it
-- gives later, and `sends` whether a reply can be sent. Ids, times and texts on the heap come from
-- outside, as does what becomes of each unread message.
pub record Arrival : Type 0 where
  pub received : Option Bytes
  pub pieces : List Bytes
  pub sends : Bool
  pub now : ℕ
  pub ip : Bytes
  pub port : ℕ
  pub serverip : Bytes
  pub time : Bytes
  pub guid : Bytes
  pub outside : ℕ → Environment
  pub token : Bytes
  pub heap : Heap
  pub memory : PushMessageInfo
  pub beyond : Bytes
  pub wrong_type : Bytes
  pub fuel : ℕ
  pub outcomes : ℕ → Option ℤ × ℕ

-- `done`: the table, what was handed to `send` for the request, and how often `opt_lock` was
-- released. A thread may also crash, or meet behaviour that C leaves open: the parser of a file
-- reads the code of `time` as a text, and a device id of 64 bytes or more leaves the array of the
-- client, `drivceId`, and its zero is written behind it or not at all.
pub data Ending : Type 0 where
  done : Clients → List Bytes → ℕ → Ending
  crashes : Ending
  undefined : Ending

pub data Request : Type 0 where
  ping helo bye message other yes_ server unknown : Request

abbrev pub request : ℕ → Request
request c =
    if c == command_ping
    then ping
    else if c == command_helo
    then helo
    else if c == command_bye
    then bye
    else if c == command_message
    then message
    else if c == command_other_message
    then other
    else if c == command_yes
    then yes_
    else if c == command_server
    then server
    else unknown

abbrev pub peer : Arrival → Client → Peer
peer a c = record { ip = a.ip; port = a.port; client_id = c.client_id }

-- The client at place `i`, as it is now.
abbrev pub put : ℕ → Client → Clients → Clients
put i c t = record t { g_clients = set t.g_clients i c }

-- The parser is given the type of the message. A device id that is shorter than
-- the one before leaves the end of that one; one of more than 63 bytes is left out by `on_helo`.
abbrev pub greeted : Arrival → Bytes → Client → ClientHeader → Helo
greeted a bufs c header = parse_client_helo bufs c.drivce_id a.token header.messagetype

-- Fewer bytes than a header: the length of the rest is negative, and large as it is compared.
abbrev pub short_message : ℕ → ℕ → Parsed ClientMessage
short_message n total =
    let nothing : ClientMessage = record { delytime = 0; sendto = []; content = [] } in
    if leb header_size total
    then accepted nothing
    else if leb total n
    then accepted nothing
    else crashed

module _ {R : Redis} (J : JsonLibrary) (serverid : ℕ) (a : Arrival) (i : ℕ) where
  -- The lock is released, the presence of the client removed, and its socket closed.
  abbrev pub close_client : Clients → Client → List Bytes → ℕ → M R Ending
  close_client t c sent unlocks =
      remove_client (some (c.drivce_id, peer a c)) >> pure (done (close_socket i t) sent unlocks)

  -- A reply that cannot be sent closes the client.
  abbrev pub reply : Clients → Client → Bytes → M R Ending
  reply t c b = if a.sends then pure (done t (b ∷ []) 1) else close_client t c (b ∷ []) 1

  abbrev pub on_ping : Clients → Client → M R Ending
  on_ping t c = reply t c (server_header_bytes (create_server_ping serverid))

  -- Only the header of the greeting is sent.
  abbrev pub greet : Clients → Client → M R Ending
  greet t c =
      let b = take header_size (create_server_helo serverid 0 0 0) in
      if a.sends
      then if length c.drivce_id == 0
        then (send_helo_to_client_message a.fuel a.outcomes 0 serverid c.drivce_id
            >> pure (done t (b ∷ []) 2))
        else pure (done t (b ∷ []) 2)
      else close_client t c (b ∷ []) 1

  abbrev pub on_helo : Bytes → ClientHeader → Clients → Client → M R Ending
  on_helo bufs header t c =
      let p = greeted a bufs c header in
      let c' = record c { drivce_id = cstr p.drivce_id } in
      if ltb 63 (read16 bufs)
      then pure undefined
      else if ltb p.result 1
      then close_client (put i c' t) c' [] 1
      else (new_client (peer a c') serverid a.serverip c'.drivce_id header.clienttype a.time
          >>= λ _. greet (put i c' t) c')

  abbrev pub read_message : Bytes → ℕ → ClientHeader → Client → M R (Parsed ClientMessage)
  read_message bufs n header c =
      let sender : Sender = record { drivce_id = c.drivce_id; fromip = a.ip } in
      if ltb n header_size
      then store_parsed sender a.outside a.memory a.guid (short_message n header.total)
      else parse_client_message sender a.outside a.memory a.guid bufs header.total a.pieces

  abbrev pub after_message : Clients → Client → Parsed ClientMessage → M R Ending
  after_message t c (accepted m) = reply t c (create_server_message_reply serverid a.guid a.beyond)
  after_message t c refused = close_client t c [] 1
  after_message t c crashed = pure crashes

  abbrev pub on_message : Bytes → ℕ → ClientHeader → Clients → Client → M R Ending
  on_message bufs n header t c =
      if header.messagetype == message_type_txt
      then (read_message bufs n header c >>= after_message t c)
      else pure undefined

  -- What comes of sending the answer is not looked at.
  abbrev pub after_request : Clients → Handled → M R Ending
  after_request t Handled.unparsed = pure (done t [] 1)
  after_request t Handled.crashed = pure crashes
  after_request t (answered b) = pure (done t (b ∷ []) 1)

  abbrev pub on_other : Bytes → ClientHeader → Clients → Client → M R Ending
  on_other bufs header t c =
      if header.messagetype == message_type_user_reg
      then (parse_client_user_reg J a.heap a.wrong_type serverid a.guid c.drivce_id bufs
          >>= after_request t)
      else if header.messagetype == message_type_user_login
      then (parse_client_user_login J a.heap a.wrong_type serverid c.drivce_id bufs
          >>= after_request t)
      else if header.messagetype == message_type_user_find_username
      then (parse_client_user_find_user J a.heap a.wrong_type serverid bufs >>= after_request t)
      else if header.messagetype == message_type_user_add_friend
      then (parse_client_user_add_user J a.heap a.wrong_type serverid bufs >>= after_request t)
      else if header.messagetype == message_type_user_get_friend
      then (parse_client_user_get_friends J a.heap a.wrong_type serverid bufs >>= after_request t)
      else pure (done t [] 1)

  abbrev pub on_request : Request → Bytes → ℕ → ClientHeader → Clients → Client → M R Ending
  on_request ping bufs n header t c = on_ping t c
  on_request helo bufs n header t c = on_helo bufs header t c
  on_request bye bufs n header t c = close_client t c [] 1
  on_request message bufs n header t c = on_message bufs n header t c
  on_request other bufs n header t c = on_other bufs header t c
  on_request yes_ bufs n header t c = pure (done t [] 1)
  on_request server bufs n header t c = pure (done t [] 1)
  on_request unknown bufs n header t c = close_client t c [] 1

  -- After a `recv` that fails the lock is released before the close and after it.
  abbrev pub on_received : Clients → Client → Option Bytes → M R Ending
  on_received t c none = close_client t c [] 2
  on_received t c (some buf) =
      let p = parse_client_header buf in
      let c' = record c { timeout = a.now } in
      on_request (request p.0.command) p.1 (length buf) p.0 (put i c' t) c'

  unfoldable pub read_thread_function : Clients → Client → M R Ending
  read_thread_function t c = on_received t c a.received
