-- ===== src/Tests/Dispatch.antt =====
-- Turns of the thread that serves a client, for the theorems on `read_thread_function`.
use push_server.Base.{
  [], ◌∷◌, Option, none, some, Bytes, text, Bool, ◌≡◌, refl, arith, true, false, inl,
}
use push_server.Base.Int.{pos}
use push_server.Json.Instance.{trees}
use push_server.Redis.Values.{Value, absent}
use push_server.Redis.Conn.{idle}
use push_server.Redis.Instance.{keyspace, empty}
use push_server.ParseCommand.Header.{
  create_client_header, create_client_ping, client_header_bytes, create_server_ping,
  server_header_bytes, parse_client_header, command_bye, message_type_null,
}
use push_server.MessageStorage.Keys.{noread}
use push_server.MessageStorage.Presence.{connected}
use push_server.MessageStorage.Records.{no_message}
use push_server.MessageStorage.{Environment, get_client_info}
use push_server.AccountProtocol.{Heap}
use push_server.Server.Table.{Client, Clients}
use push_server.Server.Table.Timeouts.{place}
use push_server.Server.Dispatch.{
  Request, other, Arrival, Ending, done, peer, put, read_thread_function,
}
use push_server.Server.Dispatch.Closing.{Closes, read_thread_function-Closes}
use push_server.Server.Dispatch.Greeting.{packet, read_thread_function-greets}
use push_server.Server.Dispatch.Welcome.{greeting}

abbrev bob : Client
bob = record { fd = some 8; client_id = 0; drivce_id = text "bob"; timeout = 0 }

-- A client that has not said who it is.
abbrev new : Client
new = record { fd = some 9; client_id = 1; drivce_id = []; timeout = 0 }

abbrev table : Clients
table = record {
  g_clients = bob ∷ new ∷ [];
  active_socket_connect = 2;
  g_maxi = pos 1;
  epoll = (8, 0) ∷ (9, 1) ∷ [];
  forgotten = [];
}

abbrev world : Environment
world = record {
  message_guid = [];
  guid = text "G1";
  time = text "2015";
  now = 0;
  rand = 0;
  messageid_address = text "4096";
}

abbrev heap : Heap
heap = record {
  pad = 0;
  after_text = [];
  after_name = [];
  after_id = [];
  after_friend = [];
  drivce = [];
}

abbrev arrival : Option Bytes → Arrival
arrival received = record {
  received = received;
  pieces = [];
  sends = true;
  now = 100;
  ip = text "10.0.0.1";
  port = 4000;
  serverip = text "10.0.0.9";
  time = text "2015";
  guid = text "G9";
  outside = λ i. world;
  token = [];
  heap = heap;
  memory = no_message;
  beyond = [];
  wrong_type = text "WRONGTYPE";
  fuel = 10;
  outcomes = λ i. (some (pos 1), 0);
}

abbrev ping_bytes : Bytes
ping_bytes = client_header_bytes 0 (create_client_ping 26)

abbrev pinged : Ending
pinged =
    done (put 0 (record bob { timeout = 100 }) table)
      (server_header_bytes (create_server_ping 3) ∷ []) 1

is_other : Request → Bool
is_other other = true
is_other _ = false

abbrev bye_bytes : Bytes
bye_bytes = client_header_bytes 0 (create_client_header 8 command_bye message_type_null 26)

read_thread_function-Closes_example :
    Closes keyspace trees 3 (arrival (some bye_bytes)) 0 98 (text "ob") empty table bob
unfolding create_client_header parse_client_header
read_thread_function-Closes_example =
    read_thread_function-Closes keyspace trees 3 (arrival (some bye_bytes)) 0 98 (text "ob") empty
      table bob refl refl refl refl (inl refl)

-- "al" in two parts, as the theorem takes it.
abbrev helo_bytes : Bytes
helo_bytes = packet keyspace trees 3 (arrival none) 1 empty 0 7 42 97 (text "l") []

abbrev helo_arrival : Arrival
helo_arrival = arrival (some helo_bytes)

read_thread_function-greets_example :
    (t : Clients) × (c : Client) × (db : Bytes → Value) × (db' : Bytes → Value)
    × (read_thread_function {R = keyspace} trees 3 helo_arrival 1 table new (idle empty)
        ≡ some (done t (greeting keyspace trees 3 helo_arrival 1 empty ∷ []) 2, idle db))
    × (place 1 t ≡ some c)
    × (c.drivce_id ≡ text "al")
    × (c.fd ≡ some 9)
    × (get_client_info {R = keyspace} (some (text "al")) (idle db)
        ≡ some (
          some (connected (peer helo_arrival new) 3 (text "10.0.0.9") (text "al") 42 (text "2015")),
          idle db',
        ))
    × (db (noread (text "al")) ≡ absent)
read_thread_function-greets_example =
    read_thread_function-greets keyspace trees 3 helo_arrival 1 empty 0 7 42 97 (text "l") [] table
      new refl refl refl refl (omega arith) (omega arith) (λ e. omega (arith, e)) refl
