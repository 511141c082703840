-- ===== src/Tests/Wire.antt =====
-- Small messages, for the theorems on server/parse_command.c and server/util.c.
use push_server.Base.{
  Bool, true, false, none, ◌&&◌, ltb, some, List, [], ◌∷◌, Bytes, length, text, take, ◌≤◌, IsText,
  ◌≡◌, refl, arith,
}
use push_server.SendList.{plain_lists, drain, lpop_list}
use push_server.MessageStorage.{message_type_txt}
use push_server.ParseCommand.Header.{
  parse_server_header, parse_client_header, client_header_bytes, create_client_header, command_yes,
  message_type_null,
}
use push_server.Server.Dispatch.{request, yes_}
use push_server.Util.Path.{create_full_path}
use push_server.Util.Split.{split, strtok_from}
use push_server.Client.{recv_file, served, lost, message_processer_turn}
use push_server.Client.Received.{message_processer_turn-create_server_message}
use push_server.ParseCommand.Message.{
  Draft, content_length, create_client_message, recipients, accepted, refused, parse_client_text,
  ServerDraft, create_server_message, server_total, parse_server_text, read_fields,
}
use push_server.ParseCommand.Message.RoundTrip.{
  client_body, read_client_message, create_client_message-parse_client_text,
}
use push_server.ParseCommand.Message.Replies.{sent_header, create_server_message-parse_server_text}
use push_server.ParseCommand.Message.Split.{parse_client_text-refused}
use push_server.ParseCommand.Transfer.{sent, server_send}
use push_server.ParseCommand.Transfer.Exact.{server_send-exact}

abbrev draft : Draft
draft = record {
  messagetype = message_type_txt;
  clienttype = 26;
  delytime = 0;
  content_or_file_name = text "hi";
  filesize = 0;
  garbage = 7;
  pad = 0;
}

abbrev is_text : Bytes → Bool
is_text [] = true
is_text (c ∷ cs) = (ltb 0 c && ltb c 256) && is_text cs

is_text→IsText : (xs : Bytes) → is_text xs ≡ true → IsText xs
is_text→IsText [] h = tt
is_text→IsText (c ∷ cs) h = (ground arith, ground arith, is_text→IsText cs (ground arith))

bob : IsText (text "bob")
bob = is_text→IsText (text "bob") refl

al : IsText (text "al")
al = is_text→IsText (text "al") refl

hi : IsText (text "hi")
hi = is_text→IsText (text "hi") refl

g1 : IsText (text "G1")
g1 = is_text→IsText (text "G1") refl

abbrev to : List Bytes
to = text "bob" ∷ text "al" ∷ []

create_client_message-parse_client_text_example :
    (length (recipients plain_lists to).bytes ≤ (recipients plain_lists to).allocated)
    × (read_client_message (create_client_message plain_lists draft to).bytes []
        ≡ accepted (record { delytime = 0; sendto = to; content = text "hi" }))
unfolding create_client_message recipients content_length drain lpop_list
create_client_message-parse_client_text_example =
    create_client_message-parse_client_text plain_lists draft to [] refl (omega arith) (omega arith)
      ((bob, omega arith), ((al, omega arith), tt)) (omega arith, (omega arith, tt))
      (hi, omega arith) (omega arith)

-- A file named "f".
abbrev file_draft : Draft
file_draft = record draft { messagetype = 0xF2; content_or_file_name = text "f" }

abbrev reply : ServerDraft
reply = record {
  messagetype = message_type_txt;
  serverid = 3;
  sendtime = 1000;
  to = text "bob";
  messageid = text "G1";
  content = text "hi";
  org_file_name = [];
  file = [];
}

create_server_message-parse_server_text_example :
    let p = parse_server_header (create_server_message reply).bytes in
    (p.0 ≡ sent_header reply)
    × (parse_server_text p.1 ≡ (record {
      sendtime = 1000;
      fromdrivece_id = text "bob";
      messageid = text "G1";
      content = text "hi";
    }))
unfolding server_total
create_server_message-parse_server_text_example =
    create_server_message-parse_server_text reply refl (omega arith) (bob, omega arith)
      (g1, omega arith) (omega arith) (omega arith)

-- The first buffer ends after the first letter of "hi", and the second letter comes alone.
parse_client_text-refused_example :
    parse_client_text (take 12 (client_body 0 (text "bob" ∷ []) (text "hi"))) 21 (text "i" ∷ [])
    ≡ refused
unfolding read_fields
parse_client_text-refused_example =
    parse_client_text-refused (take 12 (client_body 0 (text "bob" ∷ []) (text "hi"))) 21
      (text "i" ∷ []) (omega arith, refl) (omega arith, omega arith, tt) (omega arith) refl
      (omega arith)

server_send-exact_example : server_send (text "hi") (sent 1 ∷ sent 5 ∷ []) 2 ≡ some (text "hi")
server_send-exact_example =
    server_send-exact (text "hi") (sent 1 ∷ sent 5 ∷ []) (omega arith, (omega arith, tt))
      (omega arith) (omega arith)

message_processer_turn-create_server_message_example :
    let answer = client_header_bytes 0 (create_client_header 9 command_yes message_type_null 1) in
    (message_processer_turn 9 0 (text "!") false (some (create_server_message reply).bytes)
      ≡ served (some (recv_file (text "G1") (text "bob") (text "hi!"))) answer)
    × (request (parse_client_header answer).0.command ≡ yes_)
unfolding server_total
message_processer_turn-create_server_message_example =
    message_processer_turn-create_server_message 9 0 (text "!") reply refl (omega arith)
      (bob, omega arith) (g1, omega arith) (omega arith) (omega arith) (omega arith) (omega arith)

-- Less than a header is taken and answered with nothing; a connection that ends leaves the lock.
short_reply : message_processer_turn 9 0 [] false (some (text "abc")) ≡ served none []
unfolding message_processer_turn parse_server_header
short_reply = refl

connection_lost : message_processer_turn 9 0 [] false none ≡ lost
unfolding message_processer_turn
connection_lost = refl

-- The last token needs no delimiter, and a run of them makes no token.
three_tokens : split (text "_a__bc_d") (text "_") ≡ text "a" ∷ text "bc" ∷ text "d" ∷ []
unfolding split strtok_from
three_tokens = refl

in_directory : create_full_path (text "/tmp/") (text "f") [] ≡ text "/tmp//f"
unfolding create_full_path
in_directory = refl
