-- ===== src/Client/Received.antt =====
-- What a client of server/client.c does with a text that server/parse_command.c has written.
use push_server.Base.{
  ℕ, ◌+◌, ◌-◌, ◌%◌, length-drop, ◌<◌, ◌≤◌, true, false, ◌&&◌, some, Bytes, ◌++◌, drop, cstr, length,
  leb, ltb, ◌==◌, ◌≡◌, refl, ap, ◌∙◌, arith,
}
use push_server.ParseCommand.Header.{
  ServerHeader, header_size, command_message, command_yes, message_type_null, create_client_header,
  client_header_bytes, parse_server_header, parse_client_header, create_server_header,
}
use push_server.ParseCommand.Message.{
  ServerDraft, ServerMessage, create_server_message, server_total, parse_server_text,
}
use push_server.ParseCommand.Message.RoundTrip.{IsField}
use push_server.ParseCommand.Message.Replies.{
  server_text, read16-server_text, create_server_message-server_text,
  create_server_message-allocated, create_server_message-parse_server_text,
}
use push_server.MessageStorage.{message_type_txt}
use push_server.Server.Dispatch.{request, yes_}
use push_server.Client.{recv_file, served, ids_fit, on_message, message_processer_turn}

le→leb : (a b : ℕ) → a ≤ b → leb a b ≡ true
le→leb a b h = ground arith

both_fit : (a b m n : ℕ) → a ≡ m → b ≡ n → m < 64 → n < 64 → (ltb a 64 && ltb b 64) ≡ true
both_fit a b m n e f h k = ground arith

both : (a b c d : ℕ) → a ≤ b → c ≡ d → (leb a b && (c == d)) ≡ true
both a b c d h e = ground arith

-- A text of which the header and the size are as they should be.
on_message-text :
    (garbage pad : ℕ) (heap : Bytes) (header : ServerHeader) (buff : Bytes) (len : ℕ)
    → ids_fit buff ≡ true
    → header.command ≡ command_message
    → header.messagetype ≡ message_type_txt
    → header_size ≤ header.total
    → header.total ≤ header_size + len
    → let s = parse_server_text buff in
      on_message garbage pad heap header buff len
      ≡ served
          (some (recv_file s.messageid s.fromdrivece_id (cstr (s.content ++ heap))))
          (client_header_bytes pad (create_client_header garbage command_yes message_type_null 1))
on_message-text garbage pad heap header buff len fit c t low high = rw t (
    rw (le→leb header_size header.total low)
      (rw (le→leb header.total (header_size + len) high) (rw fit (rw c refl))))

length-parse_server_header :
    (bufs : Bytes) → length (parse_server_header bufs).1 ≡ length bufs - header_size
unfolding parse_server_header
length-parse_server_header bufs = length-drop header_size bufs

rest_of_header : (bufs : Bytes) → (parse_server_header bufs).1 ≡ drop header_size bufs
unfolding parse_server_header
rest_of_header bufs = refl

server_total-header : (m : ServerDraft) → header_size ≤ server_total m
unfolding server_total
server_total-header m = omega arith

-- A text message of the server that arrives whole, while no other thread has the lock, is shown
-- with its id and the token in it, but as a file; what is shown as its text is the text and, as
-- nothing ends it, what the heap has behind it, up to a zero. The reply is one that the server
-- takes as COMMAND_YES. The token and the id have less than 64 bytes and hold no zero byte, the
-- length of the text fits in two bytes, the time in four, and the message in the 4096 bytes of one
-- `recv`.
pub message_processer_turn-create_server_message :
    (garbage pad : ℕ) (heap : Bytes) (m : ServerDraft)
    → m.messagetype ≡ message_type_txt
    → m.sendtime < 4294967296
    → IsField m.to
    → IsField m.messageid
    → length m.to < 64
    → length m.messageid < 64
    → length m.content < 65536
    → server_total m ≤ 4096
    → let reply =
        client_header_bytes pad (create_client_header garbage command_yes message_type_null 1) in
      (message_processer_turn garbage pad heap false (some (create_server_message m).bytes)
        ≡ served (some (recv_file m.messageid m.to (cstr (m.content ++ heap)))) reply)
      × (request (parse_client_header reply).0.command ≡ yes_)
unfolding message_processer_turn parse_client_header create_client_header create_server_header
    create_server_message
message_processer_turn-create_server_message garbage pad heap m t hs hto hid sto sid hc small =
    let bufs = (create_server_message m).bytes in
    let p = parse_server_header bufs in
    let (head, body) = create_server_message-parse_server_text m t hs hto hid hc (omega arith) in
    let (size, total) = create_server_message-allocated m (omega arith) in
    let least = server_total-header m in
    let command : p.0.command ≡ command_message = ap (λ (h : ServerHeader). h.command) head in
    let type : p.0.messagetype ≡ message_type_txt =
      ap (λ (h : ServerHeader). h.messagetype) head ∙ ap (λ n. n % 256) t in
    let lengths = read16-server_text m.sendtime m.to m.messageid m.content hto hid in
    let arrived : p.1 ≡ server_text m.sendtime m.to m.messageid m.content =
      rest_of_header (create_server_message m).bytes ∙ create_server_message-server_text m t in
    let fit : ids_fit p.1 ≡ true =
      ap ids_fit arrived
      ∙ both_fit _ _ (length m.to) (length m.messageid) lengths.0 lengths.1 sto sid in
    let whole =
      on_message-text garbage pad heap p.0 p.1 (length p.1) fit command type (omega arith)
        (omega (arith, length-parse_server_header bufs)) in
    let test : (leb header_size (length bufs) && (p.0.command == command_message)) ≡ true =
      both header_size (length bufs) p.0.command command_message (omega arith) command in
    (
      rw test whole
          ∙ ap
              (λ (s : ServerMessage).
                served (some (recv_file s.messageid s.fromdrivece_id (cstr (s.content ++ heap)))) (
                  client_header_bytes pad
                    (create_client_header garbage command_yes message_type_null 1)))
              body,
      refl,
    )
