-- ===== src/Client.antt =====
-- server/client.c: one turn of `message_processer`, the loop in which a client takes what the
-- server sends.
use push_server.Base.{
  ℕ, zero, suc, ◌+◌, Bool, true, false, ◌&&◌, [], ◌∷◌, ◌++◌, Option, none, some, Bytes, length,
  drop, cstr, read16, leb, ltb, ◌==◌, if◌then◌else◌,
}
use push_server.ParseCommand.Header.{
  ServerHeader, header_size, command_message, command_yes, message_type_null, create_client_header,
  client_header_bytes, parse_server_header,
}
use push_server.ParseCommand.Message.{ServerMessage, parse_server_text}
use push_server.MessageStorage.{message_type_txt}
pub mod Received

-- The call that shows a message to the user: the id, the sender and the text, or the name of the
-- file.
pub data Shown : Type 0 where
  recv_data recv_file : (messageid fromdrivce_id message : Bytes) → Shown

-- `passed`: another thread has the lock. `lost`: the loop is left, and the lock is not released.
-- `reads_on`: the message is a file, or a text that has not arrived whole, and its parser calls
-- `recv`. `crashed`: an id is written behind its array. Otherwise a message may be shown, a reply
-- sent, and the lock is released.
pub data Turn : Type 0 where
  passed lost reads_on crashed : Turn
  served : Option Shown → Bytes → Turn

-- The command is compared with a type of message. Nothing ends the text, so what is shown goes on
-- in the `heap` behind it, up to a zero.
abbrev pub show : ServerHeader → Bytes → ServerMessage → Shown
show header heap m =
    if header.command == message_type_txt
    then recv_data m.messageid m.fromdrivece_id (cstr (m.content ++ heap))
    else recv_file m.messageid m.fromdrivece_id (cstr (m.content ++ heap))

-- The arrays of the sender and of the message id have 64 bytes, of which one stays zero.
abbrev pub ids_fit : Bytes → Bool
ids_fit buff =
    let from = drop 4 buff in
    let id = drop (read16 from) (drop 2 from) in ltb (read16 from) 64 && ltb (read16 id) 64

-- COMMAND_MESSAGE, with the bytes behind the header. The size in the header counts the header; the
-- source subtracts 8 from it without a sign. What the heap held in the header of the reply is
-- `garbage` and `pad`.
abbrev pub on_message : ℕ → ℕ → Bytes → ServerHeader → Bytes → ℕ → Turn
on_message garbage pad heap header buff len =
    let reply =
      client_header_bytes pad (create_client_header garbage command_yes message_type_null 1) in
    if header.messagetype == message_type_txt
    then (if leb header_size header.total && leb header.total (header_size + len)
        then (if ids_fit buff
            then served (some (show header heap (parse_server_text buff))) reply
            else crashed)
        else reads_on)
    else reads_on

unfoldable pub message_processer_turn : ℕ → ℕ → Bytes → Bool → Option Bytes → Turn
message_processer_turn garbage pad heap true received = passed
message_processer_turn garbage pad heap false none = lost
message_processer_turn garbage pad heap false (some bufs) =
    let (header, buff) = parse_server_header bufs in
    if leb header_size (length bufs) && (header.command == command_message)
    then on_message garbage pad heap header buff (length buff)
    else served none []
