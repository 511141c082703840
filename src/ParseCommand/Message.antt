-- ===== src/ParseCommand/Message.antt =====
-- The text messages of server/parse_command.c: `createClientMessage`, `parseClientMessage`,
-- `createServerMessage` and `parseServerMessage`. Texts are C strings without their last zero.
pub mod Replies
pub mod RoundTrip
pub mod Sizes
pub mod Split
use push_server.Base.{
  ℕ, zero, suc, ◌+◌, ◌-◌, ◌*◌, Bool, true, false, ◌&&◌, List, [], ◌∷◌, ◌++◌, Bytes, length, take,
  drop, min, ltb, leb, ◌==◌, cstr, be16, be32, le32, read16, read32_be, if◌then◌else◌,
}
use push_server.SendList.{ListLibrary, drain}
use push_server.Util.{get_file_name}
use push_server.ParseCommand.Header.{
  ClientHeader, ServerHeader, header_size, maxbuf, command_message, command_yes, message_type_null,
  create_client_header, create_server_header, client_header_bytes, server_header_bytes,
}
use push_server.MessageStorage.{message_type_txt}

-- A length in two bytes, and the text.
abbrev pub field16 : Bytes → Bytes
field16 xs = be16 (length xs) ++ xs

abbrev pub fields16 : List Bytes → Bytes
fields16 [] = []
fields16 (x ∷ xs) = field16 x ++ fields16 xs

-- What a function writes in a buffer, and the size of the buffer.
pub record Built : Type 0 where
  pub allocated : ℕ
  pub bytes : Bytes

-- The buffer `tempBufhead`: a count and the recipients, taken off the list.
unfoldable pub recipients : (S : ListLibrary) → S.Handle → Built
recipients S sendto = record {
  allocated = 64 * S.len sendto + 2 * (S.len sendto + 1);
  bytes = be16 (S.len sendto) ++ fields16 (drain S (suc (S.len sendto)) sendto);
}

-- The arguments of `createClientMessage`, with the size of the file and what the heap held.
pub record Draft : Type 0 where
  pub messagetype : ℕ
  pub clienttype : ℕ
  pub delytime : ℕ
  pub content_or_file_name : Bytes
  pub filesize : ℕ
  pub garbage : ℕ
  pub pad : ℕ

-- The size of the part behind the recipients, as it is counted.
unfoldable pub content_length : Draft → ℕ
content_length m =
    if m.messagetype == message_type_txt
    then 2 + length m.content_or_file_name
    else 2 + length (get_file_name m.content_or_file_name) + 2

unfoldable pub content_bytes : Draft → Bytes
content_bytes m =
    if m.messagetype == message_type_txt
    then field16 m.content_or_file_name
    else field16 (get_file_name m.content_or_file_name) ++ le32 m.filesize

-- The recipients are first written in `tempBufhead`, whose size is not compared with them: where
-- `recipients` has more bytes than room the source writes behind it, and these bytes are not what
-- it need send.
unfoldable pub create_client_message : (S : ListLibrary) → Draft → S.Handle → Built
create_client_message S m sendto =
    let to = (recipients S sendto).bytes in
    let total = header_size + (2 + length to) + content_length m in
    record {
      allocated = total;
      bytes =
          client_header_bytes m.pad
            (record (create_client_header m.garbage command_message m.messagetype m.clienttype) {
              total = total;
            })
          ++ (be16 m.delytime ++ (to ++ content_bytes m));
    }

pub record ClientMessage : Type 0 where
  pub delytime : ℕ
  pub sendto : List Bytes
  pub content : Bytes

-- `accepted`: the message is stored for its recipients. `refused` is the result -1, `crashed` a
-- copy of a negative number of bytes, or one that may leave the buffer that it reads or writes.
pub data Parsed {ℓ} (A : Type ℓ) : Type ℓ where
  accepted : A → Parsed A
  refused : Parsed A
  crashed : Parsed A

-- The recipients: the texts, the bytes that they take, and what is behind them.
pub record Fields : Type 0 where
  pub texts : List Bytes
  pub used : ℕ
  pub rest : Bytes

unfoldable pub read_fields : ℕ → Bytes → Fields
read_fields zero buf = record { texts = []; used = 0; rest = buf }
read_fields (suc n) buf =
    let len = read16 buf in
    let more = read_fields n (drop len (drop 2 buf)) in
    record more { texts = cstr (take len (drop 2 buf)) ∷ more.texts; used = 2 + len + more.used }

-- `header->total > recvlens`, of numbers that have a sign.
abbrev pub exceeds : ℕ → ℕ → Bool
exceeds total recvlens = ltb total 2147483648 && ltb recvlens total

-- `while (header->total > recvlens)`: each piece that arrives is copied to the front of the text,
-- which has room for `len` bytes and a zero. The socket does not wait: an empty piece, and the end
-- of the pieces, is a result of `recv` that is not positive.
unfoldable pub receive : ℕ → ℕ → ℕ → Bytes → List Bytes → Parsed Bytes
receive len total recvlens text [] = if exceeds total recvlens then refused else accepted text
receive len total recvlens text (piece ∷ pieces) =
    let got = take (min maxbuf (total - recvlens)) piece in
    let more = receive len total (recvlens + length got) (got ++ drop (length got) text) pieces in
    if exceeds total recvlens
    then (if length got == 0 then refused else if ltb len (length got) then crashed else more)
    else accepted text

abbrev pub map_parsed {ℓ κ} : {A : Type ℓ} {B : Type κ} → (A → B) → Parsed A → Parsed B
map_parsed f (accepted a) = accepted (f a)
map_parsed f refused = refused
map_parsed f crashed = crashed

-- `parseClientMessage` on a text: `bufs` is what was received behind the header, `total` the size
-- that the header names, `pieces` what `recv` gives later. `total - sizeof(client_header_2_t)` is
-- unsigned, and so is never reached if `total` is smaller than a header. What lies behind the 4096
-- bytes of the receive buffer is not the message's.
unfoldable pub parse_client_text : Bytes → ℕ → List Bytes → Parsed ClientMessage
parse_client_text bufs total pieces =
    let fields = read_fields (read16 (drop 2 bufs)) (drop 4 bufs) in
    let len = read16 fields.rest in
    let behind = drop 2 fields.rest in
    let used = 6 + fields.used in
    map_parsed (λ c. record { delytime = read16 bufs; sendto = fields.texts; content = cstr c })
      (if ltb maxbuf (header_size + used + len)
        then crashed
        else if leb header_size total && leb (total - header_size) (length bufs)
        then accepted (take len behind)
        else if leb used (length bufs) && leb (length bufs - used) len
        then receive len total (length bufs) (take (length bufs - used) behind) pieces
        else crashed)

-- `createServerMessage`: `to`, `messageid` and `content` of a text, or the name and the bytes of a
-- file, whose size is `filesize`.
pub record ServerDraft : Type 0 where
  pub messagetype : ℕ
  pub serverid : ℕ
  pub sendtime : ℕ
  pub to : Bytes
  pub messageid : Bytes
  pub content : Bytes
  pub org_file_name : Bytes
  pub file : Bytes

unfoldable pub server_body : ServerDraft → Bytes
server_body m =
    if m.messagetype == message_type_txt
    then field16 m.content
    else field16 m.org_file_name ++ (be32 (length m.file) ++ m.file)

unfoldable pub server_total : ServerDraft → ℕ
server_total m =
    header_size
    + 4
    + 2
    + length m.to
    + 2
    + length m.messageid
    + (if m.messagetype == message_type_txt
        then 2 + length m.content
        else 2 + length m.org_file_name + 4 + length m.file)

unfoldable pub create_server_message : ServerDraft → Built
create_server_message m = record {
  allocated = server_total m;
  bytes =
      server_header_bytes (record (create_server_header m.serverid command_message m.messagetype) {
        total = server_total m;
      })
      ++ (be32 m.sendtime ++ (field16 m.to ++ (field16 m.messageid ++ server_body m)));
}

pub record ServerMessage : Type 0 where
  pub sendtime : ℕ
  pub fromdrivece_id : Bytes
  pub messageid : Bytes
  pub content : Bytes

-- `parseServerMessage` on a text that has arrived whole; the text is not ended by a zero.
unfoldable pub parse_server_text : Bytes → ServerMessage
parse_server_text bufs =
    let from = drop 4 bufs in
    let id = drop (read16 from) (drop 2 from) in
    let body = drop (read16 id) (drop 2 id) in
    record {
      sendtime = read32_be bufs;
      fromdrivece_id = cstr (take (read16 from) (drop 2 from));
      messageid = cstr (take (read16 id) (drop 2 id));
      content = take (read16 body) (drop 2 body);
    }

abbrev pub reply_total : Bytes → ℕ
reply_total messageid = header_size + 2 + length messageid

-- What `createServerMessageReply` hands to `send`: the pointer to the buffer has moved to where
-- the message id is written, and `beyond` is what the heap holds behind the buffer.
unfoldable pub create_server_message_reply : ℕ → Bytes → Bytes → Bytes
create_server_message_reply serverid messageid beyond =
    let written =
      server_header_bytes (record (create_server_header serverid command_yes message_type_null) {
        total = reply_total messageid;
      })
      ++ field16 messageid in
    take (reply_total messageid) (drop (header_size + 2) written ++ beyond)
