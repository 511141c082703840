-- ===== src/ParseCommand/Message/Replies.antt =====
-- Texts sent by `createServerMessage` and read by `parseServerMessage`.
use push_server.Base.{
  ℕ, suc, ◌+◌, ◌<◌, Bool-cases, inl, inr, [], ◌∷◌, ◌++◌, Bytes, length, take, drop, take-all,
  length-append, ◌==◌, ==_iff, cstr, be32, read16, read16-be16, read32_be-be32, ◌≡◌, refl, sym, ap,
  ◌∙◌, arith,
}
use push_server.ParseCommand.Header.{
  ServerHeader, header_size, command_message, create_server_header, parse_server_header,
  parse_server_header-bytes,
}
use push_server.ParseCommand.Message.{
  field16, ServerDraft, server_body, server_total, create_server_message, ServerMessage,
  parse_server_text, create_server_message_reply, reply_total,
}
use push_server.ParseCommand.Message.RoundTrip.{IsField, cstr-whole, take-field16, drop-field16}
use push_server.MessageStorage.{message_type_txt}

abbrev pub server_text : ℕ → Bytes → Bytes → Bytes → Bytes
server_text sendtime to messageid content =
    be32 sendtime ++ (field16 to ++ (field16 messageid ++ field16 content))

-- A field at the front, and what is behind it.
abbrev first : Bytes → Bytes
first xs = take (read16 xs) (drop 2 xs)

abbrev behind : Bytes → Bytes
behind xs = drop (read16 xs) (drop 2 xs)

-- The fields that `parseServerMessage` reads, each from where the last one ends.
abbrev view : ℕ → Bytes → Bytes → Bytes → ServerMessage
view sendtime from id body = record {
  sendtime = sendtime;
  fromdrivece_id = cstr from;
  messageid = cstr id;
  content = first body;
}

abbrev message : ℕ → Bytes → Bytes → Bytes → ServerMessage
message sendtime from id content = record {
  sendtime = sendtime;
  fromdrivece_id = from;
  messageid = id;
  content = content;
}

message_eq :
    {sendtime : ℕ} {from from' id id' content content' : Bytes}
    → from ≡ from'
    → id ≡ id'
    → content ≡ content'
    → message sendtime from id content ≡ message sendtime from' id' content'
message_eq e f g = cc

parse_server_text-server_text :
    (sendtime : ℕ) (to messageid content : Bytes)
    → sendtime < 4294967296
    → IsField to
    → IsField messageid
    → length content < 65536
    → parse_server_text (server_text sendtime to messageid content) ≡ (record {
      sendtime = sendtime;
      fromdrivece_id = to;
      messageid = messageid;
      content = content;
    })
unfolding parse_server_text
parse_server_text-server_text sendtime to messageid content ht hto hid hc =
    let last = field16 content in
    let rest = field16 messageid ++ last in
    let from = field16 to ++ rest in
    ap (λ n. view n (first from) (first (behind from)) (behind (behind from)))
      (read32_be-be32 sendtime from ht)
    ∙ ap (λ t. view sendtime t (first (behind from)) (behind (behind from)))
        (take-field16 to rest hto.1)
    ∙ ap (λ t. view sendtime to (first t) (behind t)) (drop-field16 to rest hto.1)
    ∙ ap (λ t. view sendtime to t (behind rest)) (take-field16 messageid last hid.1)
    ∙ ap (view sendtime to messageid) (drop-field16 messageid last hid.1)
    ∙ message_eq (cstr-whole to hto.0) (cstr-whole messageid hid.0) (
        ap (λ n. take n content) (read16-be16 (length content) content hc)
        ∙ take-all (length content) content (omega arith))

-- The lengths of the token and of the id, where the client reads them.
pub read16-server_text :
    (sendtime : ℕ) (to messageid content : Bytes)
    → IsField to
    → IsField messageid
    → let from = drop 4 (server_text sendtime to messageid content) in
      (read16 from ≡ length to) × (read16 (drop (read16 from) (drop 2 from)) ≡ length messageid)
read16-server_text sendtime to messageid content hto hid =
    let rest = field16 messageid ++ field16 content in
    (
      read16-be16 (length to) (to ++ rest) hto.1,
      ap read16 (drop-field16 to rest hto.1)
          ∙ read16-be16 (length messageid) (messageid ++ field16 content) hid.1,
    )

pub create_server_message-server_text :
    (m : ServerDraft)
    → m.messagetype ≡ message_type_txt
    → drop header_size (create_server_message m).bytes
      ≡ server_text m.sendtime m.to m.messageid m.content
unfolding create_server_message server_body
create_server_message-server_text m t =
    rw ((==_iff m.messagetype message_type_txt).1 t, server_body) refl

abbrev pub sent_header : ServerDraft → ServerHeader
sent_header m = record (create_server_header m.serverid command_message m.messagetype) {
  total = server_total m;
}

create_server_message-header :
    (m : ServerDraft)
    → server_total m < 4294967296
    → parse_server_header (create_server_message m).bytes
      ≡ (sent_header m, drop header_size (create_server_message m).bytes)
unfolding create_server_message create_server_header
create_server_message-header m small =
    parse_server_header-bytes (sent_header m) (drop header_size (create_server_message m).bytes)
      (omega arith) small

-- The client reads back what the server puts in a text message: in the header the command, the
-- low byte of the type, the low two bytes of the server's number and the size of the message, and
-- behind it the time, the receiver's token, the message's id and the text. The token and the id
-- hold no zero byte, each length fits in two bytes, the time and the size in four.
pub create_server_message-parse_server_text :
    (m : ServerDraft)
    → m.messagetype ≡ message_type_txt
    → m.sendtime < 4294967296
    → IsField m.to
    → IsField m.messageid
    → length m.content < 65536
    → server_total m < 4294967296
    → let p = parse_server_header (create_server_message m).bytes in
      (p.0 ≡ sent_header m)
      × (parse_server_text p.1 ≡ (record {
        sendtime = m.sendtime;
        fromdrivece_id = m.to;
        messageid = m.messageid;
        content = m.content;
      }))
create_server_message-parse_server_text m t hs hto hid hc small =
    let e = create_server_message-header m small in
    (
      ap (λ p. p.0) e,
      ap (λ p. parse_server_text p.1) e
          ∙ ap parse_server_text (create_server_message-server_text m t)
          ∙ parse_server_text-server_text m.sendtime m.to m.messageid m.content hs hto hid hc,
    )

-- The part of the size that depends on the type is the length of that part.
length-server_body :
    (m : ServerDraft)
    → header_size + 4 + 2 + length m.to + 2 + length m.messageid + length (server_body m)
      ≡ server_total m
unfolding server_total server_body
length-server_body m = elim (Bool-cases (m.messagetype == message_type_txt)) [
  | inl e ↦ rw (e, server_body) (omega arith)
  | inr e ↦
      rw (e, server_body)
        (omega (arith, length-append m.org_file_name (be32 (length m.file) ++ m.file)))
]

-- The buffer is as large as what is written in it, and the header names that size: for a text
-- and for a file alike, if four bytes can hold the size.
pub create_server_message-allocated :
    (m : ServerDraft)
    → server_total m < 4294967296
    → (length (create_server_message m).bytes ≡ (create_server_message m).allocated)
      × ((parse_server_header (create_server_message m).bytes).0.total
          ≡ length (create_server_message m).bytes)
unfolding create_server_message
create_server_message-allocated m small =
    let e : length (create_server_message m).bytes ≡ server_total m = omega (
      arith,
      length-server_body m,
      length-append m.to (field16 m.messageid ++ server_body m),
      length-append m.messageid (server_body m),
    ) in
    (e, ap (λ p. p.0.total) (create_server_message-header m small) ∙ sym e)

take-append_add : (xs ys : Bytes) (n : ℕ) → take (length xs + n) (xs ++ ys) ≡ xs ++ take n ys
take-append_add [] ys n = ap (λ m. take m ys) (omega arith)
take-append_add (x ∷ xs) ys n =
    ap (λ m. take m (x ∷ (xs ++ ys))) {x = suc (length xs) + n} {y = suc (length xs + n)}
      (omega arith)
    ∙ ap (λ (l : Bytes). x ∷ l) (take-append_add xs ys n)

-- The acknowledgement that `createServerMessageReply` sends has neither its header nor a length in
-- it: it is the message id and ten bytes of the heap behind the buffer.
pub create_server_message_reply-beyond :
    (serverid : ℕ) (messageid beyond : Bytes)
    → create_server_message_reply serverid messageid beyond ≡ messageid ++ take 10 beyond
unfolding create_server_message_reply
create_server_message_reply-beyond serverid messageid beyond =
    ap (λ n. take n (messageid ++ beyond)) {x = reply_total messageid} {y = length messageid + 10}
      (omega arith)
    ∙ take-append_add messageid beyond 10
