-- ===== src/ParseCommand/Message/RoundTrip.antt =====
-- Texts sent by `createClientMessage` and read by `parseClientMessage`, and sent by
-- `createServerMessage` and read by `parseServerMessage`.
use push_server.Base.{
  ℕ, zero, suc, ◌+◌, ◌-◌, ◌<◌, ◌≤◌, true, false, ltb, ◌&&◌, List, [], ◌∷◌, ◌++◌, append_assoc,
  Bytes, length, take, drop, take-all, take-append_length, drop-append_length, length-append, leb,
  ==_iff, cstr, IsText, be16, read16, read16-be16, ◌≡◌, refl, ap, ◌∙◌, arith,
}
use push_server.SendList.{ListLibrary, drain-len}
use push_server.ParseCommand.Header.{
  ClientHeader, maxbuf, header_size, command_message, create_client_header, parse_client_header,
  parse_client_header-bytes,
}
use push_server.ParseCommand.Message.{
  field16, fields16, recipients, Draft, content_length, content_bytes, create_client_message,
  Parsed, accepted, map_parsed, ClientMessage, Fields, read_fields, parse_client_text,
}
use push_server.ParseCommand.Message.Sizes.{AllShort, recipients-fit}
use push_server.MessageStorage.{message_type_txt}

-- A text that two bytes can give the length of.
abbrev pub IsField : Bytes → Type 0
IsField xs = IsText xs × (length xs < 65536)

abbrev pub AllFields : List Bytes → Type 0
AllFields [] = Unit
AllFields (x ∷ xs) = IsField x × AllFields xs

-- A text whose zero is not sent ends where the bytes end.
pub cstr-whole : (xs : Bytes) → IsText xs → cstr xs ≡ xs
cstr-whole [] h = refl
cstr-whole (zero ∷ xs) h = absurd (omega arith)
cstr-whole (suc c ∷ xs) h = ap (λ (l : Bytes). suc c ∷ l) (cstr-whole xs h.2)

pub read16-field16 : (xs rest : Bytes) → length xs < 65536 → read16 (field16 xs ++ rest) ≡ length xs
read16-field16 xs rest h = read16-be16 (length xs) (xs ++ rest) h

-- The text of a field in front of `rest`.
pub take-field16 :
    (xs rest : Bytes) → length xs < 65536 → take (read16 (field16 xs ++ rest)) (xs ++ rest) ≡ xs
take-field16 xs rest h =
    ap (λ n. take n (xs ++ rest)) (read16-field16 xs rest h) ∙ take-append_length xs rest

-- What is behind a field.
pub drop-field16 :
    (xs rest : Bytes) → length xs < 65536 → drop (read16 (field16 xs ++ rest)) (xs ++ rest) ≡ rest
drop-field16 xs rest h =
    ap (λ n. drop n (xs ++ rest)) (read16-field16 xs rest h) ∙ drop-append_length xs rest

abbrev found : List Bytes → ℕ → Bytes → Fields
found xs n rest = record { texts = xs; used = n; rest = rest }

-- The result of a turn of the loop, once the length and what is behind the text are known.
abbrev turn : ℕ → Bytes → Fields → Fields
turn len x more = record more { texts = x ∷ more.texts; used = 2 + len + more.used }

read_fields-suc :
    (n : ℕ) (x rest : Bytes)
    → IsField x
    → read_fields (suc n) (field16 x ++ rest) ≡ turn (length x) x (read_fields n rest)
unfolding read_fields
read_fields-suc n x rest h =
    let e = read16-field16 x rest h.1 in
    ap (λ len. turn len (cstr (take len (x ++ rest))) (read_fields n (drop len (x ++ rest)))) e
    ∙ ap (λ t. turn (length x) (cstr t) (read_fields n (drop (length x) (x ++ rest))))
        (take-append_length x rest)
    ∙ ap (λ t. turn (length x) t (read_fields n (drop (length x) (x ++ rest)))) (cstr-whole x h.0)
    ∙ ap (λ t. turn (length x) x (read_fields n t)) (drop-append_length x rest)

-- The loop over the recipients finds the texts, their length, and what is behind them.
pub read_fields-fields16 :
    (xs : List Bytes) (rest : Bytes)
    → AllFields xs
    → read_fields (length xs) (fields16 xs ++ rest) ≡ found xs (length (fields16 xs)) rest
unfolding read_fields
read_fields-fields16 [] rest h = refl
read_fields-fields16 (x ∷ xs) rest h =
    ap (read_fields (suc (length xs))) (append_assoc (field16 x) (fields16 xs) rest)
    ∙ (read_fields-suc (length xs) x (fields16 xs ++ rest) h.0
        ∙ ap (turn (length x) x) (read_fields-fields16 xs rest h.1)
        ∙ ap (λ n. found (x ∷ xs) n rest) {x = 2 + length x + length (fields16 xs)}
            {y = length (field16 x ++ fields16 xs)}
            (omega (arith, length-append (field16 x) (fields16 xs))))

-- The part of a text message behind its header.
abbrev pub client_body : ℕ → List Bytes → Bytes → Bytes
client_body delytime to content =
    be16 delytime ++ (be16 (length to) ++ (fields16 to ++ field16 content))

-- The text of a message that has arrived whole.
abbrev whole : ℕ → Fields → Parsed ClientMessage
whole d f =
    map_parsed (λ c. record { delytime = d; sendto = f.texts; content = cstr c })
      (accepted (take (read16 f.rest) (drop 2 f.rest)))

in_buffer : (n : ℕ) → n ≤ maxbuf → ltb maxbuf n ≡ false
in_buffer n h = ground arith

arrived :
    (n : ℕ) → (leb header_size (header_size + n) && leb (header_size + n - header_size) n) ≡ true
arrived n = ground arith

parse_client_text-whole :
    (bufs : Bytes) (pieces : List Bytes)
    → (let f = read_fields (read16 (drop 2 bufs)) (drop 4 bufs) in
        header_size + (6 + f.used) + read16 f.rest ≤ maxbuf)
    → parse_client_text bufs (header_size + length bufs) pieces
      ≡ whole (read16 bufs) (read_fields (read16 (drop 2 bufs)) (drop 4 bufs))
unfolding parse_client_text
parse_client_text-whole bufs pieces h =
    let f = read_fields (read16 (drop 2 bufs)) (drop 4 bufs) in
    rw (in_buffer (header_size + (6 + f.used) + read16 f.rest) h) (rw (arrived (length bufs)) refl)

parse_client_text-client_body :
    (d : ℕ) (to : List Bytes) (content : Bytes) (pieces : List Bytes)
    → d < 65536
    → length to < 65536
    → AllFields to
    → IsField content
    → header_size + length (client_body d to content) ≤ maxbuf
    → parse_client_text
        (client_body d to content)
        (header_size + length (client_body d to content))
        pieces
      ≡ accepted (record { delytime = d; sendto = to; content = content })
parse_client_text-client_body d to content pieces hd hn ht hc room =
    let rest = fields16 to ++ field16 content in
    parse_client_text-whole (client_body d to content) pieces (
      rw (read16-be16 (length to) rest hn) (
        rw (read_fields-fields16 to (field16 content) ht) (
          omega (
            arith,
            read16-be16 (length content) content hc.1,
            length-append (fields16 to) (field16 content),
          ))))
    ∙ ap (λ n. whole n (read_fields (read16 (be16 (length to) ++ rest)) rest))
        (read16-be16 d (be16 (length to) ++ rest) hd)
    ∙ ap (λ n. whole d (read_fields n rest)) (read16-be16 (length to) rest hn)
    ∙ ap (whole d) (read_fields-fields16 to (field16 content) ht)
    ∙ ap (λ t. accepted (record { delytime = d; sendto = to; content = t }))
        (ap (λ n. cstr (take n content)) (read16-be16 (length content) content hc.1)
          ∙ ap cstr (take-all (length content) content (omega arith))
          ∙ cstr-whole content hc.0)

-- What `createClientMessage` puts behind the header of a text message.
create_client_message-client_body :
    (S : ListLibrary) (m : Draft) (sendto : S.Handle)
    → m.messagetype ≡ message_type_txt
    → drop header_size (create_client_message S m sendto).bytes
      ≡ client_body m.delytime (S.values sendto) m.content_or_file_name
unfolding create_client_message recipients content_bytes
create_client_message-client_body S m sendto t =
    rw ((==_iff m.messagetype message_type_txt).1 t, content_bytes)
      (rw (drain-len S sendto) (rw (S.len-values sendto) refl))

-- The size that the header of a text message names.
create_client_message-total :
    (S : ListLibrary) (m : Draft) (sendto : S.Handle)
    → m.messagetype ≡ message_type_txt
    → (create_client_message S m sendto).allocated
      ≡ header_size + length (client_body m.delytime (S.values sendto) m.content_or_file_name)
unfolding create_client_message recipients content_length
create_client_message-total S m sendto t =
    rw ((==_iff m.messagetype message_type_txt).1 t, content_length)
      (rw (drain-len S sendto) (
        omega (arith, length-append (fields16 (S.values sendto)) (field16 m.content_or_file_name))))

abbrev sent_header : (S : ListLibrary) → Draft → S.Handle → ClientHeader
sent_header S m sendto =
    record (create_client_header m.garbage command_message m.messagetype m.clienttype) {
      total = (create_client_message S m sendto).allocated;
    }

create_client_message-header :
    (S : ListLibrary) (m : Draft) (sendto : S.Handle)
    → (create_client_message S m sendto).allocated < 4294967296
    → parse_client_header (create_client_message S m sendto).bytes
      ≡ (sent_header S m sendto, drop header_size (create_client_message S m sendto).bytes)
unfolding create_client_message
create_client_message-header S m sendto small =
    let rest = drop header_size (create_client_message S m sendto).bytes in
    parse_client_header-bytes m.pad (sent_header S m sendto) rest small

-- The receiver: the header is read, then the text behind it, which has arrived whole.
abbrev pub read_client_message : Bytes → List Bytes → Parsed ClientMessage
read_client_message bytes pieces =
    let p = parse_client_header bytes in parse_client_text p.1 p.0.total pieces

-- The client's buffer holds the recipients, and the server reads back the delay, the recipients in order and the text of a text message that a
-- client has built, if the texts hold no zero byte, the delay and the number of recipients fit in
-- two bytes, a recipient has at most 64 bytes, and the message arrives in one piece, which has at
-- most 4096 bytes.
pub create_client_message-parse_client_text :
    (S : ListLibrary) (m : Draft) (sendto : S.Handle) (pieces : List Bytes)
    → m.messagetype ≡ message_type_txt
    → m.delytime < 65536
    → length (S.values sendto) < 65536
    → AllFields (S.values sendto)
    → AllShort (S.values sendto)
    → IsField m.content_or_file_name
    → (create_client_message S m sendto).allocated ≤ maxbuf
    → (length (recipients S sendto).bytes ≤ (recipients S sendto).allocated)
      × (read_client_message (create_client_message S m sendto).bytes pieces
          ≡ accepted (record {
            delytime = m.delytime;
            sendto = S.values sendto;
            content = m.content_or_file_name;
          }))
create_client_message-parse_client_text S m sendto pieces t hd hn ht wide hc small =
    let to = S.values sendto in
    let b = create_client_message S m sendto in
    (
      recipients-fit S sendto wide,
      ap (λ p. parse_client_text p.1 p.0.total pieces)
            (create_client_message-header S m sendto (omega arith))
          ∙ ap (λ bufs. parse_client_text bufs b.allocated pieces)
              (create_client_message-client_body S m sendto t)
          ∙ ap (λ n. parse_client_text (client_body m.delytime to m.content_or_file_name) n pieces)
              (create_client_message-total S m sendto t)
          ∙ parse_client_text-client_body m.delytime to m.content_or_file_name pieces hd hn ht hc
              (omega (arith, create_client_message-total S m sendto t)),
    )
