-- ===== src/Tests/Store.antt =====
-- The theorems on what a message leaves in Redis, at concrete inputs.
use mathlib.Core.List.{append_cancel_left}
use push_server.Base.{
  ℕ, ◌<◌, [], ◌∷◌, ◌++◌, some, Bytes, text, be16, byte_at, ◌≡◌, ◌≢◌, refl, ap, arith, inl, inr,
  get_elem?,
}
use push_server.Base.Decimal.{dec, dec-snoc, dec-injective}
use push_server.Redis.Values.{Value}
use push_server.Redis.Conn.{idle}
use push_server.Redis.Instance.{keyspace, empty}
use push_server.MessageStorage.Keys.{
  final, final-append, final-noread, final-content, content, pushlist,
}
use push_server.MessageStorage.Records.{no_message}
use push_server.MessageStorage.{Environment}
use push_server.ParseCommand.Message.{
  ClientMessage, accepted, field16, parse_client_text, read_fields,
}
use push_server.ParseCommand.Store.{Sender, parse_client_message}
use push_server.ParseCommand.Store.Kept.{QueueKey}
use push_server.ParseCommand.Store.Turn.{AreFresh, IsReady, IsStored}
use push_server.ParseCommand.Store.Delivered.{parse_client_message-IsStored}

-- Ids "G0", "G1" and so on.
abbrev guid : ℕ → Bytes
guid i = text "G" ++ dec i

abbrev outside : ℕ → Environment
outside i = record {
  message_guid = [];
  guid = guid i;
  time = text "2015-01-01";
  now = 1000;
  rand = 7;
  messageid_address = text "4096";
}

final-guid : (i : ℕ) → final 0 (guid i) < 58
unfolding final
final-guid i = let (xs, c, e, h) = dec-snoc i in rw e (rw (final-append 71 xs (c ∷ [])) h)

-- What begins with another byte is another text.
first_ne : (xs ys : Bytes) → byte_at xs 0 ≢ byte_at ys 0 → xs ≢ ys
first_ne xs ys h e = h (ap (λ l. byte_at l 0) e)

pushlist_first : (s : ℕ) → byte_at (pushlist s) 0 ≡ 112
unfolding pushlist
pushlist_first s = refl

guid_queue : (i : ℕ) (j : Bytes) → QueueKey j → guid i ≢ j
guid_queue i j (inl (d, e)) f =
    absurd (omega (arith, final-guid i, final-noread d, ap (final 0) e, ap (final 0) f))
guid_queue i j (inr (s, e)) f =
    absurd (omega (arith, ap (λ l. byte_at l 0) e, ap (λ l. byte_at l 0) f, pushlist_first s))

guid_content : (i : ℕ) (d : Bytes) → guid i ≢ content d
guid_content i d f = absurd (omega (arith, final-guid i, final-content d, ap (final 0) f))

id_queue : (j : Bytes) → QueueKey j → text "M" ≢ j
unfolding final
id_queue j (inl (d, e)) f = absurd (omega (arith, final-noread d, ap (final 0) e, ap (final 0) f))
id_queue j (inr (s, e)) f =
    absurd (omega (arith, ap (λ l. byte_at l 0) e, ap (λ l. byte_at l 0) f, pushlist_first s))

id_content : (d : Bytes) → text "M" ≢ content d
unfolding final
id_content d f = absurd (omega (arith, final-content d, ap (final 0) f))

fresh : AreFresh (text "M") outside
fresh = record {
  named = refl;
  apart = λ i j e. dec-injective i j (append_cancel_left (text "G") _ _ e);
  id_apart = λ i. first_ne (text "M") (guid i) (omega arith);
  guid_queue = guid_queue;
  id_queue = id_queue;
  guid_content = guid_content;
  id_content = id_content;
}

ready : IsReady keyspace outside 0 empty
ready = record { queues = λ j h. tt; kept = λ d. tt; free = λ k h. refl }

-- "hi" to bob and to al, as it stands behind the header.
abbrev hi_to_two : Bytes
hi_to_two = be16 0 ++ be16 2 ++ field16 (text "bob") ++ field16 (text "al") ++ field16 (text "hi")

abbrev hi : ClientMessage
hi = record { delytime = 0; sendto = text "bob" ∷ text "al" ∷ []; content = text "hi" }

abbrev eve : Sender
eve = record { drivce_id = text "eve"; fromip = text "10.0.0.1" }

hi_is_read : parse_client_text hi_to_two 25 [] ≡ accepted hi
unfolding parse_client_text read_fields
hi_is_read = refl

parse_client_message-IsStored_example :
    (db : Bytes → Value) × (parse_client_message {R = keyspace} eve outside no_message
        (text "M")
        hi_to_two
        25
        []
        (idle empty)
      ≡ some (accepted hi, idle db))
    × ((n : ℕ) (d : Bytes)
        → get_elem? hi.sendto n ≡ some d
        → IsStored keyspace outside eve (text "hi") empty db n d)
parse_client_message-IsStored_example =
    parse_client_message-IsStored keyspace (text "M") outside fresh eve no_message hi_to_two 25 []
      hi empty hi_is_read refl ready
