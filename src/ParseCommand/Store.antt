-- ===== src/ParseCommand/Store.antt =====
-- `parseClientMessage` of server/parse_command.c on a text as a whole: the message is read, and
-- stored once for each recipient.
use push_server.Base.{
  ℕ, suc, Bool, true, List, [], ◌∷◌, Bytes, some, length, ltb, ◌&&◌, if◌then◌else◌,
}
use push_server.Redis.{Redis}
use push_server.Redis.Conn.{M, pure, ◌>>=◌, ◌>>◌}
use push_server.MessageStorage.{Environment, Outgoing, message_type_txt, putmessageinfo2}
use push_server.MessageStorage.Records.{PushMessageInfo}
use push_server.ParseCommand.Message.{
  ClientMessage, Parsed, accepted, refused, crashed, parse_client_text,
}
pub mod Kept
pub mod Turn
pub mod Delivered

-- Who sent the message, and from where.
pub record Sender : Type 0 where
  pub drivce_id : Bytes
  pub fromip : Bytes

-- `putmessageinfo2` copies the recipient and the sender to arrays of 64 bytes, and the address to
-- one of 20.
abbrev pub all_short : List Bytes → Bool
all_short [] = true
all_short (to ∷ sendto) = ltb (length to) 64 && all_short sendto

abbrev pub fits_arrays : Sender → List Bytes → Bool
fits_arrays sender sendto =
    ltb (length sender.drivce_id) 64 && (ltb (length sender.fromip) 20 && all_short sendto)

-- What each recipient's call of `putmessageinfo2` is given: no delay, and 240 seconds to live.
abbrev pub outgoing : Sender → Bytes → Bytes → Outgoing
outgoing sender content to = record {
  message = content;
  tochar = to;
  file_name = content;
  new_filename = [];
  timeout = 240;
  from = sender.drivce_id;
  fromip = sender.fromip;
  messagetype = message_type_txt;
  priority = 0;
}

module _ {R : Redis} (sender : Sender) (outside : ℕ → Environment) (heap : PushMessageInfo) where
  -- The loop over the recipients from turn `i` on: each turn has its own new id, time and random
  -- number.
  unfoldable pub store_for : ℕ → Bytes → Bytes → List Bytes → M R (Unit {0})
  store_for i messageid content [] s = some (tt, s)
  store_for i messageid content (to ∷ sendto) s =
      (putmessageinfo2 (outside i) messageid (outgoing sender content to) heap >>= λ _.
      store_for (suc i) messageid content sendto)
        s

  -- `messageid` is the id that `createGUID` makes for the whole message.
  abbrev pub store_parsed : Bytes → Parsed ClientMessage → M R (Parsed ClientMessage)
  store_parsed messageid (accepted m) s =
      let stored = (store_for 0 messageid m.content m.sendto >> pure (accepted m)) s in
      if fits_arrays sender m.sendto then stored else some (crashed, s)
  store_parsed messageid refused s = some (refused, s)
  store_parsed messageid crashed s = some (crashed, s)

  unfoldable pub parse_client_message : Bytes → Bytes → ℕ → List Bytes → M R (Parsed ClientMessage)
  parse_client_message messageid bufs total pieces =
      store_parsed messageid (parse_client_text bufs total pieces)
