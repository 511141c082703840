-- ===== src/MessageStorage/Scan.antt =====
-- What the loop of `getmessageinfo` of server/messagestorage.c makes of a hash: the right fields
-- where no value can be taken for a name, and a changed recipient where the sender's id can.
use push_server.Base.{
  List, [], ◌∷◌, none, some, Option-cases, Bool-cases, Bytes, text, inl, inr, ◌≡◌, refl, ◌∙◌, ◌==◌,
  if◌then◌else◌,
}
use push_server.Base.Decimal.{atoi, atoi-dec}
use push_server.Redis.{Redis}
use push_server.Redis.Values.{hash, flatten}
use push_server.Redis.Conn.{idle, exec_all}
use push_server.MessageStorage.Records.{
  PushMessageInfo, no_message, message_field, is_to, set_message, scan_message,
}
use push_server.MessageStorage.Lookup.{lookups, getmessageinfo-message_at}
use push_server.MessageStorage.Routing.{message_hash}
use push_server.MessageStorage.{Environment, Outgoing, getmessageinfo, message_type_txt}

-- Each field that has a name of the chain is set, in the order of the hash.
abbrev pub fill : List (Bytes × Bytes) → PushMessageInfo → PushMessageInfo
fill [] i = i
fill ((f, v) ∷ h) i = elim (message_field f) [
  | none ↦ fill h i
  | some m ↦ fill h (set_message m v i)
]

-- Under a name that the chain does not know stands a value that it does not know either.
abbrev pub IsUnambiguous : List (Bytes × Bytes) → Type 0
IsUnambiguous [] = Unit
IsUnambiguous ((f, v) ∷ h) = (message_field f ≡ none → message_field v ≡ none) × IsUnambiguous h

scan_message-skip :
    (v : Bytes) (rest : List Bytes) (i : PushMessageInfo)
    → message_field v ≡ none
    → scan_message (v ∷ rest) i ≡ scan_message rest i
unfolding scan_message
scan_message-skip v [] i h = refl
scan_message-skip v (w ∷ rest) i h = rw (h, scan_message) refl

-- The loop reads a reply right if no value is taken for a name.
pub scan_message-fill :
    (h : List (Bytes × Bytes)) (i : PushMessageInfo)
    → IsUnambiguous h
    → scan_message (flatten h) i ≡ fill h i
unfolding scan_message
scan_message-fill [] i u = refl
scan_message-fill ((f, v) ∷ h) i u = elim (Option-cases (message_field f)) [
  | inl e ↦
      rw (e, scan_message, fill)
        (scan_message-skip v (flatten h) i (u.0 e) ∙ scan_message-fill h i u.1)
  | inr (m, e) ↦ rw (e, scan_message, fill) (scan_message-fill h (set_message m v i) u.1)
]

from_is_unknown : message_field (text "from") ≡ none
unfolding message_field
from_is_unknown = refl

-- What comes back of a message whose hash is read right: its body and its recipient, but no
-- sender (it is stored as "from" and read as "form"), and an address for a message id.
abbrev pub received : Environment → Outgoing → PushMessageInfo
received e q = record {
  retrycount = 0;
  state = 0;
  messagetype = q.messagetype;
  messageid = e.messageid_address;
  submessageid = e.guid;
  to = q.tochar;
  org_file_name = if q.messagetype == message_type_txt then [] else q.file_name;
  sendtime = e.time;
  form = [];
  fromip = q.fromip;
  content = if q.messagetype == message_type_txt then q.message else q.new_filename;
  timeout = 0;
}

module _ (e : Environment) (q : Outgoing) where
  message_hash-IsUnambiguous : message_field q.from ≡ none → IsUnambiguous (message_hash e q)
  unfolding message_field
  message_hash-IsUnambiguous h = elim (Bool-cases (q.messagetype == message_type_txt)) [
    | inl t ↦ rw t (
      λ x. h,
      (
        λ x. cc,
        (
          λ x. cc,
          (λ x. cc, (λ x. cc, (λ x. cc, (λ x. refl, (λ x. cc, (λ x. cc, (λ x. cc, tt))))))),
        ),
      ),
    )
    | inr t ↦ rw t (
      λ x. h,
      (
        λ x. cc,
        (
          λ x. cc,
          (
            λ x. cc,
            (λ x. cc, (λ x. cc, (λ x. cc, (λ x. refl, (λ x. cc, (λ x. cc, (λ x. cc, tt))))))),
          ),
        ),
      ),
    )
  ]

  fill-message_hash : fill (message_hash e q) no_message ≡ received e q
  unfolding message_field set_message atoi
  fill-message_hash = elim (Bool-cases (q.messagetype == message_type_txt)) [
    | inl t ↦ rw t (rw (atoi-dec q.messagetype) refl)
    | inr t ↦ rw t (rw (atoi-dec q.messagetype) refl)
  ]

-- A sender's id that passes the test for "to" takes the recipient's place: the message is read
-- back as one to the device "to".
abbrev pub redirected : Environment → Outgoing → PushMessageInfo
redirected e q = record (received e q) { to = text "to" }

module _ (e : Environment) (q : Outgoing) where
  scan_message-redirected :
      message_field q.from ≡ some is_to
      → message_field q.tochar ≡ none
      → scan_message (flatten (message_hash e q)) no_message ≡ redirected e q
  unfolding scan_message message_field set_message atoi
  scan_message-redirected f t = elim (Bool-cases (q.messagetype == message_type_txt)) [
    | inl h ↦
        rw (f, scan_message)
          (rw (t, scan_message) (rw (h, scan_message) (rw (atoi-dec q.messagetype) refl)))
    | inr h ↦
        rw (f, scan_message)
          (rw (t, scan_message) (rw (h, scan_message) (rw (atoi-dec q.messagetype) refl)))
  ]

module _ (R : Redis) (e : Environment) (q : Outgoing) (db : R.Db) where
  -- The hash of a stored message is read back with its body, recipient and type; the sender is
  -- lost, and the message id is the address that was printed, if no name of a field is a prefix
  -- of the sender's id.
  pub getmessageinfo-received :
      (id : Bytes)
      → R.value db id ≡ hash (message_hash e q)
      → message_field q.from ≡ none
      → (db' : R.Db) × (getmessageinfo {R = R} (some id) (idle db)
          ≡ some (some (received e q), idle db'))
  getmessageinfo-received id v h = (
    exec_all R (lookups id (R.value db id)) db,
    getmessageinfo-message_at R id db (rw v tt)
        ∙ rw v (
            rw (scan_message-fill (message_hash e q) no_message (message_hash-IsUnambiguous e q h))
              (rw (fill-message_hash e q) refl)),
  )

  -- If the sender's id begins with "to", in upper or lower case, and no name of a field is a
  -- prefix of the recipient's id, the stored message is read back as one to the device "to",
  -- whatever recipient was stored.
  pub getmessageinfo-redirected :
      (id : Bytes)
      → R.value db id ≡ hash (message_hash e q)
      → message_field q.from ≡ some is_to
      → message_field q.tochar ≡ none
      → (db' : R.Db) × (getmessageinfo {R = R} (some id) (idle db)
          ≡ some (some (redirected e q), idle db'))
  getmessageinfo-redirected id v f t = (
    exec_all R (lookups id (R.value db id)) db,
    getmessageinfo-message_at R id db (rw v tt) ∙ rw v (rw (scan_message-redirected e q f t) refl),
  )
