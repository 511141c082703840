-- ===== src/MessageStorage/Lookup.antt =====
-- What a lookup of a device or of a message finds, in terms of the value at its key
-- (`isClientOnline`, `getClientInfo`, `getmessageinfo` of server/messagestorage.c).
use push_server.Base.{List, [], ◌∷◌, Option, none, some, Bytes, bytes_eq_refl, ◌≡◌, refl, arith}
use push_server.Redis.{Redis}
use push_server.Redis.Values.{Value, absent, hash, Command, exists, hgetall, flatten, reply_of}
use push_server.Redis.Conn.{idle, exec_all, after}
use push_server.MessageStorage.Keys.{content}
use push_server.MessageStorage.Records.{
  PushMessageInfo, ClientInfo, no_message, no_client, scan_message, scan_client,
}
use push_server.MessageStorage.{get_client_info, getmessageinfo, set_drivce_id}

-- The device's record, if its key holds one.
abbrev pub client_at : Bytes → Value → Option ClientInfo
client_at d (hash h) = some (set_drivce_id d (scan_client (flatten h) no_client))
client_at d _ = none

abbrev pub message_at : Value → Option PushMessageInfo
message_at (hash h) = some (scan_message (flatten h) no_message)
message_at _ = none

-- The commands that a lookup at a key sends.
abbrev pub lookups : Bytes → Value → List Command
lookups k absent = exists k ∷ []
lookups k _ = exists k ∷ hgetall k ∷ []

-- Redis holds no empty hash.
abbrev pub IsKept : Value → Type 0
IsKept (hash []) = ⊥
IsKept _ = Unit

module _ (R : Redis) where
  -- EXISTS changes nothing, so HGETALL answers from the value that the test saw.
  reply-lookups :
      (k : Bytes) (db : R.Db)
      → R.reply (hgetall k) (R.exec (exists k) db) ≡ reply_of (hgetall k) (R.value db k)
  reply-lookups k db = rw (
    R.reply-value (hgetall k) (R.exec (exists k) db),
    R.value-exec (exists k) db k,
    bytes_eq_refl k,
  )

  pub get_client_info-value :
      (d : Bytes) (db : R.Db) (v : Value)
      → R.value db (content d) ≡ v
      → IsKept v
      → get_client_info {R = R} (some d) (idle db)
        ≡ some (client_at d v, idle (exec_all R (lookups (content d) v) db))
  unfolding get_client_info
  get_client_info-value d db absent e k = ground (arith, R.reply-value (exists (content d)) db)
  get_client_info-value d db (hash ((f, w) ∷ h)) e k =
      ground (arith, R.reply-value (exists (content d)) db, reply-lookups (content d) db)
  get_client_info-value d db (hash []) e k = absurd k
  get_client_info-value d db _ e k =
      ground (arith, R.reply-value (exists (content d)) db, reply-lookups (content d) db)

  pub getmessageinfo-value :
      (id : Bytes) (db : R.Db) (v : Value)
      → R.value db id ≡ v
      → IsKept v
      → getmessageinfo {R = R} (some id) (idle db)
        ≡ some (message_at v, idle (exec_all R (lookups id v) db))
  unfolding getmessageinfo
  getmessageinfo-value id db absent e k = ground (arith, R.reply-value (exists id) db)
  getmessageinfo-value id db (hash ((f, w) ∷ h)) e k =
      ground (arith, R.reply-value (exists id) db, reply-lookups id db)
  getmessageinfo-value id db (hash []) e k = absurd k
  getmessageinfo-value id db _ e k =
      ground (arith, R.reply-value (exists id) db, reply-lookups id db)

  -- `getClientInfo` returns a record exactly when the device's key holds a hash, and the record
  -- is the one that the hash spells; the connection owes no reply afterwards. The key holds no
  -- empty hash.
  pub get_client_info-client_at :
      (d : Bytes) (db : R.Db)
      → IsKept (R.value db (content d))
      → get_client_info {R = R} (some d) (idle db)
        ≡ some (
          client_at d (R.value db (content d)),
          idle (exec_all R (lookups (content d) (R.value db (content d))) db),
        )
  get_client_info-client_at d db k = get_client_info-value d db (R.value db (content d)) refl k

  pub getmessageinfo-message_at :
      (id : Bytes) (db : R.Db)
      → IsKept (R.value db id)
      → getmessageinfo {R = R} (some id) (idle db)
        ≡ some (message_at (R.value db id), idle (exec_all R (lookups id (R.value db id)) db))
  getmessageinfo-message_at id db k = getmessageinfo-value id db (R.value db id) refl k

-- A lookup changes no key.
pub after-lookups : (k : Bytes) (v : Value) (j : Bytes) (w : Value) → after (lookups k v) j w ≡ w
after-lookups k absent j w = ground arith
after-lookups k _ j w = ground arith
