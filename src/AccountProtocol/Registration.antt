-- ===== src/AccountProtocol/Registration.antt =====
-- Registration over the wire: the request of a client, the handler of the server with what it
-- leaves in Redis, and the client's reading of the reply.
use push_server.Base.{ℕ, ◌++◌, Bytes, text}
use push_server.Json.{JsonLibrary}
use push_server.Redis.{Redis}
use push_server.AccountProtocol.{Heap, add_string, add_number}

module _ (J : JsonLibrary) where
  -- The fields of the reply to a registration.
  abbrev reply_result : ℕ → J.Object
  reply_result n = add_number J J.create_object (text "result") n

  abbrev reply_name : ℕ → Bytes → J.Object
  reply_name n username = add_string J (reply_result n) (text "username") username

  abbrev pub reply_fields : ℕ → Bytes → J.Object
  reply_fields n username = add_string J (reply_name n username) (text "userid") (text "userid")

module _ (R : Redis) (J : JsonLibrary) (h : Heap) (wrong_type : Bytes) (serverid : ℕ)
    (guid drivce_id username : Bytes) (db : R.Db) where
  -- The name as the server has copied it.
  abbrev pub name : Bytes
  name = username ++ h.after_name
