-- ===== src/Redis.antt =====
-- What the server relies on of the Redis server and of the hiredis client, which are not part of
-- the repository: the commands that messagestorage.c and extended_storage.c send, the reply to
-- each, and a connection that answers its commands in order. The keyspace itself is abstract.
pub mod Values
pub mod Conn
pub mod Instance
use push_server.Base.{ℕ, Bool, Bytes, bytes_eq, ◌≡◌, if◌then◌else◌}
use Values.{Value, Reply, Command, key_of, update, reply_of}

-- A command reads and writes the value at its own key, and no other key.
pub record Redis : Type 1 where
  pub Db : Type 0
  pub value : Db → Bytes → Value
  pub exec : Command → Db → Db
  pub reply : Command → Db → Reply
  pub value-exec :
      (c : Command) (db : Db) (j : Bytes)
      → value (exec c db) j ≡ (if bytes_eq (key_of c) j then update c (value db j) else value db j)
  pub reply-value : (c : Command) (db : Db) → reply c db ≡ reply_of c (value db (key_of c))
