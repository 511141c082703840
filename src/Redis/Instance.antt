-- ===== src/Redis/Instance.antt =====
-- A keyspace that keeps what the interface asks for, so the hypotheses on Redis can be met.
use push_server.Base.{Bytes, bytes_eq, refl, if◌then◌else◌}
use push_server.Redis.{Redis}
use push_server.Redis.Values.{Value, key_of, update, reply_of, absent}

-- The keyspace as a function from keys to values.
abbrev pub keyspace : Redis
keyspace = record {
  Db = Bytes → Value;
  value = λ db j. db j;
  exec = λ c db j. if bytes_eq (key_of c) j then update c (db j) else db j;
  reply = λ c db. reply_of c (db (key_of c));
  value-exec = λ c db j. refl;
  reply-value = λ c db. refl;
}

abbrev pub empty : Bytes → Value
empty j = absent
