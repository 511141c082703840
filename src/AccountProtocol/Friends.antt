-- ===== src/AccountProtocol/Friends.antt =====
-- A request to add a friend over the wire: the handler of the server with what it leaves in Redis,
-- and the client's reading of the reply.
use push_server.Base.{ℕ, List, ◌++◌, Bytes}
use mathlib.Core.List.{reverse}
use push_server.Json.{JsonLibrary}
use push_server.Redis.{Redis}
use push_server.Redis.Values.{get, sadd}
use push_server.Accounts.{UserInfo, friends}
use push_server.AccountProtocol.{Heap}

module _ (R : Redis) (J : JsonLibrary) (h : Heap) (wrong_type : Bytes) (serverid : ℕ)
    (username friendname u v fname : Bytes) (ds : List Bytes) (db : R.Db) where
  -- The names as the server has copied them.
  abbrev pub name : Bytes
  name = username ++ h.after_name

  abbrev pub other : Bytes
  other = friendname ++ h.after_friend

  abbrev pub friend : UserInfo
  friend = record { userid = v; username = fname; drivces = reverse ds }

  abbrev asked_db : R.Db
  asked_db = R.exec (get other) (R.exec (get name) db)

  abbrev added_db : R.Db
  added_db = R.exec (sadd (friends u) v) asked_db
