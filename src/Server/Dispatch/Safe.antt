-- ===== src/Server/Dispatch/Safe.antt =====
-- What every turn of `read_thread_function` of server/server.c leaves in order, whatever the client
-- has sent.
use push_server.Base.{ℕ, Option, none, some, Bytes, ◌≢◌}
use push_server.Json.{JsonLibrary}
use push_server.Redis.{Redis}
use push_server.Redis.Conn.{Conn, M}
use push_server.ParseCommand.Header.{parse_client_header}
use push_server.Server.Table.{Clients}
use push_server.Server.Dispatch.{Arrival, Ending, other, request}
use push_server.Server.Dispatch.Held.{IsSafe}
use push_server.Server.Dispatch.Ends.{Ends}

-- The received bytes are no request on accounts, whose handlers copy what Redis holds to arrays of
-- 64 bytes.
abbrev pub IsNoAccountRequest : Option Bytes → Type 0
IsNoAccountRequest none = Unit
IsNoAccountRequest (some buf) = request (parse_client_header buf).0.command ≢ other

module _ {R : Redis} (J : JsonLibrary) (serverid : ℕ) (a : Arrival) (i : ℕ) (t0 : Clients) where
  abbrev Safely : M R Ending → Type 0
  Safely = Ends {R = R} (IsSafe i t0)
