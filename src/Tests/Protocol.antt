-- ===== src/Tests/Protocol.antt =====
-- Requests and replies of accounts over the wire, for the theorems on server/extended_protocol.c.
use push_server.Base.{[], ◌∷◌, Bytes, text, bytes_eq, if◌then◌else◌}
use push_server.Redis.Values.{Value, absent, string, members}
use push_server.Accounts.{UserInfo}
use push_server.AccountProtocol.{Heap}

-- A heap with a byte behind the name that the server copies.
abbrev dirty : Heap
dirty = record {
  pad = 0;
  after_text = text "}";
  after_name = text "!";
  after_id = [];
  after_friend = [];
  drivce = [];
}

abbrev clean : Heap
clean = record dirty { after_name = [] }

abbrev no_text : Bytes
no_text = text "WRONGTYPE"

-- Two users, of whom bob has a device.
abbrev two_users : Bytes → Value
two_users j =
    if bytes_eq (text "al") j
    then string (text "U1")
    else if bytes_eq (text "bob") j
    then string (text "U2")
    else if bytes_eq (text "U2") j
    then string (text "bob")
    else if bytes_eq (text "U2_drivce_list") j
    then members (text "d2" ∷ [])
    else absent

abbrev bob : UserInfo
bob = record { userid = text "U2"; username = text "bob"; drivces = text "d2" ∷ [] }
