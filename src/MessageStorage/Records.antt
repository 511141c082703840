-- ===== src/MessageStorage/Records.antt =====
-- The structures of server/messagestorage.h, and how a reply to HGETALL fills them
-- (`getmessageinfo` and `getClientInfo` of server/messagestorage.c).
-- Text fields hold any length: what does not fit its array is undefined behaviour in the source.
use push_server.Base.{
  ℕ, ◌+◌, Bool, true, false, ◌&&◌, List, [], ◌∷◌, Option, none, some, Bytes, text, leb, ◌==◌,
  if◌then◌else◌,
}
use push_server.Base.Decimal.{atoi}

pub record PushMessageInfo : Type 0 where
  pub retrycount : ℕ
  pub state : ℕ
  pub messagetype : ℕ
  pub messageid : Bytes
  pub submessageid : Bytes
  pub to : Bytes
  pub org_file_name : Bytes
  pub sendtime : Bytes
  pub form : Bytes
  pub fromip : Bytes
  pub content : Bytes
  pub timeout : ℕ

pub record ClientInfo : Type 0 where
  pub drivce_id : Bytes
  pub clienttype : ℕ
  pub clinetport : ℕ
  pub clientid : ℕ
  pub serverid : ℕ
  pub clientip : Bytes
  pub serverip : Bytes
  pub logintime : Bytes

-- memset(info, 0, sizeof(...))
abbrev pub no_message : PushMessageInfo
no_message = record {
  retrycount = 0;
  state = 0;
  messagetype = 0;
  messageid = [];
  submessageid = [];
  to = [];
  org_file_name = [];
  sendtime = [];
  form = [];
  fromip = [];
  content = [];
  timeout = 0;
}

abbrev pub no_client : ClientInfo
no_client = record {
  drivce_id = [];
  clienttype = 0;
  clinetport = 0;
  clientid = 0;
  serverid = 0;
  clientip = [];
  serverip = [];
  logintime = [];
}

abbrev pub to_lower : ℕ → ℕ
to_lower c = if leb 65 c && leb c 90 then c + 32 else c

-- strncasecmp(s, p, strlen(p)) == 0
abbrev pub starts_nocase : Bytes → Bytes → Bool
starts_nocase [] s = true
starts_nocase (p ∷ ps) [] = false
starts_nocase (p ∷ ps) (c ∷ cs) = to_lower p == to_lower c && starts_nocase ps cs

pub data MessageField : Type 0 where
  is_submessageid is_messageid is_clientport is_sendtime is_to is_state : MessageField
  is_messagetype is_org_file_name is_form is_fromip is_content is_timeout : MessageField

-- The first test of the chain that a name passes.
unfoldable pub message_field : Bytes → Option MessageField
message_field s =
    if starts_nocase (text "submessageid") s
    then some is_submessageid
    else if starts_nocase (text "messageid") s
    then some is_messageid
    else if starts_nocase (text "clientport") s
    then some is_clientport
    else if starts_nocase (text "sendtime") s
    then some is_sendtime
    else if starts_nocase (text "to") s
    then some is_to
    else if starts_nocase (text "state") s
    then some is_state
    else if starts_nocase (text "messagetype") s
    then some is_messagetype
    else if starts_nocase (text "orgFileName") s
    then some is_org_file_name
    else if starts_nocase (text "form") s
    then some is_form
    else if starts_nocase (text "fromip") s
    then some is_fromip
    else if starts_nocase (text "content") s
    then some is_content
    else if starts_nocase (text "timeout") s
    then some is_timeout
    else none

unfoldable pub set_message : MessageField → Bytes → PushMessageInfo → PushMessageInfo
set_message is_submessageid v i = record i { submessageid = v }
set_message is_messageid v i = record i { messageid = v }
set_message is_clientport v i = record i { retrycount = atoi v }
set_message is_sendtime v i = record i { sendtime = v }
set_message is_to v i = record i { to = v }
set_message is_state v i = record i { state = atoi v }
set_message is_messagetype v i = record i { messagetype = atoi v }
set_message is_org_file_name v i = record i { org_file_name = v }
set_message is_form v i = record i { form = v }
set_message is_fromip v i = record i { fromip = v }
set_message is_content v i = record i { content = v }
set_message is_timeout v i = record i { timeout = atoi v }

-- The loop over the elements: a name that passes no test moves the loop on by one element only,
-- so its value is tested as a name next.
unfoldable pub scan_message : List Bytes → PushMessageInfo → PushMessageInfo
scan_message [] i = i
scan_message (s ∷ []) i = i
scan_message (s ∷ v ∷ rest) i = elim (message_field s) [
  | none ↦ scan_message (v ∷ rest) i
  | some f ↦ scan_message rest (set_message f v i)
]

pub data ClientField : Type 0 where
  is_clientip is_clinetport is_logintime is_serverip : ClientField
  is_clienttype is_serverid is_clientid : ClientField

unfoldable pub client_field : Bytes → Option ClientField
client_field s =
    if starts_nocase (text "clientip") s
    then some is_clientip
    else if starts_nocase (text "clientport") s
    then some is_clinetport
    else if starts_nocase (text "logintime") s
    then some is_logintime
    else if starts_nocase (text "serverip") s
    then some is_serverip
    else if starts_nocase (text "clienttype") s
    then some is_clienttype
    else if starts_nocase (text "serverid") s
    then some is_serverid
    else if starts_nocase (text "clientid") s
    then some is_clientid
    else none

unfoldable pub set_client : ClientField → Bytes → ClientInfo → ClientInfo
set_client is_clientip v i = record i { clientip = v }
set_client is_clinetport v i = record i { clinetport = atoi v }
set_client is_logintime v i = record i { logintime = v }
set_client is_serverip v i = record i { serverip = v }
set_client is_clienttype v i = record i { clienttype = atoi v }
set_client is_serverid v i = record i { serverid = atoi v }
set_client is_clientid v i = record i { clientid = atoi v }

unfoldable pub scan_client : List Bytes → ClientInfo → ClientInfo
scan_client [] i = i
scan_client (s ∷ []) i = i
scan_client (s ∷ v ∷ rest) i = elim (client_field s) [
  | none ↦ scan_client (v ∷ rest) i
  | some f ↦ scan_client rest (set_client f v i)
]
