-- ===== src/ParseCommand/Header.antt =====
-- The two headers of server/sc.h, how server/parse_command.c fills them, and their layout.
use push_server.Base.{
  ℕ, ◌+◌, ◌*◌, ◌/◌, ◌%◌, ◌<◌, Bytes, ◌∷◌, ◌++◌, ◌≡◌, ap, arith, drop, le32, read32_le, byte_at,
}

abbrev pub command_helo : ℕ
command_helo = 0xA0

abbrev pub command_ping : ℕ
command_ping = 0xA1

abbrev pub command_message : ℕ
command_message = 0xA2

abbrev pub command_server : ℕ
command_server = 0xA3

abbrev pub command_bye : ℕ
command_bye = 0xA4

abbrev pub command_yes : ℕ
command_yes = 0xA5

abbrev pub command_other_message : ℕ
command_other_message = 0xA6

abbrev pub message_type_null : ℕ
message_type_null = 0xF0

abbrev pub client_type_ios : ℕ
client_type_ios = 0x1A

-- sizeof(client_header_2_t) and sizeof(server_header_2_t)
abbrev pub header_size : ℕ
header_size = 8

abbrev pub maxbuf : ℕ
maxbuf = 4096

pub record ClientHeader : Type 0 where
  pub command : ℕ
  pub clienttype : ℕ
  pub messagetype : ℕ
  pub total : ℕ

pub record ServerHeader : Type 0 where
  pub command : ℕ
  pub messagetype : ℕ
  pub serverid : ℕ
  pub total : ℕ

-- `total` is what the heap held: the function does not set it.
unfoldable pub create_client_header : ℕ → ℕ → ℕ → ℕ → ClientHeader
create_client_header garbage command messagetype clienttype = record {
  command = command % 256;
  clienttype = clienttype % 256;
  messagetype = messagetype % 256;
  total = garbage;
}

unfoldable pub create_server_header : ℕ → ℕ → ℕ → ServerHeader
create_server_header serverid command messagetype = record {
  command = command % 256;
  messagetype = messagetype % 256;
  serverid = serverid % 65536;
  total = header_size;
}

unfoldable pub create_client_ping : ℕ → ClientHeader
unfolding create_client_header
create_client_ping clienttype =
    create_client_header header_size command_ping message_type_null clienttype

unfoldable pub create_server_ping : ℕ → ServerHeader
unfolding create_server_header
create_server_ping serverid = create_server_header serverid command_ping message_type_null

-- memcpy(buf, header, sizeof(...)); `pad` is the byte between `messagetype` and `total`.
abbrev pub client_header_bytes : ℕ → ClientHeader → Bytes
client_header_bytes pad h = h.command ∷ h.clienttype ∷ h.messagetype ∷ pad ∷ le32 h.total

abbrev pub server_header_bytes : ServerHeader → Bytes
server_header_bytes h =
    h.command ∷ h.messagetype ∷ h.serverid % 256 ∷ h.serverid / 256 % 256 ∷ le32 h.total

-- What is behind the header, and the header itself.
unfoldable pub parse_client_header : Bytes → ClientHeader × Bytes
parse_client_header bufs = (
  record {
    command = byte_at bufs 0;
    clienttype = byte_at bufs 1;
    messagetype = byte_at bufs 2;
    total = read32_le (drop 4 bufs);
  },
  drop header_size bufs,
)

unfoldable pub parse_server_header : Bytes → ServerHeader × Bytes
parse_server_header bufs = (
  record {
    command = byte_at bufs 0;
    messagetype = byte_at bufs 1;
    serverid = byte_at bufs 3 * 256 + byte_at bufs 2;
    total = read32_le (drop 4 bufs);
  },
  drop header_size bufs,
)

-- A client header is read back as it was written, whatever the padding, and what follows it is
-- left for the next parser; `total` is below 2 ^ 32.
pub parse_client_header-bytes :
    (pad : ℕ) (h : ClientHeader) (rest : Bytes)
    → h.total < 4294967296
    → parse_client_header (client_header_bytes pad h ++ rest) ≡ (h, rest)
unfolding parse_client_header
parse_client_header-bytes pad h rest t =
    ap (λ (n : ℕ). (record h { total = n }, rest)) (omega arith)

pub parse_server_header-bytes :
    (h : ServerHeader) (rest : Bytes)
    → h.serverid < 65536
    → h.total < 4294967296
    → parse_server_header (server_header_bytes h ++ rest) ≡ (h, rest)
unfolding parse_server_header
parse_server_header-bytes h rest s t = ground arith
