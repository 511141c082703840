-- ===== src/ParseCommand/Helo.antt =====
-- The greeting: `createClientHelo`, `parseClientHelo`, `createServerHelo`, `parseServerHelo` and
-- `createServer2ClientConfig` of server/parse_command.c. Device id and token are C strings.
use push_server.Base.{
  ℕ, zero, suc, ◌+◌, ◌*◌, ◌<◌, ◌%◌, false, Bool-cases, inl, inr, [], ◌∷◌, ◌++◌, Bytes, length, take,
  drop, length-append, ◌==◌, be32, byte_at, read16, read16-be16, if◌then◌else◌, ◌≡◌, refl, ap, ◌∙◌,
  arith,
}
use push_server.ParseCommand.Header.{
  header_size, command_helo, client_type_ios, create_client_header, create_server_header,
  client_header_bytes, server_header_bytes, parse_client_header, parse_server_header,
}
use push_server.ParseCommand.Message.{Built, field16}
use push_server.MessageStorage.{message_type_txt}

-- memcpy of `n` bytes; the receive buffer is zero behind what has arrived.
abbrev pub copied : ℕ → Bytes → Bytes
copied zero xs = []
copied (suc n) [] = 0 ∷ copied n []
copied (suc n) (x ∷ xs) = x ∷ copied n xs

-- What a copy leaves in the memory that it is made to. The arrays have 64 bytes: what is longer is
-- written over what is behind them, which is not here, and `on_helo` leaves it open.
abbrev pub over : Bytes → Bytes → Bytes
over new memory = new ++ drop (length new) memory

-- The size that `createClientHelo` allocates; a token that is empty adds the same as none.
unfoldable pub client_helo_length : ℕ → Bytes → Bytes → ℕ
client_helo_length clienttype drivce_id iostoken =
    header_size
    + 2
    + length drivce_id
    + (if clienttype == client_type_ios then 2 + length iostoken else 0)

-- `pad` and `garbage` are what the heap held.
unfoldable pub create_client_helo : ℕ → ℕ → ℕ → Bytes → Bytes → Built
create_client_helo pad garbage clienttype drivce_id iostoken =
    let total = client_helo_length clienttype drivce_id iostoken in
    record {
      allocated = total;
      bytes =
          client_header_bytes pad
            (record (create_client_header garbage command_helo message_type_txt clienttype) {
              total = total;
            })
          ++ (field16 drivce_id
              ++ (if clienttype == client_type_ios then be32 4 ++ iostoken else []));
    }

-- The memory of the device id and of the token after `parseClientHelo`, and its result.
pub record Helo : Type 0 where
  pub drivce_id : Bytes
  pub iostoken : Bytes
  pub result : ℕ

-- The place of the token is two bytes behind the start of the device id, and as many bytes are
-- copied as the device id has.
unfoldable pub parse_client_helo : Bytes → Bytes → Bytes → ℕ → Helo
parse_client_helo bufs drivce_id iostoken clienttype =
    let len = read16 bufs in
    let at = drop 2 bufs in
    let id = over (copied len at) drivce_id in
    if clienttype == client_type_ios
    then record {
      drivce_id = id;
      iostoken = if read16 at == 0 then iostoken else over (copied len (drop 2 at)) iostoken;
      result = 2;
    }
    else record { drivce_id = id; iostoken = iostoken; result = 1 }

pub record ServerConfigToClient : Type 0 where
  pub is_open_message_response : ℕ
  pub is_open_file_socket : ℕ
  pub is_open_ping_response : ℕ

unfoldable pub create_server_2_client_config : ℕ → ℕ → ℕ → ServerConfigToClient
create_server_2_client_config m f p = record {
  is_open_message_response = m % 256;
  is_open_file_socket = f % 256;
  is_open_ping_response = p % 256;
}

abbrev config_bytes : ServerConfigToClient → Bytes
config_bytes c = c.is_open_message_response ∷ c.is_open_file_socket ∷ c.is_open_ping_response ∷ []

-- sizeof(server_config_to_client_t)
abbrev pub config_size : ℕ
config_size = 3

unfoldable pub create_server_helo : ℕ → ℕ → ℕ → ℕ → Bytes
create_server_helo serverid m f p =
    server_header_bytes (record (create_server_header serverid command_helo message_type_txt) {
      total = header_size + config_size;
    })
    ++ config_bytes (create_server_2_client_config m f p)

unfoldable pub parse_server_helo : Bytes → ServerConfigToClient
parse_server_helo buf = record {
  is_open_message_response = byte_at buf 0;
  is_open_file_socket = byte_at buf 1;
  is_open_ping_response = byte_at buf 2;
}

pub copied-append : (xs rest : Bytes) → copied (length xs) (xs ++ rest) ≡ xs
copied-append [] rest = refl
copied-append (x ∷ xs) rest = ap (λ (l : Bytes). x ∷ l) (copied-append xs rest)

-- The client reads back the three switches that the server sets, each a byte.
pub create_server_helo-parse_server_helo :
    (serverid m f p : ℕ)
    → let r = parse_server_header (create_server_helo serverid m f p) in
      (parse_server_helo r.1 ≡ create_server_2_client_config m f p)
      × (r.0.serverid ≡ serverid % 65536)
      × (r.0.total ≡ length (create_server_helo serverid m f p))
unfolding parse_server_helo create_server_helo create_server_2_client_config parse_server_header
    create_server_header
create_server_helo-parse_server_helo serverid m f p = (refl, omega arith, refl)

-- The eight bytes of the greeting that the server sends are its header, which promises eleven.
pub create_server_helo-short :
    (serverid m f p : ℕ)
    → let r = parse_server_header (take header_size (create_server_helo serverid m f p)) in
      (r.0.total ≡ header_size + config_size) × (r.1 ≡ [])
unfolding create_server_helo parse_server_header create_server_header
create_server_helo-short serverid m f p = (refl, refl)

-- The part of the greeting behind the device id.
abbrev pub helo_rest : ℕ → Bytes → Bytes
helo_rest clienttype iostoken = if clienttype == client_type_ios then be32 4 ++ iostoken else []

parse_client_helo-drivce_id :
    (bufs memory token_memory : Bytes) (clienttype : ℕ)
    → (parse_client_helo bufs memory token_memory clienttype).drivce_id
      ≡ over (copied (read16 bufs) (drop 2 bufs)) memory
unfolding parse_client_helo
parse_client_helo-drivce_id bufs memory token_memory clienttype =
    elim (Bool-cases (clienttype == client_type_ios)) [
      | inl e ↦ rw (e, parse_client_helo) refl
      | inr e ↦ rw (e, parse_client_helo) refl
    ]

not-zero : (a : ℕ) → 0 < a → (a == 0) ≡ false
not-zero a h = ground arith

-- Whatever the type of the client, the server copies its device id over the memory that it keeps
-- it in, for every length that fits in two bytes, and reads the command, the type of the client
-- and the size of the greeting as they were sent; the size fits in four bytes.
pub create_client_helo-parse_client_helo :
    (pad garbage clienttype : ℕ) (drivce_id iostoken memory token_memory : Bytes)
    → length drivce_id < 65536
    → client_helo_length clienttype drivce_id iostoken < 4294967296
    → let r =
        parse_client_header (create_client_helo pad garbage clienttype drivce_id iostoken).bytes in
      (r.0.command ≡ command_helo)
      × (r.0.clienttype ≡ clienttype % 256)
      × (r.0.total ≡ (create_client_helo pad garbage clienttype drivce_id iostoken).allocated)
      × ((parse_client_helo r.1 memory token_memory clienttype).drivce_id ≡ over drivce_id memory)
unfolding create_client_helo create_client_header parse_client_header parse_client_helo
create_client_helo-parse_client_helo pad garbage clienttype drivce_id iostoken memory token_memory h
      small =
    let rest = helo_rest clienttype iostoken in
    (
      refl,
      refl,
      omega arith,
      parse_client_helo-drivce_id (field16 drivce_id ++ rest) memory token_memory clienttype
          ∙ ap (λ n. over (copied n (drivce_id ++ rest)) memory)
              (read16-be16 (length drivce_id) (drivce_id ++ rest) h)
          ∙ ap (λ t. over t memory) (copied-append drivce_id rest),
    )

-- A greeting of an iOS client is two bytes longer than its buffer, any other fills it.
pub create_client_helo-allocated :
    (pad garbage clienttype : ℕ) (drivce_id iostoken : Bytes)
    → length (create_client_helo pad garbage clienttype drivce_id iostoken).bytes
      ≡ (create_client_helo pad garbage clienttype drivce_id iostoken).allocated
        + (if clienttype == client_type_ios then 2 else 0)
unfolding create_client_helo client_helo_length
create_client_helo-allocated pad garbage clienttype drivce_id iostoken =
    elim (Bool-cases (clienttype == client_type_ios)) [
      | inl e ↦ rw e (omega (arith, length-append drivce_id (be32 4 ++ iostoken)))
      | inr e ↦ rw e (omega (arith, length-append drivce_id []))
    ]

-- The token that the server keeps of an iOS client is not the one that it sent: it is as many
-- bytes as the device id has, from the third byte of the device id on, so that a token that
-- differs only behind these bytes is not seen.
pub parse_client_helo-token :
    (a b : ℕ) (drivce_id iostoken memory token_memory : Bytes)
    → 0 < a
    → length drivce_id + 2 < 65536
    → let id = a ∷ b ∷ drivce_id in
      (parse_client_helo
        (field16 id ++ helo_rest client_type_ios iostoken)
        memory
        token_memory
        client_type_ios).iostoken
      ≡ over (copied (length id) (drivce_id ++ (be32 4 ++ iostoken))) token_memory
unfolding parse_client_helo
parse_client_helo-token a b drivce_id iostoken memory token_memory z h =
    rw (not-zero (a * 256 + b) (omega arith)) (
      ap (λ n. over (copied n (drivce_id ++ (be32 4 ++ iostoken))) token_memory)
        (read16-be16 (suc (suc (length drivce_id))) (a ∷ b ∷ (drivce_id ++ (be32 4 ++ iostoken)))
          (omega arith)))

-- The device id is read whatever the parser takes the type of the client to be.
pub create_client_helo-drivce_id :
    (pad garbage clienttype : ℕ) (drivce_id iostoken memory token_memory : Bytes) (type_ : ℕ)
    → length drivce_id < 65536
    → (parse_client_helo
        (parse_client_header (create_client_helo pad garbage clienttype drivce_id iostoken).bytes).1
        memory
        token_memory
        type_).drivce_id
      ≡ over drivce_id memory
unfolding create_client_helo parse_client_header
create_client_helo-drivce_id pad garbage clienttype drivce_id iostoken memory token_memory type_ h =
    let rest = helo_rest clienttype iostoken in
    parse_client_helo-drivce_id (field16 drivce_id ++ rest) memory token_memory type_
    ∙ ap (λ n. over (copied n (drivce_id ++ rest)) memory)
        (read16-be16 (length drivce_id) (drivce_id ++ rest) h)
    ∙ ap (λ t. over t memory) (copied-append drivce_id rest)
