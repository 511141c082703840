-- ===== src/ParseCommand.antt =====
-- server/parse_command.c and server/sc.h: the messages on the wire.
-- The host is little endian; a header is copied as the structure lies in memory, eight bytes.
pub mod Header
pub mod Helo
pub mod Message
pub mod Store
pub mod Transfer
