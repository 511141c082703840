-- ===== src/Server.antt =====
-- server/server.c: the clients that are connected, and the delivery of messages to them.
pub mod Delivery
pub mod Dispatch
pub mod Loop
pub mod Table
