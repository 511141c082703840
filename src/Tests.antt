-- ===== src/Tests.antt =====
-- The theorems applied to small concrete inputs, at which their hypotheses hold.
mod Accounts
mod Delivery
mod Dispatch
mod Pool
mod Protocol
mod Push
mod Storage
mod Store
mod Table
mod Threads
mod Wire
mod Settings
mod Events
