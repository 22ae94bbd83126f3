-- ===== src/Sender.antt =====
-- The sender's side (server-send.go).
pub mod FileList
pub mod Order
pub mod Finish
pub mod Filters
pub mod Session
pub mod Match
pub mod Transfer
