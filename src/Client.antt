-- ===== src/Client.antt =====
-- The client's side (client-open.go).
pub mod FileList
pub mod Entries
pub mod Finish
pub mod Info
pub mod Open
pub mod Connect
pub mod Password
