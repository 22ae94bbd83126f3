-- ===== src/Flist.antt =====
-- protocol/flist.go: the file list of a transfer. Entries are sent as differences to the entry
-- before them, under flags that say which fields follow; Write sends them and Read takes them back.
pub mod Entry
pub mod Write
pub mod Read
pub mod Flags
pub mod Xflags
pub mod Arrival
pub mod Name
pub mod Fields
pub mod Bounds
pub mod Tame
pub mod Panics
pub mod Examples
pub mod RoundTrip
