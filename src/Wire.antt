-- ===== src/Wire.antt =====
-- protocol/wireint.go and protocol/vstring.go: the integers and strings of the wire.
pub mod Le
pub mod Fixed
pub mod Var
pub mod Ndx
pub mod Vstring
mod Examples
