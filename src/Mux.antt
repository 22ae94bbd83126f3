-- ===== src/Mux.antt =====
-- protocol/mux/mux.go: the multiplexed stream. Message codes, frames, and the two ends.
pub mod Frame
pub mod Writer
pub mod Reader
