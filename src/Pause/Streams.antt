-- ===== src/Pause/Streams.antt =====
-- internal/pause/pause.go: the pattern over a text that grows at its end.
pub mod Pieces
pub mod Openings
pub mod Leftmost
pub mod Chunks
pub mod Feeding
