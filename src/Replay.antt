-- ===== src/Replay.antt =====
-- go/internal/replay: the replay client, one session of it and what it knows of the world.
pub mod Ledger
pub mod Entities
pub mod Session
pub mod Commands
pub mod Dispatch
pub mod Reader
pub mod Ticks
pub mod Counting
pub mod Runner
