-- ===== src/Nbt.antt =====
-- go/internal/nbt/nbt.go: NBT, the tree format of level and player files, behind gzip and the file.
pub mod Model
pub mod Writing
pub mod Reading
pub mod RoundTrip
pub mod Safe
pub mod Rounds
