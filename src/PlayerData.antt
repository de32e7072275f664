-- ===== src/PlayerData.antt =====
-- go/internal/playerdata: the player data files of the accounts of a benchmark.
pub mod Fields
pub mod Slots
pub mod Uuid
pub mod Files
pub mod Written
pub mod Restored
pub mod Revived
pub mod Imported
pub mod Imports
pub mod Accounts
