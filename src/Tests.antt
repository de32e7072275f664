-- ===== src/Tests.antt =====
-- Concrete instances of the theorems: small captures, payloads and traces.
pub mod Samples
mod Formats
mod Payloads
mod Logs
mod Sessions
mod Packets
mod Blocks
mod Amplified
mod Bots
mod Columns
mod Nbt
mod Players
mod Compiled
