-- ===== src/Packets.antt =====
-- go/internal/mcproto: the packets of protocol 775, their numbers and their bodies, and the chunk
-- columns that the replay client reads.
pub mod Ids
pub mod EntityTypes
pub mod Position
pub mod Build
pub mod Parse
pub mod RoundTrip
pub mod Chunk
