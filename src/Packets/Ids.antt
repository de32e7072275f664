-- ===== src/Packets/Ids.antt =====
-- go/internal/mcproto/ids.go: the numbers of the packets of protocol 775, by phase and direction.
pub mod Serverbound
pub mod Clientbound
pub mod ConfigIn
pub mod ConfigOut
pub mod Login
pub mod Action
