-- ===== src/Payload.antt =====
-- go/internal/rawevent/rawevent.go: the kind-specific payloads of an event, by family.
pub mod Block
pub mod Menu
pub mod Open
pub mod Inventory
pub mod Position
pub mod Text
