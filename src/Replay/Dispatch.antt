-- ===== src/Replay/Dispatch.antt =====
-- go/internal/replay/dispatch.go: one trace event becomes the packets that a client sends for it. Each
-- case of the source is a handler, which returns the session and whether the event was handled.
pub mod Blocks
pub mod Movement
pub mod Combat
pub mod Menus
pub mod Switch
use mcbenchmark.Prelude.{Bool, false}
use mcbenchmark.Wire.Reading.{Result, ok, err}
use mcbenchmark.Replay.Session.{Session}

-- `if err != nil { handled = false; break }`
unfoldable pub decoded : {A : Type 0} → Result A → Session → (A → Session × Bool) → Session × Bool
decoded (ok a) s f = f a
decoded (err e) s f = (s, false)
