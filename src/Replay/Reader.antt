-- ===== src/Replay/Reader.antt =====
-- go/internal/replay/protocol_flow.go: what a session does with the packets it reads, in the phases of
-- login, configuration and play. A handler is one step; the texts of the reasons are left out.
pub mod Chunks
pub mod Login
pub mod Config
pub mod Play
pub mod Loop
use mcbenchmark.Prelude.{ℕ, List, Bool, true, false}
use mcbenchmark.Wire.Reading.{Result, ok, err}
use mcbenchmark.Replay.Session.{State, Session}

-- What a handler asks of its loop: the next packet, the next phase, or the end with an error.
pub data Verdict : Type 0 where
  next_packet next_phase broken : Verdict

unfoldable pub set_state : State → Session → Session
set_state state s = record s { state = state }

-- `s.fail(reason)`
unfoldable pub fail : Session → Session
fail s = record s { ended = true }

-- What is left of a send whose error ends the loop.
unfoldable pub unless_sent : Verdict → Session × Bool → Session × Verdict
unless_sent verdict (s, true) = (s, verdict)
unless_sent verdict (s, false) = (s, broken)

-- `v, err := parse(body)`: what is done with the value, and what where there is none.
unfoldable pub parsed : {A B : Type 0} → Result A → B → (A → B) → B
parsed (ok a) other f = f a
parsed (err e) other f = other
