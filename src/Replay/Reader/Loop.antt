-- ===== src/Replay/Reader/Loop.antt =====
-- go/internal/replay/protocol_flow.go: `readLoop`, over the packets that come; where they run out, the
-- read fails.
use mcbenchmark.Prelude.{ℕ, List, [], ◌∷◌, Bool, true, false, if◌then◌else◌}
use mcbenchmark.Prelude.Int.{ℤ, ◌==ℤ◌}
use mcbenchmark.Float.{Arithmetic}
use mcbenchmark.Packets.Ids.Clientbound
use mcbenchmark.Replay.Session.{State, Session}
use mcbenchmark.Replay.Reader.{Verdict, next_packet, next_phase, broken, set_state, fail}
use mcbenchmark.Replay.Reader.Config.{handle_config}
use mcbenchmark.Replay.Reader.Play.{handle_play}

-- The reader: its phase, the session, and whether it goes on.
pub record Reading : Type 0 where
  pub session : Session
  pub in_config : Bool
  pub goes_on : Bool

-- What the verdict of a configuration packet leads to.
unfoldable pub after_config : Session × Verdict → Reading
after_config (s, next_packet) = record { session = s; in_config = true; goes_on = true }
after_config (s, next_phase) = record {
  session = set_state State.awaiting_position s;
  in_config = false;
  goes_on = true;
}
after_config (s, broken) = record { session = fail s; in_config = true; goes_on = false }

unfoldable pub after_play : ℤ → Session × Bool → Reading
after_play id (s, ends) = record {
  session = s;
  in_config = id ==ℤ Clientbound.start_configuration;
  goes_on = if ends then false else true;
}

module _ (fl : Arithmetic) (accepts : ℕ → Bool) where
  unfoldable pub read_one : ℤ → List ℕ → Bool → Session → Reading
  read_one id body in_config s =
      if in_config
      then after_config (handle_config accepts id body s)
      else after_play id (handle_play fl accepts id body s)

  unfoldable pub read_loop : Bool → List (ℤ × List ℕ) → Session → Session
  read_loop in_config [] s = fail s
  read_loop in_config ((id, body) ∷ packets) s =
      let r = read_one id body in_config s in
      let rest = read_loop r.in_config packets r.session in if r.goes_on then rest else r.session
