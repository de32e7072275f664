-- ===== src/Tests/Bots.antt =====
-- Replay sessions: a dig and its verdict, a quiet tick, and two entities to aim at.
use mcbenchmark.Prelude.{
  ℕ, ◌+◌, ◌-◌, ◌*◌, ◌≡◌, refl, List, [], ◌∷◌, none, Bool, true, false, ltb, leb, arith,
}
use mcbenchmark.Prelude.Int.{pos, negsuc}
use mcbenchmark.Float.{Arithmetic}
use mcbenchmark.Event.Kind
use mcbenchmark.Payload.Block.{encode_dig}
use mcbenchmark.Trace.Model.{TraceEvent}
use mcbenchmark.Packets.Ids.Clientbound
use mcbenchmark.Packets.RoundTrip.{block_update_body}
use mcbenchmark.Replay.Session.{State, Session, send, post}
use mcbenchmark.Replay.Entities.{TrackedEntity, Tracker, nearest}
use mcbenchmark.Replay.Entities.Nearest.{Picked, nearest-Picked}
use mcbenchmark.Replay.Dispatch.Switch.{dispatch}
use mcbenchmark.Replay.Reader.Loop.{read_one}
use mcbenchmark.Replay.Ticks.{tick, dispatch_due, is_play_ready, send_idle_movement, idle_packet}
use mcbenchmark.Replay.Ticks.Moving.{Advances, tick-Advances}
use mcbenchmark.Replay.Counting.Runs.{
  fresh, event, packet, Reach, here, next, IsBalanced, runs-IsBalanced,
}

less_irrefl : (a : ℕ) → ltb a a ≡ false
less_irrefl a = ground arith

less_trans : (a b c : ℕ) → ltb a b ≡ true → ltb b c ≡ true → ltb a c ≡ true
less_trans a b c h g = ground arith

-- Whole numbers in place of floats.
abbrev whole_numbers : Arithmetic
whole_numbers = record {
  widen = λ a. a;
  add = λ a b. a + b;
  sub = λ a b. a - b + (b - a);
  mul = λ a b. a * b;
  add_32 = λ a b. a + b;
  less = ltb;
  at_most = leb;
  less_irrefl = less_irrefl;
  less_trans = less_trans;
}

abbrev always : ℕ → Bool
always n = true

abbrev finish : TraceEvent
finish = record {
  offset_us = pos 7;
  kind = Kind.dig;
  content =
      encode_dig (record { action = pos 2; x = pos 10; y = negsuc 63; z = pos 3; face = pos 1 });
}

abbrev bot : Session
bot = fresh (b'b' ∷ []) none

abbrev dug : Session
dug = dispatch whole_numbers always (pos 1000) finish bot

abbrev verdict : List ℕ
verdict = block_update_body (pos 10) (negsuc 63) (pos 3) (pos 0)

abbrev answered : Session
answered = (read_one whole_numbers always Clientbound.block_update verdict false dug).session

abbrev dig_run : Reach whole_numbers always bot answered
dig_run =
    next (next here (event (pos 1000) finish bot))
      (packet Clientbound.block_update verdict false dug)

runs-IsBalanced_example : IsBalanced whole_numbers always 1 answered
runs-IsBalanced_example = runs-IsBalanced whole_numbers always (b'b' ∷ []) none dig_run

abbrev playing : Session
playing = record bot { state = State.play_ready }

quiet_tick : (tick whole_numbers always (pos 1000) (pos 50000) [] playing).ends ≡ false
unfolding tick dispatch_due send_idle_movement is_play_ready idle_packet post send
quiet_tick = refl

tick-Advances_example :
    Advances playing (tick whole_numbers always (pos 1000) (pos 50000) [] playing).session
tick-Advances_example =
    tick-Advances whole_numbers always (pos 1000) (pos 50000) [] playing quiet_tick

abbrev zombie : TrackedEntity
zombie = record { type_id = pos 152; x = 3; y = 64; z = 0 }

abbrev cow : TrackedEntity
cow = record { type_id = pos 30; x = 1; y = 64; z = 0 }

abbrev herd : Tracker
herd = (pos 7, zombie) ∷ (pos 8, cow) ∷ []

nearest-Picked_example :
    Picked whole_numbers 0 64 0 (pos 30) herd (nearest whole_numbers 0 64 0 (pos 30) herd)
nearest-Picked_example = nearest-Picked whole_numbers 0 64 0 (pos 30) herd
