-- ===== src/Replay/Ticks.antt =====
-- go/internal/replay/protocol_flow.go: `sendIdleMovement`, and one tick of `playOnce`: the events that
-- are due, and the movement packet that a client sends on every tick.
pub mod Moving
use mcbenchmark.Prelude.{ℕ, ◌+◌, ◌%◌, ◌==◌, List, [], ◌∷◌, Bool, true, false, if◌then◌else◌}
use mcbenchmark.Prelude.Int.{ℤ, ltb_ℤ}
use mcbenchmark.Float.{Arithmetic}
use mcbenchmark.Trace.Model.{TraceEvent}
use mcbenchmark.Packets.Ids.Serverbound
use mcbenchmark.Packets.Build.{position_look, flying, abilities}
use mcbenchmark.Replay.Session.{State, Session, post}
use mcbenchmark.Replay.Dispatch.Switch.{dispatch}

abbrev pub vanilla_resync_ticks : ℕ
vanilla_resync_ticks = 20

-- `s.getState() == StatePlayReady`
unfoldable pub is_play_ready : State → Bool
is_play_ready State.play_ready = true
is_play_ready other = false

module _ (accepts : ℕ → Bool) where
  unfoldable pub idle_packet : Session → Session
  idle_packet s =
      let v = s.view in
      if s.idle_ticks % vanilla_resync_ticks == 0
      then (post accepts Serverbound.position_look (position_look v.x v.y v.z v.yaw v.pitch true) s)
      else post accepts Serverbound.flying (flying true) s

  unfoldable pub send_idle_movement : Session → Session
  send_idle_movement s =
      if is_play_ready s.state then idle_packet (record s { idle_ticks = s.idle_ticks + 1 }) else s

  -- What `replayLoop` sends before its first pass.
  unfoldable pub begin_replay : Bool → Session → Session
  begin_replay enable_flight s =
      let loaded = post accepts Serverbound.player_loaded [] s in
      if enable_flight then post accepts Serverbound.abilities (abilities true) loaded else loaded

-- What a tick leaves: the events still to come, the session, and whether the pass ends early.
pub record Ticked : Type 0 where
  pub events : List TraceEvent
  pub session : Session
  pub ends : Bool

module _ (fl : Arithmetic) (accepts : ℕ → Bool) (clock : ℤ) where
  -- `for idx < len(events) && events[idx].OffsetUs <= elapsedUs { s.dispatch(events[idx]); idx++ }`
  unfoldable pub dispatch_due : ℤ → List TraceEvent → Session → List TraceEvent × Session
  dispatch_due elapsed [] s = ([], s)
  dispatch_due elapsed (e ∷ es) s =
      let rest = dispatch_due elapsed es (dispatch fl accepts clock e s) in
      if ltb_ℤ elapsed e.offset_us then (e ∷ es, s) else rest

  unfoldable pub tick : ℤ → List TraceEvent → Session → Ticked
  tick elapsed es s =
      let (left, s') = dispatch_due elapsed es (record s { moved_this_tick = false }) in
      let s'' = if s'.moved_this_tick then s' else send_idle_movement accepts s' in
      record {
        events = left;
        session = s'';
        ends = if is_play_ready s''.state then false else true;
      }
