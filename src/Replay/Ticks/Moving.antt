-- ===== src/Replay/Ticks/Moving.antt =====
-- go/internal/replay/protocol_flow.go: a client sends a movement packet on every tick.
use mcbenchmark.Prelude.{
  ℕ, ◌+◌, ◌≤◌, ◌≡◌, refl, inl, inr, List, [], ◌∷◌, Bool, true, false, length, Bool-cases, arith,
}
use mcbenchmark.Prelude.Int.{ℤ, ltb_ℤ}
use mcbenchmark.Float.{Arithmetic}
use mcbenchmark.Trace.Model.{TraceEvent}
use mcbenchmark.Packets.Ids.Serverbound
use mcbenchmark.Packets.Build.{position_look, flying}
use mcbenchmark.Replay.Session.{Session, send, post}
use mcbenchmark.Replay.Dispatch.Switch.{tally, dispatch}
use mcbenchmark.Replay.Ticks.{is_play_ready, idle_packet, send_idle_movement, dispatch_due, tick}
use mcbenchmark.Replay.Counting.{moves, moved, post-Follows_moved}
use mcbenchmark.Replay.Counting.Handlers.{handle-Follows}

-- From the state before to the one behind a tick: a movement packet more, or a write refused.
abbrev pub Advances : Session → Session → Type 0
Advances s t = 1 + moves s.sent + s.writes + length t.sent ≤ moves t.sent + t.writes + length s.sent

-- What dispatching keeps: a session that comes to have moved has sent a movement packet.
abbrev Kept : Session → Session → Type 0
Kept s t =
    moved t + moves s.sent + s.writes + length t.sent
    ≤ moved s + moves t.sent + t.writes + length s.sent

module _ (accepts : ℕ → Bool) where
  post-state : (id : ℤ) (body : List ℕ) (s : Session) → (post accepts id body s).state ≡ s.state
  unfolding post send
  post-state id body s = ground arith

  idle_packet-state : (s : Session) → (idle_packet accepts s).state ≡ s.state
  unfolding idle_packet
  idle_packet-state s = ground (
    arith,
    post-state Serverbound.flying (flying true) s,
    post-state Serverbound.position_look
        (position_look s.view.x s.view.y s.view.z s.view.yaw s.view.pitch true) s,
  )

  idle_packet-Advances : (s : Session) → Advances s (idle_packet accepts s)
  unfolding idle_packet
  idle_packet-Advances s = ground (
    arith,
    post-Follows_moved accepts Serverbound.flying (flying true) s refl,
    post-Follows_moved accepts Serverbound.position_look
        (position_look s.view.x s.view.y s.view.z s.view.yaw s.view.pitch true) s refl,
  )

  -- An idle tick of a session that plays sends a movement packet.
  idle-Advances :
      (s : Session)
      → is_play_ready (send_idle_movement accepts s).state ≡ true
      → Advances s (send_idle_movement accepts s)
  unfolding send_idle_movement
  idle-Advances s h = elim (Bool-cases (is_play_ready s.state)) [
    | inl ready ↦ rw (ready) (idle_packet-Advances (record s { idle_ticks = s.idle_ticks + 1 }))
    | inr not_ready ↦ absurd (cc (rw (not_ready) at h, not_ready))
  ]

module _ (fl : Arithmetic) (accepts : ℕ → Bool) (clock : ℤ) where
  dispatch-Kept : (e : TraceEvent) (s : Session) → Kept s (dispatch fl accepts clock e s)
  unfolding dispatch tally
  dispatch-Kept e s = ground (arith, handle-Follows fl accepts clock e s)

  dispatch_due-Kept :
      (elapsed : ℤ) (es : List TraceEvent) (s : Session)
      → Kept s (dispatch_due fl accepts clock elapsed es s).1
  unfolding dispatch_due
  dispatch_due-Kept elapsed [] s = omega arith
  dispatch_due-Kept elapsed (e ∷ es) s = elim (Bool-cases (ltb_ℤ elapsed e.offset_us)) [
    | inl later ↦ rw later (omega arith)
    | inr due ↦ rw due (
        omega
          (arith, dispatch-Kept e s, dispatch_due-Kept elapsed es (dispatch fl accepts clock e s)))
  ]

  -- On every tick that does not end the pass the session sends a movement packet, or a write on the
  -- connection fails: of the events that were due, or an idle one where none of them moved.
  pub tick-Advances :
      (elapsed : ℤ) (es : List TraceEvent) (s : Session)
      → (tick fl accepts clock elapsed es s).ends ≡ false
      → Advances s (tick fl accepts clock elapsed es s).session
  unfolding tick
  tick-Advances elapsed es s h =
      let t = (dispatch_due fl accepts clock elapsed es (record s { moved_this_tick = false })).1 in
      let kept = dispatch_due-Kept elapsed es (record s { moved_this_tick = false }) in
      ground (arith, kept, idle-Advances accepts t)
