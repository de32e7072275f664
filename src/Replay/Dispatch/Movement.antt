-- ===== src/Replay/Dispatch/Movement.antt =====
-- go/internal/replay/dispatch.go: the cases of `dispatch` about the player's own movement.
use mcbenchmark.Prelude.{ℕ, ◌+◌, List, Bool, true, if◌then◌else◌}
use mcbenchmark.Prelude.Int.{ℤ}
use mcbenchmark.Replay.Dispatch.{decoded}
use mcbenchmark.Float.{Arithmetic, sixty_four}
use mcbenchmark.Payload.Position.{MovePayload, decode_move, Place, decode_reanchor}
use mcbenchmark.Payload.Open.{decode_toggle}
use mcbenchmark.Packets.Build.{position_look, entity_action}
use mcbenchmark.Packets.Ids.Serverbound
use mcbenchmark.Replay.Session.{WorldView, Session, post}
use mcbenchmark.Replay.Entities.{squares}

module _ (fl : Arithmetic) (accepts : ℕ → Bool) where
  -- A full position packet, and the tick counts as moved.
  unfoldable pub post_position : ℕ → ℕ → ℕ → ℕ → ℕ → Bool → Session → Session
  post_position x y z yaw pitch on_ground s =
      let s' = post accepts Serverbound.position_look (position_look x y z yaw pitch on_ground) s in
      record s' { moved_this_tick = true; idle_ticks = 0 }

  unfoldable pub moved_view : MovePayload → WorldView → WorldView
  moved_view m v = record v {
    x = fl.add v.x (fl.widen m.dx);
    y = fl.add v.y (fl.widen m.dy);
    z = fl.add v.z (fl.widen m.dz);
    yaw = m.yaw;
    pitch = m.pitch;
  }

  unfoldable pub replay_move : MovePayload → Session → Session
  replay_move m s =
      let v = moved_view m s.view in
      post_position v.x v.y v.z v.yaw v.pitch m.on_ground (record s { view = v })

  -- `dx*dx+dy*dy+dz*dz <= maxSelfMoveSq`
  unfoldable pub is_near : Place → WorldView → Bool
  is_near a v =
      fl.at_most (squares fl (fl.sub a.x v.x) (fl.sub a.y v.y) (fl.sub a.z v.z)) sixty_four

  unfoldable pub placed_view : Place → WorldView → WorldView
  placed_view a v = record v { x = a.x; y = a.y; z = a.z; yaw = a.yaw; pitch = a.pitch }

  -- A relocation that is too far for a client to claim is counted, and nothing is sent.
  unfoldable pub replay_reanchor : Place → Session → Session
  replay_reanchor a s =
      let agg = record s.agg { relocations_unreproduced = s.agg.relocations_unreproduced + 1 } in
      if is_near a s.view
      then post_position a.x a.y a.z a.yaw a.pitch true (record s { view = placed_view a s.view })
      else record s { agg = agg }

  unfoldable pub on_move : List ℕ → Session → Session × Bool
  on_move payload s = decoded (decode_move payload) s (λ m. (replay_move m s, true))

  unfoldable pub on_reanchor : List ℕ → Session → Session × Bool
  on_reanchor payload s =
      decoded (decode_reanchor payload) s (λ a. (replay_reanchor a.place s, true))

  -- Sprinting and sneaking differ in the two actions.
  unfoldable pub on_toggle : ℤ → ℤ → List ℕ → Session → Session × Bool
  on_toggle start stop payload s = decoded (decode_toggle payload) s (λ on.
      (post accepts Serverbound.entity_action (entity_action (if on then start else stop)) s, true))
