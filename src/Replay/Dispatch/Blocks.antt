-- ===== src/Replay/Dispatch/Blocks.antt =====
-- go/internal/replay/dispatch.go: the cases of `dispatch` about blocks: digging, building, using an
-- item, and the two actions that share the packet of a dig.
use mcbenchmark.Prelude.{ℕ, ◌+◌, List, Bool, true, if◌then◌else◌}
use mcbenchmark.Prelude.Int.{ℤ, pos, ◌==ℤ◌}
use mcbenchmark.Replay.Dispatch.{decoded}
use mcbenchmark.Payload.Block.{
  DigPayload, decode_dig, PlacePayload, decode_place, UseItemPayload, decode_use_item,
}
use mcbenchmark.Payload.Open.{decode_drop_item}
use mcbenchmark.Packets.Build.{block_dig, block_place, use_item, arm_animation}
use mcbenchmark.Packets.Ids.Serverbound
use mcbenchmark.Packets.Ids.Action
use mcbenchmark.Replay.Ledger.{Position, has_position}
use mcbenchmark.Replay.Session.{
  Session, insert_position, delete_position, post, post_next, note_dig, note_place,
}

module _ (accepts : ℕ → Bool) where
  unfoldable pub swing : Session → Session
  swing s = post accepts Serverbound.arm_animation (arm_animation (pos 0)) s

  -- The packet of a dig, and the swing that goes with it.
  unfoldable pub post_dig : ℤ → DigPayload → Session → Session
  post_dig status d s =
      swing (post_next accepts Serverbound.block_dig (block_dig status d.x d.y d.z d.face) s)

  -- A finish whose start the trace does not hold: a start is sent first.
  unfoldable pub start_first : DigPayload → Session → Session
  start_first d s =
      let s' = post_dig Action.dig_start d s in
      let agg = record s'.agg { dig_starts_synthesised = s'.agg.dig_starts_synthesised + 1 } in
      record s' { agg = agg }

  -- `case mcproto.DigFinish`, before the finish itself is sent
  unfoldable pub finish_tracked : DigPayload → Session → Session
  finish_tracked d s =
      let key : Position = (d.x, d.y, d.z) in
      let s' = if has_position s.dig_started key then s else start_first d s in
      record s' { dig_started = delete_position key s'.dig_started }

  -- `switch d.Action`, over the digs that have begun
  unfoldable pub track_dig : DigPayload → Session → Session
  track_dig d s =
      let key : Position = (d.x, d.y, d.z) in
      if d.action ==ℤ Action.dig_start
      then record s { dig_started = insert_position key s.dig_started }
      else if d.action ==ℤ Action.dig_finish
      then finish_tracked d s
      else if d.action ==ℤ Action.dig_abort
      then record s { dig_started = delete_position key s.dig_started }
      else s

  unfoldable pub replay_dig : DigPayload → Session → Session
  replay_dig d s =
      let s' = post_dig d.action d (track_dig d s) in
      if d.action ==ℤ Action.dig_finish then note_dig (d.x, d.y, d.z) s' else s'

  unfoldable pub replay_place : PlacePayload → Session → Session
  replay_place p s =
      note_place (p.x, p.y, p.z) p.face
        (swing
          (post_next accepts Serverbound.block_place (block_place p.hand p.x p.y p.z p.face) s))

  -- The look is that of the view.
  unfoldable pub replay_use_item : UseItemPayload → Session → Session
  replay_use_item u s =
      post_next accepts Serverbound.use_item (λ seq. use_item u.hand seq s.view.yaw s.view.pitch) s

  -- A dig packet that is no dig: no position, and no sequence number.
  unfoldable pub post_action : ℤ → Session → Session
  post_action status s =
      post accepts Serverbound.block_dig (block_dig status (pos 0) (pos 0) (pos 0) (pos 0) (pos 0))
        s

  unfoldable pub on_dig : List ℕ → Session → Session × Bool
  on_dig payload s = decoded (decode_dig payload) s (λ d. (replay_dig d s, true))

  unfoldable pub on_place : List ℕ → Session → Session × Bool
  on_place payload s = decoded (decode_place payload) s (λ p. (replay_place p s, true))

  unfoldable pub on_use_item : List ℕ → Session → Session × Bool
  on_use_item payload s = decoded (decode_use_item payload) s (λ u. (replay_use_item u s, true))

  unfoldable pub on_drop_item : List ℕ → Session → Session × Bool
  on_drop_item payload s =
      decoded (decode_drop_item payload) s
        (λ full. (post_action (if full then Action.drop_item_stack else Action.drop_item) s, true))

  unfoldable pub on_swap_hands : Session → Session × Bool
  on_swap_hands s = (post_action Action.swap_hands s, true)
