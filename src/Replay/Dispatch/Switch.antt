-- ===== src/Replay/Dispatch/Switch.antt =====
-- go/internal/replay/dispatch.go: `dispatch`.
use mcbenchmark.Prelude.{ℕ, ◌+◌, Bool, true, false, if◌then◌else◌}
use mcbenchmark.Prelude.Int.{ℤ, ◌==ℤ◌}
use mcbenchmark.Event.Kind
use mcbenchmark.Float.{Arithmetic}
use mcbenchmark.Trace.Model.{TraceEvent}
use mcbenchmark.Packets.Ids.Action
use mcbenchmark.Replay.Session.{Session}
use mcbenchmark.Replay.Dispatch.Blocks.{on_dig, on_place, on_use_item, on_drop_item, on_swap_hands}
use mcbenchmark.Replay.Dispatch.Movement.{on_move, on_reanchor, on_toggle}
use mcbenchmark.Replay.Dispatch.Combat.{on_entity}
use mcbenchmark.Replay.Dispatch.Menus.{
  on_held_slot, on_chat, on_cmd, on_inv_click, on_inv_close, on_inv_open, on_creative_set,
}

-- The two counters of an event, and the session's own.
unfoldable pub tally : Session × Bool → Session
tally (s, handled) =
    let replayed = record s.agg { events_replayed = s.agg.events_replayed + 1 } in
    let skipped = record s.agg { events_skipped = s.agg.events_skipped + 1 } in
    if handled
    then record s { events_replayed = s.events_replayed + 1; agg = replayed }
    else record s { agg = skipped }

module _ (fl : Arithmetic) (accepts : ℕ → Bool) where
  -- `switch e.Kind`; every other kind is not handled. `clock` is the time in milliseconds.
  unfoldable pub handle : ℤ → TraceEvent → Session → Session × Bool
  handle clock e s =
      if e.kind ==ℤ Kind.move
      then on_move fl accepts e.content s
      else if e.kind ==ℤ Kind.reanchor
      then on_reanchor fl accepts e.content s
      else if e.kind ==ℤ Kind.sprint_toggle
      then on_toggle fl accepts Action.start_sprint Action.stop_sprint e.content s
      else if e.kind ==ℤ Kind.sneak_toggle
      then on_toggle fl accepts Action.start_sneak Action.stop_sneak e.content s
      else if e.kind ==ℤ Kind.dig
      then on_dig accepts e.content s
      else if e.kind ==ℤ Kind.place_block
      then on_place accepts e.content s
      else if e.kind ==ℤ Kind.use_item
      then on_use_item accepts e.content s
      else if e.kind ==ℤ Kind.attack_entity
      then on_entity fl accepts true e.content s
      else if e.kind ==ℤ Kind.interact_entity
      then on_entity fl accepts false e.content s
      else if e.kind ==ℤ Kind.held_slot
      then on_held_slot accepts e.content s
      else if e.kind ==ℤ Kind.chat
      then on_chat accepts clock e.content s
      else if e.kind ==ℤ Kind.drop_item
      then on_drop_item accepts e.content s
      else if e.kind ==ℤ Kind.swap_hands
      then on_swap_hands accepts s
      else if e.kind ==ℤ Kind.cmd
      then on_cmd accepts e.content s
      else if e.kind ==ℤ Kind.inv_click
      then on_inv_click accepts e.content s
      else if e.kind ==ℤ Kind.inv_close
      then on_inv_close accepts s
      else if e.kind ==ℤ Kind.inv_open
      then on_inv_open accepts e.content s
      else if e.kind ==ℤ Kind.creative_set
      then on_creative_set accepts e.content s
      else (s, false)

  unfoldable pub dispatch : ℤ → TraceEvent → Session → Session
  dispatch clock e s = tally (handle clock e s)
