-- ===== src/Tests/Blocks.antt =====
-- The ledger of a trace that digs one block.
use mcbenchmark.Prelude.{none, ◌↔◌, ◌≡◌, refl, List, [], ◌∷◌, some, true, false, arith}
use mcbenchmark.Prelude.Int.{ℤ, pos, negsuc}
use mcbenchmark.Wire.Reading.{ok}
use mcbenchmark.Event.Kind
use mcbenchmark.Payload.Block.{encode_dig, decode_dig, decode_dig-encode_dig}
use mcbenchmark.Trace.Model.{TraceEvent}
use mcbenchmark.Replay.Ledger.{
  Position, Ledger, touched, wanted_from, new_block_ledger, set_min_section_y,
}
use mcbenchmark.Replay.Ledger.Positions.{tracked, touches, wants-new_block_ledger}
use mcbenchmark.Tests.Samples.{stone}

abbrev trace_events : List TraceEvent
trace_events =
    record { offset_us = pos 0; kind = Kind.cmd; content = [] }
    ∷ record { offset_us = pos 9; kind = Kind.dig; content = encode_dig stone }
    ∷ []

abbrev stone_at : Position
stone_at = (pos 10, negsuc 63, pos 3)

abbrev elsewhere : Position
elsewhere = (pos 11, negsuc 63, pos 3)

abbrev stone_ledger : Ledger
stone_ledger = record {
  want = stone_at ∷ [];
  state = [];
  min_section_y = pos 0;
  have_min_y = false;
}

stone_read : decode_dig (encode_dig stone) ≡ ok stone
stone_read = decode_dig-encode_dig stone (record {
  action_fits = omega arith;
  x_fits = omega arith;
  y_fits = omega arith;
  z_fits = omega arith;
  face_fits = omega arith;
})

stone_tracked : new_block_ledger trace_events ≡ some stone_ledger
unfolding new_block_ledger wanted_from touched
stone_tracked = rw stone_read

wants-new_block_ledger_example :
    ((q : Position) → tracked (new_block_ledger trace_events) q ≡ touches trace_events q)
    × ((new_block_ledger trace_events ≡ none) ↔ ((q : Position) → touches trace_events q ≡ false))
wants-new_block_ledger_example = wants-new_block_ledger trace_events

abbrev chunk_states : List (Position × ℤ)
chunk_states = (stone_at, pos 1) ∷ (elsewhere, pos 0) ∷ []

known : (set_min_section_y stone_ledger 24).1 ≡ true
unfolding set_min_section_y
known = refl
