-- ===== src/Tests/Samples.antt =====
-- Test data: two players, a capture of three events and the files that hold it.
use mcbenchmark.Prelude.{ℕ, arith, refl, List, [], ◌∷◌}
use mcbenchmark.Prelude.Int.{ℤ, pos, negsuc}
use mcbenchmark.Event.{RawEvent}
use mcbenchmark.Event.Kind
use mcbenchmark.Event.RoundTrip.{length-encode_le}
use mcbenchmark.CaptureLog.Frames.{IsLogged}
use mcbenchmark.Payload.Position.{Place, ReanchorPayload, encode_marker_at, encode_reanchor}
use mcbenchmark.Payload.Block.{DigPayload, encode_dig}
use mcbenchmark.Compile.Origins.{session_start}

-- The hash of a player's name: 32 bytes.
abbrev pub steve : List ℕ
steve =
    1 ∷ 2 ∷ 3 ∷ 4 ∷ 5 ∷ 6 ∷ 7 ∷ 8 ∷ 1 ∷ 2 ∷ 3 ∷ 4 ∷ 5 ∷ 6 ∷ 7 ∷ 8 ∷ 1 ∷ 2 ∷ 3 ∷ 4 ∷ 5 ∷ 6 ∷ 7 ∷ 8
    ∷ 1 ∷ 2 ∷ 3 ∷ 4 ∷ 5 ∷ 6 ∷ 7 ∷ 8 ∷ []

abbrev pub event_at : ℤ → ℤ → List ℕ → RawEvent
event_at t kind payload = record {
  t_micro = t;
  player_id = steve;
  session_seq = pos 1;
  dimension_id = pos 0;
  coarse_chunk_x = pos 2;
  coarse_chunk_z = negsuc 2;
  region_id = 115 ∷ [];
  kind = kind;
  payload = payload;
}

abbrev pub spot : Place
spot = record { x = 4607182418800017408; y = 64; z = 0; yaw = 7; pitch = 0 }

abbrev pub anchor : ReanchorPayload
anchor = record { place = spot; dimension = negsuc 0 }

abbrev pub stone : DigPayload
stone = record { action = pos 0; x = pos 10; y = negsuc 63; z = pos 3; face = pos 1 }

abbrev pub start_event : RawEvent
start_event = event_at (pos 1000000) Kind.marker (encode_marker_at session_start spot)

abbrev pub anchor_event : RawEvent
anchor_event = event_at (pos 3000000) Kind.reanchor (encode_reanchor anchor)

abbrev pub dig_event : RawEvent
dig_event = event_at (pos 2000000) Kind.dig (encode_dig stone)

abbrev pub say_event : RawEvent
say_event = event_at (pos 4000000) Kind.cmd (3 ∷ 115 ∷ 97 ∷ 121 ∷ [])

pub say_event-IsLogged : IsLogged say_event
say_event-IsLogged = record {
  fits = record {
    t_fits = omega arith;
    player_is_hash = refl;
    seq_fits = omega arith;
    dimension_fits = omega arith;
    chunk_x_fits = omega arith;
    chunk_z_fits = omega arith;
    region_fits = omega arith;
    kind_fits = omega arith;
    payload_fits = omega arith;
  };
  size_fits = omega (arith, length-encode_le say_event refl);
}
