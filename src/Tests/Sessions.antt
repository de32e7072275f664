-- ===== src/Tests/Sessions.antt =====
-- The compiler on a small capture: spilled, grouped, sorted, cut and given its origin.
use mcbenchmark.Prelude.{
  ℕ, ◌+◌, ◌*◌, ◌%◌, ◌<◌, ◌≤◌, ◌≡◌, ◌≢◌, ◌↔◌, refl, List, [], ◌∷◌, ◌++◌, none, some, false, ◌==◌,
  if◌then◌else◌, length, length-append, All, arith,
}
use mcbenchmark.Prelude.Int.{ℤ, pos, negsuc, ◌-ℤ◌}
use mcbenchmark.Prelude.Word.{IsI32, IsI64, sub_i64, i64, u64}
use mcbenchmark.Wire.Reading.{ok}
use mcbenchmark.Event.{RawEvent}
use mcbenchmark.Event.Kind
use mcbenchmark.Event.RoundTrip.{length-encode_le}
use mcbenchmark.CaptureLog.Frames.{IsLogged}
use mcbenchmark.Payload.Position.{IsPlaceBits}
use mcbenchmark.Trace.Model.{Trace}
use mcbenchmark.Float.{Floats}
use mcbenchmark.Compile.Sessions.{SessionKey, Sessions, events_of, of_session}
use mcbenchmark.Compile.Spill.{bucket_of, spill_all, load_bucket}
use mcbenchmark.Compile.Spill.Load.{no_files, load_bucket_session}
use mcbenchmark.Payload.Position.{encode_marker_at, encode_reanchor, put_place}
use mcbenchmark.Payload.Block.{encode_dig}
use mcbenchmark.Wire.Fixed.{put_string, put_float64_be, put_float32_be, len_i32}
use mcbenchmark.Wire.VarInt.RoundTrip.{length-put_var_int}
use mcbenchmark.Wire.VarInt.{put_var_int}
use mcbenchmark.Compile.Origins.{
  session_start, resolve_inventory, first_some, inventory_of, marker_origin, reanchor_origin,
  block_origin, block_of, exact_origin, resolve_origin,
}
use mcbenchmark.Compile.Origins.Priority.{resolve_origin-marker}
use mcbenchmark.Compile.Session.{
  Options, micros, sort_events, first_time, compile_session, last_offset, last_time, cut_events,
  trace_of,
}
use mcbenchmark.Compile.Schedule.{selected, compile_session-events}
use mcbenchmark.Compile.Tags.{
  classify, combat, build, traverse, commands, mixed, Has, classify_tags,
}
use mcbenchmark.Tests.Samples.{
  steve, event_at, spot, anchor, stone, start_event, anchor_event, dig_event, say_event,
}

-- A float arithmetic that rounds everything to zero.
abbrev pub zeros : Floats
zeros = record {
  of_i32 = λ v. 0;
  add = λ a b. 0;
  of_i32_fits = λ v. omega arith;
  add_fits = λ a b. omega arith;
}

abbrev capture : List RawEvent
capture = say_event ∷ start_event ∷ dig_event ∷ anchor_event ∷ []

abbrev visit : SessionKey
visit = record { player = steve; seq = pos 1 }

abbrev IsSmall : ℤ → List ℕ → Type 0
IsSmall kind payload = IsI32 kind × (length payload < 1000)

event_fits :
    (t kind : ℤ) (payload : List ℕ)
    → IsI64 t
    → IsSmall kind payload
    → IsLogged (event_at t kind payload)
event_fits t kind payload h k = record {
  fits = record {
    t_fits = h;
    player_is_hash = refl;
    seq_fits = omega arith;
    dimension_fits = omega arith;
    chunk_x_fits = omega arith;
    chunk_z_fits = omega arith;
    region_fits = omega arith;
    kind_fits = k.0;
    payload_fits = omega (arith, k.1);
  };
  size_fits = omega (arith, length-encode_le (event_at t kind payload) refl, k.1);
}

length-start : length (put_string session_start) < 100
unfolding put_string
length-start = omega (
  arith,
  length-append (put_var_int (len_i32 session_start)) session_start,
  length-put_var_int (len_i32 session_start),
)

length-marker : length (encode_marker_at session_start spot) < 1000
unfolding encode_marker_at put_place put_float64_be put_float32_be
length-marker = simp length-append (omega (arith, length-start))

length-reanchor : length (encode_reanchor anchor) < 1000
unfolding encode_reanchor put_place put_float64_be put_float32_be
length-reanchor = simp length-append (omega (arith, length-put_var_int (negsuc 0)))

length-dig : length (encode_dig stone) < 1000
unfolding encode_dig
length-dig = simp length-append (
    omega (
      arith,
      length-put_var_int (pos 0),
      length-put_var_int (pos 10),
      length-put_var_int (negsuc 63),
      length-put_var_int (pos 3),
      length-put_var_int (pos 1),
    ))

capture_fits : All IsLogged capture
capture_fits = (
  event_fits _ _ _ (omega arith) (omega arith, omega arith),
  (
    event_fits _ _ _ (omega arith) (omega arith, length-marker),
    (
      event_fits _ _ _ (omega arith) (omega arith, length-dig),
      (event_fits _ _ _ (omega arith) (omega arith, length-reanchor), tt),
    ),
  ),
)

load_bucket_session_example :
    (ss : Sessions) × (load_bucket (spill_all 256 no_files capture 17) ≡ ok ss)
    × (events_of visit ss ≡ (if 17 == bucket_of visit % 256 then of_session visit capture else []))
load_bucket_session_example = load_bucket_session 256 17 visit capture capture_fits

abbrev one_of_each : ℕ
one_of_each = 1

classify_tags_example :
    (classify (λ k. 1) 100 ≢ [])
    × (Has combat (classify (λ k. 1) 100) ↔ (100 ≤ (1 + 1) * 50))
    × (Has build (classify (λ k. 1) 100) ↔ (100 ≤ (1 + 1) * 20))
    × (Has traverse (classify (λ k. 1) 100) ↔ (100 * 9 ≤ 1 * 10))
    × (Has commands (classify (λ k. 1) 100) ↔ (0 < one_of_each))
    × (Has mixed (classify (λ k. 1) 100)
        ↔ (((1 + 1) * 50 < 100) × ((1 + 1) * 20 < 100) × (1 * 10 < 100 * 9) × (one_of_each ≡ 0)))
classify_tags_example = classify_tags (λ k. 1) 100

spot_fits : IsPlaceBits spot
spot_fits = record {
  x_fits = omega arith;
  y_fits = omega arith;
  z_fits = omega arith;
  yaw_fits = omega arith;
  pitch_fits = omega arith;
}

passed_over :
    (marker_origin say_event ≡ none)
    × (marker_origin dig_event ≡ none)
    × (marker_origin anchor_event ≡ none)
unfolding marker_origin
passed_over = (refl, refl, refl)

resolve_origin-marker_example :
    resolve_origin zeros ((say_event ∷ []) ++ (start_event ∷ dig_event ∷ []))
    ≡ some (exact_origin spot (pos 0))
resolve_origin-marker_example =
    resolve_origin-marker zeros (say_event ∷ []) (dig_event ∷ []) start_event spot
      (passed_over.0, tt) refl refl spot_fits

abbrev an_hour : Options
an_hour = record {
  protocol = 775;
  world_profile = [];
  min_duration = pos 1;
  max_duration = pos 3600;
  drop_chat = false;
}

abbrev jump_event : RawEvent
jump_event = event_at (pos 5500000) (pos 10) []

abbrev late_event : RawEvent
late_event = event_at (pos 3700000000) (pos 10) []

abbrev jumps : List RawEvent
jumps = late_event ∷ jump_event ∷ say_event ∷ []

abbrev compiled : Trace
compiled = record {
  schema_version = 3;
  protocol_version = 775;
  world_profile_id = [];
  trace_id = [];
  duration_us = pos 1500000;
  origin = none;
  inventory = none;
  events =
      record { offset_us = pos 0; kind = Kind.cmd; content = say_event.payload }
      ∷ record { offset_us = pos 1500000; kind = pos 10; content = [] }
      ∷ [];
}

jumps-compiled : compile_session zeros an_hour [] jumps ≡ some compiled
unfolding compile_session sort_events first_time last_time cut_events trace_of last_offset micros
    resolve_origin resolve_inventory first_some marker_origin reanchor_origin block_origin block_of
    inventory_of sub_i64 ◌-ℤ◌ i64 u64
jumps-compiled = refl

compile_session-events_example :
    compiled.events
    ≡ selected
        (first_time (sort_events jumps))
        (micros an_hour.max_duration)
        an_hour.drop_chat
        (sort_events jumps)
compile_session-events_example =
    compile_session-events zeros an_hour [] jumps compiled
      ((omega arith, omega arith), ((omega arith, omega arith), ((omega arith, omega arith), tt)))
      jumps-compiled
