-- ===== src/Tests/Formats.antt =====
-- The primitive formats, an event and a trace file, written and read back.
use mcbenchmark.Prelude.{ℕ, ◌≡◌, refl, ◌⊎◌, List, [], ◌∷◌, Option, none, some, true, arith}
use mcbenchmark.Prelude.Int.{pos}
use mcbenchmark.Wire.Reading.{ok, err, needs_schema}
use mcbenchmark.Event.{encode, decode_event}
use mcbenchmark.Event.RoundTrip.{decode_event-encode}
use mcbenchmark.Compression.{stored}
use mcbenchmark.Trace.Model.{Origin, Trace, IsTrace, IsSized, IsPlaced}
use mcbenchmark.Trace.File.{write_trace, read_trace}
use mcbenchmark.Trace.RoundTrip.{read_trace-write_trace, write_trace_lossless}
use mcbenchmark.Tests.Samples.{spot, say_event, say_event-IsLogged}

decode_event-encode_example : decode_event (encode say_event) ≡ ok say_event
decode_event-encode_example = decode_event-encode say_event say_event-IsLogged.fits

abbrev sample_trace : ℕ → Option Origin → Trace
sample_trace schema origin = record {
  schema_version = schema;
  protocol_version = 775;
  world_profile_id = 100 ∷ [];
  trace_id = 116 ∷ 49 ∷ [];
  duration_us = pos 2000;
  origin = origin;
  inventory = none;
  events =
      record { offset_us = pos 0; kind = pos 3; content = 1 ∷ 2 ∷ [] }
      ∷ record { offset_us = pos 2000; kind = pos 11; content = [] }
      ∷ [];
}

abbrev ground_level : Origin
ground_level = record { place = spot; dimension = pos 0; exact = true }

sample_trace-IsTrace : IsTrace (sample_trace 3 (some ground_level))
sample_trace-IsTrace = record {
  schema_from = omega arith;
  schema_to = omega arith;
  protocol_fits = omega arith;
  profile_fits = omega arith;
  id_fits = omega arith;
  duration_fits = omega arith;
  origin_fits = record {
    place_fits = record {
      x_fits = omega arith;
      y_fits = omega arith;
      z_fits = omega arith;
      yaw_fits = omega arith;
      pitch_fits = omega arith;
    };
    dimension_fits = omega arith;
  };
  inventory_fits = tt;
  count_fits = omega arith;
  events_fit = (
    record { offset_fits = omega arith; kind_fits = omega arith; content_fits = omega arith },
    (record { offset_fits = omega arith; kind_fits = omega arith; content_fits = omega arith }, tt),
  );
  no_origin = λ h. absurd (omega (arith, h));
  no_inventory = λ h. refl;
}

read_trace-write_trace_example :
    (file : List ℕ) × (write_trace stored (sample_trace 3 (some ground_level)) ≡ ok file)
    × (read_trace stored file ≡ ok (sample_trace 3 (some ground_level)))
read_trace-write_trace_example =
    read_trace-write_trace stored (sample_trace 3 (some ground_level)) sample_trace-IsTrace

sample_trace-IsSized : IsSized (sample_trace 1 (some ground_level))
sample_trace-IsSized = record {
  schema_from = omega arith;
  schema_to = omega arith;
  protocol_fits = sample_trace-IsTrace.protocol_fits;
  profile_fits = sample_trace-IsTrace.profile_fits;
  id_fits = sample_trace-IsTrace.id_fits;
  duration_fits = sample_trace-IsTrace.duration_fits;
  origin_fits = sample_trace-IsTrace.origin_fits;
  inventory_fits = sample_trace-IsTrace.inventory_fits;
  count_fits = sample_trace-IsTrace.count_fits;
  events_fit = sample_trace-IsTrace.events_fit;
}

write_trace_lossless_example :
    (IsPlaced (sample_trace 1 (some ground_level))
      × (file : List ℕ) × (write_trace stored (sample_trace 1 (some ground_level)) ≡ ok file)
      × (read_trace stored file ≡ ok (sample_trace 1 (some ground_level))))
    ⊎ (¬ IsPlaced (sample_trace 1 (some ground_level))
        × (write_trace stored (sample_trace 1 (some ground_level)) ≡ err needs_schema))
write_trace_lossless_example =
    write_trace_lossless stored (sample_trace 1 (some ground_level)) sample_trace-IsSized
