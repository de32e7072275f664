-- ===== src/Tests/Amplified.antt =====
-- A trace of three events, amplified with jitter from one seed.
use mcbenchmark.Prelude.{ℕ, ◌≡◌, refl, List, [], ◌∷◌, none, All, false}
use mcbenchmark.Prelude.Int.{pos, ◌≤ℤ◌}
use mcbenchmark.Prelude.Sort.{IsSortedBy}
use mcbenchmark.Event.Kind
use mcbenchmark.Trace.Model.{Trace}
use mcbenchmark.Amplify.{Options}
use mcbenchmark.Amplify.Numbers.{split, is_all_digits}
use mcbenchmark.Amplify.Schedule.{offset, amplified, amplify_trace-schedule}

abbrev jitter : Options
jitter = record {
  start_jitter_us = pos 30000000;
  event_jitter_us = pos 200000;
  space_spread = pos 64;
  vary_percent = pos 30;
}

abbrev played : Trace
played = record {
  schema_version = 3;
  protocol_version = 775;
  world_profile_id = [];
  trace_id = [];
  duration_us = pos 9000;
  origin = none;
  inventory = none;
  events =
      record { offset_us = pos 0; kind = Kind.move; content = [] }
      ∷ record { offset_us = pos 4000; kind = Kind.cmd; content = 1 ∷ 53 ∷ [] }
      ∷ record { offset_us = pos 9000; kind = Kind.move; content = [] }
      ∷ [];
}

amplify_trace-schedule_example :
    IsSortedBy offset (amplified played [] jitter 42).events
    × All (λ e. pos 0 ≤ℤ e.offset_us) (amplified played [] jitter 42).events
    × All
        (λ e. e.offset_us ≤ℤ (amplified played [] jitter 42).duration_us)
        (amplified played [] jitter 42).events
amplify_trace-schedule_example = amplify_trace-schedule played [] jitter 42

-- "ah {SELF}"
abbrev command : List ℕ
command = 97 ∷ 104 ∷ 32 ∷ 123 ∷ 83 ∷ 69 ∷ 76 ∷ 70 ∷ 125 ∷ []

no_numbers : All (λ f. is_all_digits f ≡ false) (split command)
unfolding split is_all_digits
no_numbers = (refl, (refl, tt))
