-- ===== src/Compile/Run.antt =====
-- go/internal/compile/compile.go: `Run`, both passes over the contents of the capture files, and the
-- manifest of go/internal/tracefile. The traces it writes are a list of names and bytes; the scratch
-- directory, the messages that it logs and the JSON of the manifest are not modelled.
pub mod Grouped
pub mod Listed
pub mod InMemory
pub mod Made
pub mod Whole
pub mod Writable
pub mod Complete
use mcbenchmark.Prelude.{
  ℕ, zero, suc, ◌+◌, ◌-◌, ◌*◌, ◌/◌, ◌%◌, ◌^◌, List, [], ◌∷◌, ◌++◌, length, Option, none, some, Bool,
  ◌||◌, false, if◌then◌else◌, bytes_eq,
}
use mcbenchmark.Prelude.Int.{ℤ, pos, negsuc, sub_ℕ}
use mcbenchmark.Prelude.Word.{u32}
use mcbenchmark.Prelude.Sort.{sort_by}
use mcbenchmark.Prelude.Decimal.{digits_from}
use mcbenchmark.Prelude.Text.{codes}
use mcbenchmark.Accounts.{zeros}
use mcbenchmark.Compression.{Compression}
use mcbenchmark.Float.{Floats}
use mcbenchmark.Event.{RawEvent}
use mcbenchmark.Wire.Reading.{Result, ok, err, no_input, no_traces}
use mcbenchmark.Wire.Outcome.{◌>>=◌ as ◌then◌}
use mcbenchmark.CaptureLog.{Outcome, stream_dir}
use mcbenchmark.Trace.Model.{Trace, Origin, latest_schema}
use mcbenchmark.Trace.File.{write_trace}
use mcbenchmark.PlayerData.Uuid.{to_hex}
use mcbenchmark.Compile.Sessions.{SessionKey, Sessions}
use mcbenchmark.Compile.Session.{Options, first_time, count_kind, compile_session}
use mcbenchmark.Compile.Spill.{BucketFiles, spill, load_bucket}
use mcbenchmark.Compile.Tags.{Tag, classify}

-- `Options`, less `WorkDir`. An `Options` of Compile.Session is the part that one session needs.
pub record RunOptions : Type 0 where
  pub input : List ℕ
  pub output : List ℕ
  pub protocol : ℤ
  pub world_profile : List ℕ
  pub min_duration : ℤ
  pub max_duration : ℤ
  pub drop_chat : Bool
  pub run_id : List ℕ
  pub buckets : ℤ

-- `Defaults`, for an input and an output
abbrev pub defaults : List ℕ → List ℕ → RunOptions
defaults input output = record {
  input = input;
  output = output;
  protocol = pos 775;
  world_profile = codes "default";
  min_duration = pos 600;
  max_duration = pos 3600;
  drop_chat = false;
  run_id = codes "unnamed";
  buckets = pos 256;
}

unfoldable pub session_options : RunOptions → Options
session_options o = record {
  protocol = u32 o.protocol;
  world_profile = o.world_profile;
  min_duration = o.min_duration;
  max_duration = o.max_duration;
  drop_chat = o.drop_chat;
}

-- `if buckets < 1 { buckets = 1 }`
unfoldable pub bucket_count : ℤ → ℕ
bucket_count (pos zero) = 1
bucket_count (pos (suc n)) = suc n
bucket_count (negsuc n) = 1

pub record ManifestEntry : Type 0 where
  pub file : List ℕ
  pub duration_s : ℤ
  pub events : ℕ
  pub tags : List Tag
  pub player_hash : List ℕ

pub record Manifest : Type 0 where
  pub schema_version : ℕ
  pub protocol_version : ℤ
  pub world_profile : List ℕ
  pub run_id : List ℕ
  pub traces : List ManifestEntry

-- `Result`
pub record Summary : Type 0 where
  pub traces : ℕ
  pub sessions : ℕ
  pub dropped : ℕ
  pub no_origin : ℕ
  pub raw_events : ℕ
  pub manifest_dir : List ℕ

-- The variables of the second pass; `files` are the traces in the output directory.
pub record Output : Type 0 where
  pub trace_num : ℕ
  pub dropped : ℕ
  pub session_count : ℕ
  pub no_origin : ℕ
  pub files : List (List ℕ × List ℕ)
  pub entries : List ManifestEntry

abbrev pub nothing_yet : Output
nothing_yet = record {
  trace_num = 0;
  dropped = 0;
  session_count = 0;
  no_origin = 0;
  files = [];
  entries = [];
}

-- `%06d`
unfoldable pub six_digits : ℕ → List ℕ
six_digits n = let ds = digits_from 19 n in zeros (6 - length ds) ++ ds

-- `fmt.Sprintf("trace-%06d.bin", traceNum)`
unfoldable pub trace_file : ℕ → List ℕ
unfolding six_digits
trace_file n = codes "trace-" ++ (six_digits n ++ codes ".bin")

-- `fmt.Sprintf("%s-%06d", *runID, traceNum)`
unfoldable pub trace_id_of : List ℕ → ℕ → List ℕ
unfolding six_digits
trace_id_of run_id n = run_id ++ (codes "-" ++ six_digits n)

-- `durUs / 1_000_000`, which is rounded towards 0
unfoldable pub seconds : ℤ → ℤ
seconds (pos n) = pos (n / 1000000)
seconds (negsuc n) = sub_ℕ 0 (suc n / 1000000)

unfoldable pub entry_of : SessionKey → ℕ → Trace → ManifestEntry
unfolding trace_file seconds to_hex count_kind classify
entry_of k n t = record {
  file = trace_file n;
  duration_s = seconds t.duration_us;
  events = length t.events;
  tags = classify (λ kind. count_kind kind t.events) (length t.events);
  player_hash = to_hex k.player;
}

-- `if t.Origin == nil { noOrigin++ }`
unfoldable pub without_origin : Option Origin → ℕ
without_origin none = 1
without_origin (some o) = 0

abbrev pub drop_one : Output → Output
drop_one out = record out { dropped = out.dropped + 1 }

-- A trace more, behind `Write`.
unfoldable pub keep_one : SessionKey → Trace → List ℕ → Output → Output
unfolding trace_file entry_of without_origin
keep_one k t content out =
    let n = out.trace_num + 1 in
    record out {
      trace_num = n;
      no_origin = out.no_origin + without_origin t.origin;
      files = out.files ++ ((trace_file n, content) ∷ []);
      entries = out.entries ++ (entry_of k n t ∷ []);
    }

-- The callback of the first pass, which counts what it spills.
unfoldable pub spill_one : ℕ → BucketFiles × ℕ → RawEvent → BucketFiles × ℕ
unfolding spill
spill_one buckets (files, total) e = (spill buckets files e, total + 1)

module _ (floats : Floats) (lz4 : Compression) (o : RunOptions) where
  -- One turn of `for _, k := range order`.
  unfoldable pub add_session : Output → SessionKey × List RawEvent → Result Output
  unfolding trace_id_of session_options keep_one
  add_session out (k, evs) =
      let name = trace_id_of o.run_id (out.trace_num + 1) in
      elim (compile_session floats (session_options o) name evs) [
        | none ↦ ok (drop_one out)
        | some t ↦ ◌then◌ (write_trace lz4 t) λ content. ok (keep_one k t content out)
      ]

  unfoldable pub add_sessions : Output → Sessions → Result Output
  unfolding add_session
  add_sessions out [] = ok out
  add_sessions out (s ∷ ss) = ◌then◌ (add_session out s) λ out'. add_sessions out' ss

  -- A bucket: its sessions in the order of their first events.
  unfoldable pub add_bucket : Output → Sessions → Result Output
  unfolding add_sessions
  add_bucket out ss =
      let order = sort_by (λ s. first_time s.1) ss in
      add_sessions (record out { session_count = out.session_count + length order }) order

  -- The second pass over `left` buckets from the bucket `i`.
  unfoldable pub second_pass : ℕ → ℕ → BucketFiles → Output → Result Output
  unfolding add_bucket
  second_pass zero i files out = ok out
  second_pass (suc left) i files out =
      ◌then◌ (load_bucket (files i))
        λ ss. ◌then◌ (add_bucket out ss) λ out'. second_pass left (i + 1) files out'

  abbrev pub manifest_of : Output → Manifest
  manifest_of out = record {
    schema_version = latest_schema;
    protocol_version = o.protocol;
    world_profile = o.world_profile;
    run_id = o.run_id;
    traces = out.entries;
  }

  abbrev pub summary_of : ℕ → Output → Summary
  summary_of total out = record {
    traces = length out.entries;
    sessions = out.session_count;
    dropped = out.dropped;
    no_origin = out.no_origin;
    raw_events = total;
    manifest_dir = o.output;
  }

  -- What is left in the output directory, and the result.
  abbrev pub Compiled : Type 0
  Compiled = List (List ℕ × List ℕ) × Manifest × Summary

  unfoldable pub finish : ℕ → Output → Result Compiled
  finish total out = elim out.entries [
    | [] ↦ err no_traces
    | e ∷ es ↦ ok (out.files, manifest_of out, summary_of total out)
  ]

  unfoldable pub second_half : Outcome (BucketFiles × ℕ) → Result Compiled
  unfolding second_pass finish bucket_count
  second_half (s, some e) = err e
  second_half ((files, total), none) =
      ◌then◌ (second_pass (bucket_count o.buckets) 0 files nothing_yet) (finish total)

  -- `Run`, on the contents of the capture files
  unfoldable pub run : Compression → List (List ℕ) → Result Compiled
  unfolding second_half spill_one bytes_eq bucket_count
  run zlib captures =
      if bytes_eq o.input [] || bytes_eq o.output []
      then err no_input
      else second_half (
          stream_dir zlib (λ s e. (spill_one (bucket_count o.buckets) s e, none)) ((λ b. []), 0)
            captures)
