-- ===== src/Tests/Compiled.antt =====
-- The whole compiler on a directory of two capture files, the first of them cut short.
use mcbenchmark.Prelude.{ℕ, ◌++◌, ◌≡◌, refl, List, [], ◌∷◌, map, bytes_eq}
use mcbenchmark.Prelude.Int.{pos, ◌-ℤ◌}
use mcbenchmark.Prelude.Word.{sub_i64, i64, u64, i32, u32}
use mcbenchmark.Prelude.Text.{codes}
use mcbenchmark.Prelude.Sort.{sort_by, insert_by}
use mcbenchmark.Compression.{stored}
use mcbenchmark.Wire.Reading.{ok}
use mcbenchmark.CaptureLog.Directory.{whole, content, all_kept, kept_events}
use mcbenchmark.Compile.Run.{
  RunOptions, Compiled, defaults, run, bucket_count, add_bucket, add_sessions, add_session, finish,
  trace_file, trace_id_of, six_digits, seconds, entry_of, without_origin, keep_one, session_options,
}
use mcbenchmark.Compile.Run.Whole.{IsCompiled}
use mcbenchmark.Compile.Run.Complete.{IsDropped, run-IsCompiled}
use mcbenchmark.Compile.Sessions.{SessionKey, of_session}
use mcbenchmark.Wire.Reading.{err, no_traces}
use mcbenchmark.Prelude.{◌⊎◌}
use mcbenchmark.Compile.Tags.{commands, classify, threshold_tags}
use mcbenchmark.PlayerData.Uuid.{to_hex}
use mcbenchmark.Tests.Samples.{steve}
use mcbenchmark.CaptureLog.Loop.{logged_events}
use mcbenchmark.Compile.Spill.Load.{in_bucket}
use mcbenchmark.Compile.Run.InMemory.{pass_in_memory, compile_in_memory, run-compile_in_memory}
use mcbenchmark.Tests.Logs.{flush, killed, files, files-IsLogFile}
use mcbenchmark.Tests.Sessions.{zeros}
use mcbenchmark.Compile.Sessions.{group_from, add_event, key_eq}
use mcbenchmark.Compile.Spill.{bucket_of, fnv_from}
use mcbenchmark.Compile.Session.{
  compile_session, sort_events, first_time, last_time, cut_events, trace_of, last_offset, micros,
  count_kind,
}
use mcbenchmark.Compile.Origins.{
  resolve_origin, resolve_inventory, first_some, marker_origin, reanchor_origin, block_origin,
  block_of, inventory_of,
}
use mcbenchmark.Trace.File.{write_trace, trace_body, put_fields, put_event_list}
use mcbenchmark.Trace.Origins.{write_origin, write_inventory, put_optional}
use mcbenchmark.Wire.Bytes.{put_bool}
use mcbenchmark.Trace.Events.{put_events}
use mcbenchmark.Wire.VarInt.{put_var_int, put_var_long}
use mcbenchmark.Wire.Fixed.{put_string, le, len_i32}
use mcbenchmark.Wire.VarInt.Groups.{groups}

abbrev say : List ℕ
say = 0 ∷ 11 ∷ 4 ∷ 3 ∷ codes "say"

abbrev four_says : List ℕ
four_says = say ++ say ++ say ++ say

-- No session is too short, and all stand in one bucket.
abbrev every_length : RunOptions
every_length = record (defaults (codes "logs") (codes "traces")) {
  min_duration = pos 0;
  buckets = pos 1;
}

run-compile_in_memory_example :
    run zeros stored every_length stored (map content files)
    ≡ compile_in_memory zeros stored every_length (all_kept files)
unfolding bytes_eq
run-compile_in_memory_example =
    run-compile_in_memory zeros stored every_length stored killed (whole (flush ∷ []) ∷ []) refl
      refl files-IsLogFile

abbrev trace_bytes : List ℕ
trace_bytes =
    codes "MCT1"
    ++ (3 ∷ 135 ∷ 6 ∷ 7 ∷ [])
    ++ codes "default"
    ++ (14 ∷ [])
    ++ codes "unnamed-000001"
    ++ (0 ∷ 0 ∷ 0 ∷ 4 ∷ [])
    ++ four_says

abbrev traces : Compiled zeros stored every_length
traces = (
  (codes "trace-000001.bin", trace_bytes) ∷ [],
  record {
    schema_version = 3;
    protocol_version = pos 775;
    world_profile = codes "default";
    run_id = codes "unnamed";
    traces =
        record {
          file = codes "trace-000001.bin";
          duration_s = pos 0;
          events = 4;
          tags = commands ∷ [];
          player_hash = to_hex steve;
        }
        ∷ [];
  },
  record {
    traces = 1;
    sessions = 1;
    dropped = 0;
    no_origin = 1;
    raw_events = 4;
    manifest_dir = codes "traces";
  },
)

-- Four events in two files, one session, one trace.
in_memory : compile_in_memory zeros stored every_length (all_kept files) ≡ ok traces
unfolding compile_in_memory pass_in_memory in_bucket logged_events all_kept kept_events bucket_count
    add_bucket add_sessions add_session finish trace_file trace_id_of six_digits seconds entry_of
    without_origin keep_one session_options sort_by insert_by group_from add_event key_eq bytes_eq
    bucket_of fnv_from compile_session sort_events first_time last_time cut_events trace_of
    last_offset micros count_kind resolve_origin resolve_inventory first_some marker_origin
    reanchor_origin block_origin block_of inventory_of sub_i64 i64 u64 i32 u32 ◌-ℤ◌ write_trace
    trace_body put_fields put_event_list write_origin write_inventory put_events put_var_int
    put_var_long put_string le len_i32 classify threshold_tags to_hex groups put_optional put_bool
in_memory = refl

run-IsCompiled_example :
    ((c : Compiled zeros stored every_length) × (run zeros stored every_length stored
          (map content files)
        ≡ ok c)
      × IsCompiled zeros stored every_length (all_kept files) c)
    ⊎ ((run zeros stored every_length stored (map content files) ≡ err no_traces)
        × ((k : SessionKey) → IsDropped zeros stored every_length (of_session k (all_kept files))))
unfolding bytes_eq
run-IsCompiled_example =
    run-IsCompiled zeros stored every_length stored killed (whole (flush ∷ []) ∷ []) refl refl
      files-IsLogFile
