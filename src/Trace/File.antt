-- ===== src/Trace/File.antt =====
-- go/internal/tracefile/tracefile.go: `Trace.Write` and `Read`, on the bytes of the file. Creating
-- the file and reading it from the disk are not modelled.
use mcbenchmark.Prelude.{
  ℕ, List, [], ◌∷◌, ◌++◌, length, take, drop, ltb, ◌||◌, not, bytes_eq, if◌then◌else◌,
}
use mcbenchmark.Prelude.Int.{ℤ, pos, negsuc}
use mcbenchmark.Prelude.Word.{u32, i32}
use mcbenchmark.Compression.{Compression}
use mcbenchmark.Wire.Reading.{
  Result, ok, err, bad_magic, bad_schema, bad_compression, negative_count, Reader, pure, fail, run,
  ◌>>=◌,
}
use mcbenchmark.Wire.Outcome.{◌>>=◌ as ◌then◌, or_fail}
use mcbenchmark.Wire.VarInt.{put_var_int, put_var_long, var_int, var_long}
use mcbenchmark.Wire.Fixed.{put_string, string}
use mcbenchmark.Trace.Model.{Trace, TraceEvent, latest_schema}
use mcbenchmark.Trace.Origins.{write_origin, write_inventory, read_origin, read_trace_inventory}
use mcbenchmark.Trace.Events.{put_events, read_events}

-- "MCT1"
abbrev pub magic : List ℕ
magic = 0x4d ∷ 0x43 ∷ 0x54 ∷ 0x31 ∷ []

unfoldable pub put_event_list : List TraceEvent → List ℕ
put_event_list es = put_var_int (i32 (length es)) ++ put_events (pos 0) es

-- The fields in order; `o` and `i` are the bytes of the origin and the inventory block.
unfoldable pub put_fields : Trace → List ℕ → List ℕ → List ℕ
put_fields t o i =
    put_var_int (i32 t.schema_version)
    ++ (put_var_int (i32 t.protocol_version)
        ++ (put_string t.world_profile_id
            ++ (put_string t.trace_id
                ++ (put_var_long t.duration_us ++ (o ++ (i ++ put_event_list t.events))))))

-- What `w` holds when it is handed to the compressor.
unfoldable pub trace_body : Trace → Result (List ℕ)
unfolding put_fields
trace_body t =
    ◌then◌ (write_origin t.schema_version t.origin)
      λ o. ◌then◌ (write_inventory t.schema_version t.inventory) λ i. ok (put_fields t o i)

unfoldable pub read_event_list : ℤ → Reader (List TraceEvent)
read_event_list (negsuc n) = fail negative_count
read_event_list (pos n) = read_events n (pos 0)

-- The body behind the schema version.
unfoldable pub read_of_schema : ℕ → Reader Trace
read_of_schema schema = do
  protocol ← var_int
  profile ← string
  id ← string
  duration ← var_long
  o ← read_origin schema
  i ← read_trace_inventory schema
  n ← var_int
  es ← read_event_list n
  pure (record {
    schema_version = schema;
    protocol_version = u32 protocol;
    world_profile_id = profile;
    trace_id = id;
    duration_us = duration;
    origin = o;
    inventory = i;
    events = es;
  })

-- `if t.SchemaVersion < 1 || t.SchemaVersion > SchemaVersion { return error }`
unfoldable pub read_body : Reader Trace
read_body = do
  sv ← var_int
  let schema = u32 sv
  if ltb schema 1 || ltb latest_schema schema then fail bad_schema else read_of_schema schema

module _ (lz4 : Compression) where
  open lz4 use {compress, decompress}

  unfoldable pub write_trace : Trace → Result (List ℕ)
  write_trace t =
      ◌then◌ (trace_body t)
        λ body. ◌then◌ (or_fail (compress body) bad_compression) λ c. ok (magic ++ c)

  unfoldable pub read_trace : List ℕ → Result Trace
  unfolding bytes_eq
  read_trace content =
      if ltb (length content) 4 || not (bytes_eq (take 4 content) magic)
      then err bad_magic
      else ◌then◌ (or_fail (decompress (drop 4 content)) bad_compression) λ raw. run read_body raw
