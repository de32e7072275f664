-- ===== src/Trace/RoundTrip.antt =====
-- `Read` gives back every trace that `Write` can represent.
use mcbenchmark.Prelude.{
  ℕ, ◌≤◌, ◌<◌, ◌≡◌, ◌≢◌, ◌⊎◌, inl, inr, refl, List, ◌++◌, Option, none, some, Bool-cases, ltb→lt,
  ltb→le, false, length, ltb, ◌||◌, All, arith,
}
use mcbenchmark.Prelude.Int.{pos}
use mcbenchmark.Prelude.Word.{i32, u32-i32, i32-IsI32}
use mcbenchmark.Compression.{Compression}
use mcbenchmark.Wire.Reading.{
  ok, err, needs_schema, run, Reads, Reads-bind, Reads-last, Reads-pure, run-Reads,
}
use mcbenchmark.Wire.VarInt.RoundTrip.{var_int-Reads, var_long-Reads}
use mcbenchmark.Wire.Fixed.RoundTrip.{string-Reads, count-Reads}
use mcbenchmark.Trace.Model.{
  Trace, TraceEvent, IsTrace, IsTraceEvent, IsSized, IsPlaced, latest_schema,
}
use mcbenchmark.Trace.Origins.{
  origin_refused, inventory_refused, origin-cases, write_origin, write_inventory, read_origin,
  read_trace_inventory, origin-Reads, trace_inventory-Reads,
}
use mcbenchmark.Trace.Events.{put_events, events-Reads}
use mcbenchmark.Trace.File.{
  magic, put_fields, put_event_list, trace_body, read_event_list, read_of_schema, read_body,
  write_trace, read_trace,
}

event_list-Reads :
    (es : List TraceEvent)
    → All IsTraceEvent es
    → Reads (read_event_list (pos (length es))) (put_events (pos 0) es) es
unfolding read_event_list
event_list-Reads es h = events-Reads es (pos 0) (omega arith) h

known_schema : (s : ℕ) → 1 ≤ s → s ≤ latest_schema → (ltb s 1 || ltb latest_schema s) ≡ false
known_schema s h k = ground arith

module _ (t : Trace) (h : IsTrace t) (o i : List ℕ)
    (ro : Reads (read_origin t.schema_version) o t.origin)
    (ri : Reads (read_trace_inventory t.schema_version) i t.inventory) where
  body-Reads : Reads read_body (put_fields t o i) t
  unfolding read_body put_fields put_event_list read_of_schema
  body-Reads = Reads-bind _ (var_int-Reads (i32 t.schema_version) (i32-IsI32 t.schema_version)) (
      rw
        (
          u32-i32 t.schema_version (omega (arith, h.schema_to)),
          known_schema t.schema_version h.schema_from h.schema_to,
        )
        (Reads-bind _ (var_int-Reads (i32 t.protocol_version) (i32-IsI32 t.protocol_version)) (
          rw (u32-i32 t.protocol_version h.protocol_fits) (
            Reads-bind _ (string-Reads t.world_profile_id h.profile_fits) (
              Reads-bind _ (string-Reads t.trace_id h.id_fits) (
                Reads-bind _ (var_long-Reads t.duration_us h.duration_fits) (
                  Reads-bind _ ro (
                    Reads-bind _ ri (
                      Reads-bind _ (count-Reads (length t.events) h.count_fits)
                        (Reads-last _ (event_list-Reads t.events h.events_fit) Reads-pure))))))))))

  body_written :
      (write_origin t.schema_version t.origin ≡ ok o)
      → (write_inventory t.schema_version t.inventory ≡ ok i)
      → trace_body t ≡ ok (put_fields t o i)
  unfolding trace_body
  body_written eo ei = rw (eo, ei)

-- `Write` has a body for the trace, and the decoder reads it back.
trace_body-Reads :
    (t : Trace)
    → IsTrace t
    → (body : List ℕ) × (trace_body t ≡ ok body) × (run read_body body ≡ ok t)
trace_body-Reads t h =
    let (o, eo, ro) = origin-Reads t.schema_version t.origin h.origin_fits h.no_origin in
    let (i, ei, ri) =
      trace_inventory-Reads t.schema_version t.inventory h.inventory_fits h.no_inventory in
    (put_fields t o i, body_written t h o i ro ri eo ei, run-Reads (body-Reads t h o i ro ri))

sized : (t : Trace) → IsSized t → IsPlaced t → IsTrace t
sized t h placed = record {
  schema_from = h.schema_from;
  schema_to = h.schema_to;
  protocol_fits = h.protocol_fits;
  profile_fits = h.profile_fits;
  id_fits = h.id_fits;
  duration_fits = h.duration_fits;
  origin_fits = h.origin_fits;
  inventory_fits = h.inventory_fits;
  count_fits = h.count_fits;
  events_fit = h.events_fit;
  no_origin = placed.0;
  no_inventory = placed.1;
}

-- Something is given below the schema that has a place for it.
abbrev IsMisplaced : Trace → Type 0
IsMisplaced t =
    (t.schema_version < 2) × (t.origin ≢ none) ⊎ (t.schema_version < 3) × (t.inventory ≢ none)

misplaced_contra : (t : Trace) → IsMisplaced t → ¬ IsPlaced t
misplaced_contra t (inl (early, given)) placed = given (placed.0 early)
misplaced_contra t (inr (early, given)) placed = given (placed.1 early)

-- Either below the version with something given, or in its place.
below_or_none {ℓ} :
    {A : Type ℓ} (version schema : ℕ) (o : Option A)
    → ((schema < version → o ≡ none)) ⊎ ((schema < version) × (o ≢ none))
below_or_none version schema none = inl (λ h. refl)
below_or_none version schema (some a) = elim (Bool-cases (ltb schema version)) [
  | inl early ↦ inr (ltb→lt schema version early, λ e. cc e)
  | inr late ↦ inl (λ h. absurd (omega (arith, h, ltb→le schema version late)))
]

IsPlaced-or_not : (t : Trace) → IsPlaced t ⊎ IsMisplaced t
IsPlaced-or_not t = elim (below_or_none 2 t.schema_version t.origin) [
  | inr misplaced ↦ inr (inl misplaced)
  | inl origin ↦ elim (below_or_none 3 t.schema_version t.inventory) [
    | inr misplaced ↦ inr (inr misplaced)
    | inl inventory ↦ inl (origin, inventory)
  ]
]

long_enough : (c : List ℕ) → ltb (length (magic ++ c)) 4 ≡ false
long_enough c = ground arith

module _ (lz4 : Compression) where
  -- A representable trace is written, and the file is read back as that trace.
  pub read_trace-write_trace :
      (t : Trace)
      → IsTrace t
      → (file : List ℕ) × (write_trace lz4 t ≡ ok file) × (read_trace lz4 file ≡ ok t)
  unfolding write_trace read_trace
  read_trace-write_trace t h =
      let (body, eb, rb) = trace_body-Reads t h in
      let (c, ec, dc) = lz4.inverse body in (magic ++ c, rw (eb, ec), rw (long_enough c, dc) rb)

  -- An origin below schema 2, or an inventory below schema 3, is refused and nothing is written.
  write_trace_misplaced :
      (t : Trace)
      → (t.schema_version < 2) × (t.origin ≢ none) ⊎ (t.schema_version < 3) × (t.inventory ≢ none)
      → write_trace lz4 t ≡ err needs_schema
  unfolding write_trace trace_body
  write_trace_misplaced t (inl (early, given)) = rw (origin_refused _ t.origin early given)
  write_trace_misplaced t (inr (early, given)) = elim (origin-cases t.schema_version t.origin) [
    | inl (o, eo) ↦ rw (eo, inventory_refused _ t.inventory early given)
    | inr refused ↦ rw refused
  ]

  -- A trace whose fields fit their widths, under a known schema, is never written with a loss: either
  -- the schema has a place for what the trace has, and the file is read back as that trace, or it has
  -- an origin below schema 2 or an inventory below schema 3, and is refused.
  pub write_trace_lossless :
      (t : Trace)
      → IsSized t
      → (IsPlaced t
          × (file : List ℕ) × (write_trace lz4 t ≡ ok file)
          × (read_trace lz4 file ≡ ok t))
        ⊎ (¬ IsPlaced t × (write_trace lz4 t ≡ err needs_schema))
  write_trace_lossless t h = elim (IsPlaced-or_not t) [
    | inl placed ↦
        let (file, written, back) = read_trace-write_trace t (sized t h placed) in
        inl (placed, file, written, back)
    | inr misplaced ↦ inr (misplaced_contra t misplaced, write_trace_misplaced t misplaced)
  ]
