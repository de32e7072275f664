-- ===== src/Compile/Session.antt =====
-- go/internal/compile/compile.go: the second pass on one session, from its events to its trace.
use mcbenchmark.Prelude.{
  ℕ, suc, ◌*◌, ◌-◌, ◌+◌, List, [], ◌∷◌, Option, none, some, Bool, ◌&&◌, if◌then◌else◌,
}
use mcbenchmark.Prelude.Int.{ℤ, pos, negsuc, ltb_ℤ, ◌==ℤ◌}
use mcbenchmark.Prelude.Word.{u64, i64, sub_i64}
use mcbenchmark.Prelude.Sort.{sort_by}
use mcbenchmark.Event.{RawEvent}
use mcbenchmark.Event.Kind
use mcbenchmark.Trace.Model.{Trace, TraceEvent, latest_schema}
use mcbenchmark.Float.{Floats}
use mcbenchmark.Compile.Origins.{resolve_origin, resolve_inventory}

-- The part of `Options` that the second pass reads; `ProtocolVersion` is `uint32(*protocol)`.
pub record Options : Type 0 where
  pub protocol : ℕ
  pub world_profile : List ℕ
  pub min_duration : ℤ
  pub max_duration : ℤ
  pub drop_chat : Bool

-- `int64(seconds) * 1_000_000`
unfoldable pub micros : ℤ → ℤ
unfolding i64 u64
micros (pos n) = i64 (n * 1000000)
micros (negsuc n) = i64 (u64 (negsuc (suc n * 1000000 - 1)))

-- `sort.SliceStable` by `TMicro`
unfoldable pub sort_events : List RawEvent → List RawEvent
unfolding sort_by
sort_events es = sort_by (λ e. e.t_micro) es

unfoldable pub first_time : List RawEvent → ℤ
first_time [] = pos 0
first_time (e ∷ es) = e.t_micro

unfoldable pub last_time : List RawEvent → ℤ
last_time [] = pos 0
last_time (e ∷ []) = e.t_micro
last_time (e ∷ x ∷ xs) = last_time (x ∷ xs)

-- `for _, e := range evs`, with its `break` and its `continue`
unfoldable pub cut_events : ℤ → ℤ → Bool → List RawEvent → List TraceEvent
cut_events base max_us drop_chat [] = []
cut_events base max_us drop_chat (e ∷ es) =
    let off = sub_i64 e.t_micro base in
    let rest = cut_events base max_us drop_chat es in
    let kept : TraceEvent = record { offset_us = off; kind = e.kind; content = e.payload } in
    if ltb_ℤ max_us off then [] else if drop_chat && e.kind ==ℤ Kind.cmd then rest else kept ∷ rest

-- `counts[k]` after the loop
unfoldable pub count_kind : ℤ → List TraceEvent → ℕ
count_kind k [] = 0
count_kind k (e ∷ es) = (if e.kind ==ℤ k then 1 else 0) + count_kind k es

unfoldable pub last_offset : List TraceEvent → ℤ
last_offset [] = pos 0
last_offset (e ∷ []) = e.offset_us
last_offset (e ∷ x ∷ xs) = last_offset (x ∷ xs)

module _ (floats : Floats) (o : Options) where
  -- The trace of a session, from its sorted events; `none` is `dropped++; continue`.
  -- `name` stands for the text that `fmt.Sprintf` makes of the run and the number of the trace.
  unfoldable pub trace_of : List ℕ → List RawEvent → List TraceEvent → Option Trace
  trace_of name evs [] = none
  trace_of name evs (t ∷ ts) = some (record {
    schema_version = latest_schema;
    protocol_version = o.protocol;
    world_profile_id = o.world_profile;
    trace_id = name;
    duration_us = last_offset (t ∷ ts);
    origin = resolve_origin floats evs;
    inventory = resolve_inventory evs;
    events = t ∷ ts;
  })

  unfoldable pub compile_session : List ℕ → List RawEvent → Option Trace
  unfolding sort_events first_time last_time cut_events trace_of last_offset micros
  compile_session name session =
      let evs = sort_events session in
      let base = first_time evs in
      if ltb_ℤ (sub_i64 (last_time evs) base) (micros o.min_duration)
      then none
      else trace_of name evs (cut_events base (micros o.max_duration) o.drop_chat evs)
