-- ===== src/Amplify/Schedule.antt =====
-- The schedule of an amplified trace: sorted, from 0 to the duration, with every event of the source.
use mcbenchmark.Prelude.{
  ℕ, ◌≡◌, refl, ap, inl, inr, List, [], ◌∷◌, map, All, Bool-cases, ltb→le, arith,
}
use mathlib.Core.List.{Perm}
use mathlib.Core.List.Perm
use mcbenchmark.Prelude.Int.{ℤ, pos, ltb_ℤ, ◌≤ℤ◌}
use mcbenchmark.Prelude.Word.{add_i64, i32, u32}
use mcbenchmark.Prelude.Sort.{sort_by, IsSortedBy, sort_by-All, sort_by-IsSortedBy, sort_by-perm}
use mcbenchmark.Trace.Model.{Trace, TraceEvent}
use mcbenchmark.Amplify.Numbers.{upto, span}
use mcbenchmark.Amplify.{
  Options, not_negative, amplify_event, amplify_events, duration_of, amplify_trace,
}

abbrev pub offset : TraceEvent → ℤ
offset e = e.offset_us

not_negative-le : (off : ℤ) → pos 0 ≤ℤ not_negative off
unfolding not_negative
not_negative-le off = ground arith

amplify_events-All :
    (delay dx dz : ℤ) (o : Options) (es : List TraceEvent) (rng : ℕ)
    → All (λ e. pos 0 ≤ℤ e.offset_us) (amplify_events delay dx dz o es rng).0
unfolding amplify_events amplify_event
amplify_events-All delay dx dz o [] rng = tt
amplify_events-All delay dx dz o (e ∷ es) rng = (
  not_negative-le (add_i64 (add_i64 e.offset_us delay) (span o.event_jitter_us rng).0),
  amplify_events-All delay dx dz o es _,
)

-- The kinds of the events, in order.
abbrev pub kinds : List TraceEvent → List ℤ
kinds es = map (λ e. e.kind) es

amplify_events-kinds :
    (delay dx dz : ℤ) (o : Options) (es : List TraceEvent) (rng : ℕ)
    → kinds (amplify_events delay dx dz o es rng).0 ≡ kinds es
unfolding amplify_events amplify_event
amplify_events-kinds delay dx dz o [] rng = refl
amplify_events-kinds delay dx dz o (e ∷ es) rng =
    ap (λ ks. e.kind ∷ ks) (amplify_events-kinds delay dx dz o es _)

within :
    (d : ℤ) (es : List TraceEvent)
    → IsSortedBy offset es
    → All (λ e. e.offset_us ≤ℤ duration_of d es) es
unfolding duration_of
within d [] h = tt
within d (e ∷ []) h = elim (Bool-cases (ltb_ℤ d e.offset_us)) [
  | inl later ↦ rw later (omega arith, tt)
  | inr other ↦ rw other (ltb→le _ _ other, tt)
]
within d (e ∷ x ∷ xs) h = let rest = within d (x ∷ xs) h.1 in (omega (arith, h.0.0, rest.0), rest)

abbrev pub amplified : Trace → List ℕ → Options → ℕ → Trace
amplified src trace_id o rng = (amplify_trace src trace_id o rng).0

-- The events of the copy before they are sorted.
abbrev copied : Trace → Options → ℕ → List TraceEvent
copied src o rng =
    let (delay, rng_1) = upto o.start_jitter_us rng in
    let (dx, rng_2) = span o.space_spread rng_1 in
    let (dz, rng_3) = span o.space_spread rng_2 in
    (amplify_events delay (i32 (u32 dx)) (i32 (u32 dz)) o src.events rng_3).0

-- Whatever was drawn, the offsets of an amplified trace do not decrease, none is negative, and none is
-- above its duration.
pub amplify_trace-schedule :
    (src : Trace) (trace_id : List ℕ) (o : Options) (rng : ℕ)
    → IsSortedBy offset (amplified src trace_id o rng).events
      × All (λ e. pos 0 ≤ℤ e.offset_us) (amplified src trace_id o rng).events
      × All
          (λ e. e.offset_us ≤ℤ (amplified src trace_id o rng).duration_us)
          (amplified src trace_id o rng).events
unfolding amplify_trace
amplify_trace-schedule src trace_id o rng = (
  sort_by-IsSortedBy offset (copied src o rng),
  sort_by-All offset (λ e. pos 0 ≤ℤ e.offset_us) (copied src o rng)
      (amplify_events-All _ _ _ o src.events _),
  within _ (sort_by offset (copied src o rng)) (sort_by-IsSortedBy offset (copied src o rng)),
)

-- Whatever was drawn, an amplified trace has the events of its source, kind by kind.
pub amplify_trace-kinds :
    (src : Trace) (trace_id : List ℕ) (o : Options) (rng : ℕ)
    → Perm (kinds (amplified src trace_id o rng).events) (kinds src.events)
unfolding amplify_trace
amplify_trace-kinds src trace_id o rng =
    rw (amplify_events-kinds _ _ _ o src.events _) at
      (Perm.map (λ e. e.kind) (sort_by-perm offset (copied src o rng)))
