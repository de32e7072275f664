-- ===== src/Compile/Run/Whole.antt =====
-- What `Run` leaves behind: each session counted once, and each trace that of a whole session.
use mcbenchmark.Prelude.{
  ℕ, zero, suc, ◌+◌, ◌≡◌, ◌≤◌, refl, sym, ◌∙◌, ap, inl, inr, List, [], ◌∷◌, length, length-append,
  none, Option-cases, arith,
}
use mcbenchmark.Compression.{Compression}
use mcbenchmark.Float.{Floats}
use mcbenchmark.Event.{RawEvent}
use mcbenchmark.Trace.File.{write_trace}
use mcbenchmark.Wire.Reading.{ok}
use mcbenchmark.Compile.Sessions.{SessionKey, Sessions, group_from}
use mcbenchmark.Compile.Session.{Options, sort_events, cut_events, trace_of, compile_session}
use mcbenchmark.Compile.Spill.Load.{in_bucket}
use mcbenchmark.Compile.Run.{
  RunOptions, ManifestEntry, session_options, Output, nothing_yet, bucket_count, trace_id_of,
  keep_one, add_session, add_sessions, add_bucket, Compiled, finish,
}
use mcbenchmark.Compile.Run.Listed.{ordered, listed, AreSessions, listed-AreSessions}
use mcbenchmark.Prelude.Int.{ℤ, pos, negsuc}
use mcbenchmark.Prelude.{◌<◌, length-append}
use mcbenchmark.Compile.Run.InMemory.{pass_in_memory, compile_in_memory}
use mcbenchmark.Compile.Run.Made.{
  then-ok, ok_eq, Made, Grows, Grows-nil, Grows-append, keep_one-Grows, drop_one-Grows,
}

pub bucket_count-positive : (n : ℤ) → 0 < bucket_count n
unfolding bucket_count
bucket_count-positive (pos zero) = omega arith
bucket_count-positive (pos (suc n)) = omega arith
bucket_count-positive (negsuc n) = omega arith

-- A session without events gives no trace.
pub compile_session-nil :
    (floats : Floats) (o : Options) (name : List ℕ) → compile_session floats o name [] ≡ none
unfolding compile_session sort_events cut_events trace_of
compile_session-nil floats o name = ground arith

module _ (floats : Floats) (lz4 : Compression) (o : RunOptions) where
  -- The sessions counted rest in a session, and grow by those of a bucket before them.
  abbrev Added : Sessions → Output → Output → Type 0
  Added ss out out' = Grows floats lz4 o ss out out' × (out'.session_count ≡ out.session_count)

  add_session-Added :
      (out out' : Output) (k : SessionKey) (s : List RawEvent)
      → add_session floats lz4 o out (k, s) ≡ ok out'
      → Added ((k, s) ∷ []) out out'
  unfolding add_session
  add_session-Added out out' k s e =
      let name = trace_id_of o.run_id (out.trace_num + 1) in
      elim (Option-cases (compile_session floats (session_options o) name s)) [
        | inl gone ↦
            rw (sym (ok_eq (rw (add_session, gone) at e)))
              (drop_one-Grows floats lz4 o out k s gone, refl)
        | inr (t, found) ↦
            let (bytes, w, q) =
              then-ok (write_trace lz4 t) (λ b. ok (keep_one k t b out)) out'
                (rw (add_session, found) at e) in
            rw (sym (ok_eq q))
              (keep_one-Grows floats lz4 o out k s t bytes found w, unfold keep_one in refl)
      ]

  add_sessions-Added :
      (ss : Sessions) (out out' : Output)
      → add_sessions floats lz4 o out ss ≡ ok out'
      → Added ss out out'
  unfolding add_sessions
  add_sessions-Added [] out out' e = rw (sym (ok_eq e)) (Grows-nil floats lz4 o out, refl)
  add_sessions-Added ((k, s) ∷ ss) out out' e =
      let (mid, first, rest) = then-ok (add_session floats lz4 o out (k, s)) _ out' e in
      let (g, c) = add_session-Added out mid k s first in
      let (h, d) = add_sessions-Added ss mid out' rest in (Grows-append floats lz4 o g h, d ∙ c)

  -- Over whole buckets, the sessions counted grow by those of the list.
  abbrev Passed : Sessions → Output → Output → Type 0
  Passed ss out out' =
      Grows floats lz4 o ss out out' × (out'.session_count ≡ out.session_count + length ss)

  add_bucket-Passed :
      (buckets i : ℕ) (es : List RawEvent) (out out' : Output)
      → add_bucket floats lz4 o out (group_from [] (in_bucket buckets i es)) ≡ ok out'
      → Passed (ordered buckets es i) out out'
  unfolding add_bucket ordered
  add_bucket-Passed buckets i es out out' e =
      let (g, c) = add_sessions-Added (ordered buckets es i) _ out' e in
      (
        record {
          files = g.files;
          entries = g.entries;
          made = g.made;
          more_files = g.more_files;
          more_entries = g.more_entries;
          numbered = g.numbered;
          counted = g.counted;
          lines = g.lines;
        },
        c,
      )

  pass_in_memory-Passed :
      (buckets left i : ℕ) (es : List RawEvent) (out out' : Output)
      → pass_in_memory floats lz4 o buckets left i es out ≡ ok out'
      → Passed (listed buckets es left i) out out'
  unfolding pass_in_memory listed
  pass_in_memory-Passed buckets zero i es out out' e =
      rw (sym (ok_eq e)) (Grows-nil floats lz4 o out, omega arith)
  pass_in_memory-Passed buckets (suc left) i es out out' e =
      let (mid, first, rest) =
        then-ok (add_bucket floats lz4 o out (group_from [] (in_bucket buckets i es))) _ out' e in
      let (g, c) = add_bucket-Passed buckets i es out mid first in
      let (h, d) = pass_in_memory-Passed buckets left (i + 1) es mid out' rest in
      (
        Grows-append floats lz4 o g h,
        omega (arith, c, d, length-append (ordered buckets es i) (listed buckets es left (i + 1))),
      )

  -- What a compile of the events leaves: the sessions of the capture, each of them once, are counted;
  -- the files and the lines of the manifest are those that they make in turn from the number 1 on; at
  -- least one trace is made, and the sessions that make none are counted as dropped.
  pub record IsCompiled (es : List RawEvent) (c : Compiled floats lz4 o) : Type 0 where
    pub sessions : Sessions
    pub all_sessions : AreSessions es sessions
    pub made : Made floats lz4 o 1 sessions c.0 c.1.traces
    pub sessions_counted : c.2.sessions ≡ length sessions
    pub traces_counted : c.2.traces ≡ length c.0
    pub dropped_counted : c.2.traces + c.2.dropped ≡ c.2.sessions
    pub events_counted : c.2.raw_events ≡ length es
    pub not_empty : 1 ≤ c.2.traces

  finish-IsCompiled :
      (buckets : ℕ) (es : List RawEvent) (out : Output) (c : Compiled floats lz4 o)
      → 0 < buckets
      → Passed (listed buckets es buckets 0) nothing_yet out
      → finish floats lz4 o (length es) out ≡ ok c
      → IsCompiled es c
  unfolding finish
  finish-IsCompiled buckets es out c positive (g, n) e = go out.entries refl
    where
      go : (xs : List ManifestEntry) → out.entries ≡ xs → IsCompiled es c
      go [] q = absurd (cc (rw q at e))
      go (x ∷ xs) q = rw (sym (ok_eq (rw q at e))) (record {
        sessions = listed buckets es buckets 0;
        all_sessions = listed-AreSessions buckets es positive;
        made = rw (g.more_files, sym q ∙ g.more_entries) g.made;
        sessions_counted = omega (arith, n);
        traces_counted =
            omega (arith, g.lines, ap length q, ap length g.more_files, ap length g.more_entries);
        dropped_counted =
            omega (arith, g.lines, g.counted, n, ap length q, ap length g.more_entries);
        events_counted = refl;
        not_empty = omega arith;
      })

  pub compile_in_memory-IsCompiled :
      (es : List RawEvent) (c : Compiled floats lz4 o)
      → compile_in_memory floats lz4 o es ≡ ok c
      → IsCompiled es c
  unfolding compile_in_memory
  compile_in_memory-IsCompiled es c e =
      let buckets = bucket_count o.buckets in
      let (out, passed, finished) =
        then-ok (pass_in_memory floats lz4 o buckets buckets 0 es nothing_yet) _ c e in
      finish-IsCompiled buckets es out c (bucket_count-positive o.buckets)
        (pass_in_memory-Passed buckets buckets 0 es nothing_yet out passed) finished
