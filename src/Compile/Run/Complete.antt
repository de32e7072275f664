-- ===== src/Compile/Run/Complete.antt =====
-- What `Run` returns on the capture files of a server, whichever sessions they hold.
use mcbenchmark.Prelude.{
  ℕ, zero, suc, ◌+◌, ◌%◌, ◌≤◌, ◌<◌, ◌≡◌, refl, sym, ◌∙◌, ◌⊎◌, inl, inr, List, [], ◌∷◌, length, none,
  Option-cases, All, Bool-cases, map, bytes_eq, false, ◌==◌, ==_iff, arith,
}
use native.Mathlib.Nat.{mod-lt}
use mcbenchmark.Prelude.Sort.{sort_by, sort_by_back}
use mcbenchmark.Compression.{Compression}
use mcbenchmark.Float.{Floats}
use mcbenchmark.Event.{RawEvent}
use mcbenchmark.Wire.Reading.{ok, err, no_traces}
use mcbenchmark.Compile.Sessions.{
  SessionKey, Sessions, of_session, events_of, group_from, key_eq, events_of-group,
}
use mcbenchmark.Compile.Session.{first_time, compile_session}
use mcbenchmark.Compile.Spill.{bucket_of}
use mcbenchmark.Compile.Spill.Load.{in_bucket, of_session-in_bucket}
use mcbenchmark.Compile.Run.{
  RunOptions, session_options, Output, nothing_yet, bucket_count, trace_id_of, drop_one, keep_one,
  add_session, add_sessions, add_bucket, manifest_of, summary_of, Compiled, finish, run,
}
use mcbenchmark.Compile.Run.InMemory.{pass_in_memory, compile_in_memory, run-compile_in_memory}
use mcbenchmark.Compile.Run.Whole.{
  compile_session-nil, bucket_count-positive, IsCompiled, compile_in_memory-IsCompiled,
}
use mcbenchmark.CaptureLog.Directory.{LogFile, content, all_kept, IsLogFile}
use mcbenchmark.Compile.Run.Writable.{
  not_nil, List-cases, compile_session-written, compile_session-none,
}

module _ (floats : Floats) (lz4 : Compression) (o : RunOptions) where
  -- The session gives no trace, under any name.
  abbrev pub IsDropped : List RawEvent → Type 0
  IsDropped s = (name : List ℕ) → compile_session floats (session_options o) name s ≡ none

  events_of-IsDropped :
      (k : SessionKey) (ss : Sessions) → All (λ s. IsDropped s.1) ss → IsDropped (events_of k ss)
  unfolding events_of
  events_of-IsDropped k [] h = compile_session-nil floats (session_options o)
  events_of-IsDropped k ((j, s) ∷ ss) h = elim (Bool-cases (key_eq j k)) [
    | inl same ↦ rw same h.0
    | inr other ↦ rw other (events_of-IsDropped k ss h.1)
  ]

  add_session-total :
      (out : Output) (k : SessionKey) (s : List RawEvent)
      → (out' : Output) × (add_session floats lz4 o out (k, s) ≡ ok out')
        × (out'.entries ≡ [] → IsDropped s × (out.entries ≡ []))
  unfolding add_session keep_one
  add_session-total out k s =
      let so = session_options o in
      let name = trace_id_of o.run_id (out.trace_num + 1) in
      elim (Option-cases (compile_session floats so name s)) [
        | inl gone ↦ (
          drop_one out,
          rw (add_session, gone) refl,
          λ e. ((λ other. compile_session-none floats lz4 so name other s gone), e),
        )
        | inr (t, kept) ↦
            let (bytes, w) = compile_session-written floats lz4 so name s t kept in
            (
              keep_one k t bytes out,
              rw (add_session, kept, w) refl,
              λ e. absurd (not_nil out.entries _ e),
            )
      ]

  add_sessions-total :
      (ss : Sessions) (out : Output)
      → (out' : Output) × (add_sessions floats lz4 o out ss ≡ ok out')
        × (out'.entries ≡ [] → All (λ s. IsDropped s.1) ss × (out.entries ≡ []))
  unfolding add_sessions
  add_sessions-total [] out = (out, refl, λ e. (tt, e))
  add_sessions-total ((k, s) ∷ ss) out =
      let (mid, first, none_first) = add_session-total out k s in
      let (out', rest, none_rest) = add_sessions-total ss mid in
      (
        out',
        rw first rest,
        λ e.
            let (others, m) = none_rest e in
            let (this, empty) = none_first m in ((this, others), empty),
      )

  add_bucket-total :
      (ss : Sessions) (out : Output)
      → (out' : Output) × (add_bucket floats lz4 o out ss ≡ ok out')
        × (out'.entries ≡ [] → All (λ s. IsDropped s.1) ss × (out.entries ≡ []))
  unfolding add_bucket
  add_bucket-total ss out =
      let (out', e, h) = add_sessions-total (sort_by (λ s. first_time s.1) ss) _ in
      (
        out',
        e,
        λ nil.
            let (gone, empty) = h nil in
            (sort_by_back (λ s. first_time s.1) (λ s. IsDropped s.1) ss gone, empty),
      )

  -- The sessions of a bucket of the pass are dropped, with all their events.
  bucket-IsDropped :
      (buckets i : ℕ) (es : List RawEvent) (k : SessionKey)
      → All (λ s. IsDropped s.1) (group_from [] (in_bucket buckets i es))
      → bucket_of k % buckets ≡ i
      → IsDropped (of_session k es)
  bucket-IsDropped buckets i es k h e =
      let whole : events_of k (group_from [] (in_bucket buckets i es)) ≡ of_session k es =
        events_of-group k (in_bucket buckets i es)
        ∙ of_session-in_bucket buckets i k es
        ∙ rw ((==_iff i (bucket_of k % buckets)).1 (sym e)) refl in
      rw whole at (events_of-IsDropped k _ h)

  pass_in_memory-total :
      (buckets left i : ℕ) (es : List RawEvent) (out : Output)
      → (out' : Output) × (pass_in_memory floats lz4 o buckets left i es out ≡ ok out')
        × (out'.entries ≡ []
            → ((k : SessionKey)
                → i ≤ bucket_of k % buckets
                → bucket_of k % buckets < i + left
                → IsDropped (of_session k es))
              × (out.entries ≡ []))
  unfolding pass_in_memory
  pass_in_memory-total buckets zero i es out =
      (out, refl, λ e. ((λ k from to. absurd (omega arith)), e))
  pass_in_memory-total buckets (suc left) i es out =
      let (mid, first, none_first) =
        add_bucket-total (group_from [] (in_bucket buckets i es)) out in
      let (out', rest, none_rest) = pass_in_memory-total buckets left (i + 1) es mid in
      (
        out',
        rw first rest,
        λ e.
            let (others, m) = none_rest e in
            let (here, empty) = none_first m in
            (
              (λ k from to. elim (Bool-cases (bucket_of k % buckets == i)) [
                | inl this ↦ bucket-IsDropped buckets i es k here ((==_iff _ _).0 this)
                | inr other ↦ others k (ground (arith, other)) (omega (arith, to))
              ]),
              empty,
            ),
      )

  finish-total :
      (total : ℕ) (out : Output)
      → ((c : Compiled floats lz4 o) × (finish floats lz4 o total out ≡ ok c))
        ⊎ ((finish floats lz4 o total out ≡ err no_traces) × (out.entries ≡ []))
  unfolding finish
  finish-total total out = elim (List-cases out.entries) [
    | inl nil ↦ inr (rw nil refl, nil)
    | inr (e, es, more) ↦
        inl (
          (out.files, manifest_of floats lz4 o out, summary_of floats lz4 o total out),
          rw more refl,
        )
  ]

  -- The compiler returns traces, or fails because each session of the capture is dropped.
  compile_in_memory-total :
      (es : List RawEvent)
      → ((c : Compiled floats lz4 o) × (compile_in_memory floats lz4 o es ≡ ok c))
        ⊎ ((compile_in_memory floats lz4 o es ≡ err no_traces)
            × ((k : SessionKey) → IsDropped (of_session k es)))
  unfolding compile_in_memory
  compile_in_memory-total es =
      let buckets = bucket_count o.buckets in
      let (out, passed, none_kept) = pass_in_memory-total buckets buckets 0 es nothing_yet in
      elim (finish-total (length es) out) [
        | inl (c, e) ↦ inl (c, rw passed e)
        | inr (e, nil) ↦ inr (
          rw passed e,
          λ k.
              (none_kept nil).0 k (omega arith)
                (omega (arith, mod-lt (bucket_of k) (bucket_count-positive o.buckets))),
        )
      ]

-- On capture files of whole frames and at most the front of one more each, with an input and an
-- output named, `Run` returns a result or the error that there is no trace. Behind a result stands a list
-- of the sessions of the capture, with no key twice, a session for each key that an event has and for
-- no other, and each session with all its events; `Sessions` is its length. These sessions, taken in
-- turn, make the traces with the numbers from 1 on: each is either dropped, or has the next number,
-- the file of that number with its trace, and the next line of the manifest. There are no other
-- files and lines, at least one trace is made, the rest is counted as dropped, and every raw event
-- is counted. The error means that no session gives a trace.
pub run-IsCompiled :
    (floats : Floats) (lz4 : Compression) (o : RunOptions) (zlib : Compression) (f : LogFile)
    (fs : List LogFile)
    → bytes_eq o.input [] ≡ false
    → bytes_eq o.output [] ≡ false
    → All (IsLogFile zlib) (f ∷ fs)
    → ((c : Compiled floats lz4 o) × (run floats lz4 o zlib (map content (f ∷ fs)) ≡ ok c)
        × IsCompiled floats lz4 o (all_kept (f ∷ fs)) c)
      ⊎ ((run floats lz4 o zlib (map content (f ∷ fs)) ≡ err no_traces)
          × ((k : SessionKey) → IsDropped floats lz4 o (of_session k (all_kept (f ∷ fs)))))
run-IsCompiled floats lz4 o zlib f fs hi ho h =
    let es = all_kept (f ∷ fs) in
    let same = run-compile_in_memory floats lz4 o zlib f fs hi ho h in
    elim (compile_in_memory-total floats lz4 o es) [
      | inl (c, e) ↦ inl (c, same ∙ e, compile_in_memory-IsCompiled floats lz4 o es c e)
      | inr (e, gone) ↦ inr (same ∙ e, gone)
    ]
