-- ===== src/Compile/Run/InMemory.antt =====
-- `Run` against a compiler without files: grouping the events of the capture in memory gives the same
-- result, so that neither the logs, with a frame cut short, nor the buckets between the passes matter.
use mcbenchmark.Prelude.{
  ℕ, zero, suc, ◌+◌, ◌≡◌, refl, ◌∙◌, ap, List, [], ◌∷◌, length, none, map, All, append-All, false,
  bytes_eq, arith,
}
use mcbenchmark.Compression.{Compression}
use mcbenchmark.Float.{Floats}
use mcbenchmark.Event.{RawEvent}
use mcbenchmark.Wire.Reading.{Result, ok, err}
use mcbenchmark.Wire.Outcome.{◌>>=◌ as ◌then◌}
use mcbenchmark.CaptureLog.Frames.{IsLogged}
use mcbenchmark.CaptureLog.Loop.{Flush, IsFlush, logged_events}
use mcbenchmark.CaptureLog.Directory.{
  LogFile, whole, broken, content, kept_events, all_kept, IsLogFile, consume, stream_dir-kept,
}
use mcbenchmark.Compile.Sessions.{group_from}
use mcbenchmark.Compile.Spill.{BucketFiles, spill, spill_all}
use mcbenchmark.Compile.Spill.Load.{in_bucket, no_files, load_bucket-spill_all}
use mcbenchmark.Compile.Run.{
  RunOptions, Output, nothing_yet, bucket_count, spill_one, add_bucket, second_pass, Compiled,
  finish, second_half, run,
}

then-cong {ℓ κ} :
    {A : Type ℓ} {B : Type κ} (r : Result A) {f g : A → Result B}
    → ((a : A) → f a ≡ g a)
    → ◌then◌ r f ≡ ◌then◌ r g
then-cong (ok a) h = h a
then-cong (err e) h = refl

logged_events-IsLogged :
    (zlib : Compression) (fs : List Flush) → All (IsFlush zlib) fs → All IsLogged (logged_events fs)
unfolding logged_events
logged_events-IsLogged zlib [] h = tt
logged_events-IsLogged zlib (f ∷ fs) h =
    append-All IsLogged f.events _ h.0.events_fit (logged_events-IsLogged zlib fs h.1)

kept_events-IsLogged :
    (zlib : Compression) (f : LogFile) → IsLogFile zlib f → All IsLogged (kept_events f)
unfolding kept_events
kept_events-IsLogged zlib (whole fs) h = logged_events-IsLogged zlib fs h
kept_events-IsLogged zlib (broken fs body front back) h = logged_events-IsLogged zlib fs h.0

pub all_kept-IsLogged :
    (zlib : Compression) (fs : List LogFile) → All (IsLogFile zlib) fs → All IsLogged (all_kept fs)
unfolding all_kept
all_kept-IsLogged zlib [] h = tt
all_kept-IsLogged zlib (f ∷ fs) h =
    append-All IsLogged (kept_events f) _ (kept_events-IsLogged zlib f h.0)
      (all_kept-IsLogged zlib fs h.1)

consume-spill_one :
    (zlib : Compression) (buckets : ℕ) (files : BucketFiles) (total : ℕ) (es : List RawEvent)
    → consume zlib (spill_one buckets) (files, total) es
      ≡ (spill_all buckets files es, total + length es)
unfolding consume spill_one spill_all
consume-spill_one zlib buckets files total [] = ap (λ n. (files, n)) (omega arith)
consume-spill_one zlib buckets files total (e ∷ es) =
    consume-spill_one zlib buckets (spill buckets files e) (total + 1) es
    ∙ ap (λ n. (spill_all buckets (spill buckets files e) es, n)) (omega arith)

module _ (floats : Floats) (lz4 : Compression) (o : RunOptions) where
  -- The second pass over the buckets of `es`, which it groups straight from the list.
  unfoldable pub pass_in_memory : ℕ → ℕ → ℕ → List RawEvent → Output → Result Output
  pass_in_memory buckets zero i es out = ok out
  pass_in_memory buckets (suc left) i es out =
      ◌then◌ (add_bucket floats lz4 o out (group_from [] (in_bucket buckets i es)))
        λ out'. pass_in_memory buckets left (i + 1) es out'

  second_pass-in_memory :
      (buckets left i : ℕ) (es : List RawEvent) (out : Output)
      → All IsLogged es
      → second_pass floats lz4 o left i (spill_all buckets no_files es) out
        ≡ pass_in_memory buckets left i es out
  unfolding second_pass pass_in_memory
  second_pass-in_memory buckets zero i es out h = refl
  second_pass-in_memory buckets (suc left) i es out h = rw (load_bucket-spill_all buckets i es h) (
      then-cong (add_bucket floats lz4 o out (group_from [] (in_bucket buckets i es)))
        (λ out'. second_pass-in_memory buckets left (i + 1) es out' h))

  -- The whole of it, on the events of a capture.
  unfoldable pub compile_in_memory : List RawEvent → Result (Compiled floats lz4 o)
  unfolding pass_in_memory
  compile_in_memory es =
      let buckets = bucket_count o.buckets in
      ◌then◌ (pass_in_memory buckets buckets 0 es nothing_yet) (finish floats lz4 o (length es))

  -- With an input and an output named, and capture files that hold whole frames and at most the front
  -- of one more each, `Run` returns what the compiler in memory makes of the events of the whole
  -- frames: reading the logs and spilling into buckets neither fails nor changes anything.
  pub run-compile_in_memory :
      (zlib : Compression) (f : LogFile) (fs : List LogFile)
      → bytes_eq o.input [] ≡ false
      → bytes_eq o.output [] ≡ false
      → All (IsLogFile zlib) (f ∷ fs)
      → run floats lz4 o zlib (map content (f ∷ fs)) ≡ compile_in_memory (all_kept (f ∷ fs))
  unfolding run second_half compile_in_memory
  run-compile_in_memory zlib f fs hi ho h =
      let buckets = bucket_count o.buckets in
      let es = all_kept (f ∷ fs) in
      rw (hi, ho)
        (ap (second_half floats lz4 o) (
            stream_dir-kept zlib (spill_one buckets) f fs (no_files, 0) h
            ∙ ap (λ s. (s, none)) (consume-spill_one zlib buckets no_files 0 es)
            ∙ ap (λ n. ((spill_all buckets no_files es, n), none)) (omega arith))
          ∙ ap (λ r. ◌then◌ r (finish floats lz4 o (length es)))
              (second_pass-in_memory buckets buckets 0 es nothing_yet
                (all_kept-IsLogged zlib (f ∷ fs) h)))
