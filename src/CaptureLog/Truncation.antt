-- ===== src/CaptureLog/Truncation.antt =====
-- A log that ends inside a frame still gives every event of its whole frames.
use mcbenchmark.Prelude.{
  ℕ, zero, suc, ◌≤◌, ◌≡◌, ◌≢◌, refl, sym, ◌∙◌, ap, List, [], ◌∷◌, ◌++◌, none, some, length, All,
  append-nil, arith,
}
use mcbenchmark.Compression.{Compression}
use mcbenchmark.Wire.Reading.{err, truncated}
use mcbenchmark.Event.{RawEvent}
use mcbenchmark.CaptureLog.{Outcome, and_then, put_frame, next_frame, stream_loop, stream}
use mcbenchmark.CaptureLog.Frames.{IsBody, next_frame-cut}
use mcbenchmark.CaptureLog.Loop.{
  Flush, IsFlush, put_log, logged_events, deliver, and_then-cong, stream-put_log,
}

module _ {ℓ} {S : Type ℓ} where
  abbrev done : S → Outcome S
  done s = (s, none)

  and_then-done : (o : Outcome S) → and_then o done ≡ o
  and_then-done (s, none) = refl
  and_then-done (s, some e) = refl

module _ {ℓ} (zlib : Compression) {S : Type ℓ} (fn : S → RawEvent → Outcome S) where
  stream_loop-nil : (k : ℕ) (s : S) → stream_loop zlib fn k s [] ≡ (s, none)
  unfolding stream_loop
  stream_loop-nil zero s = refl
  stream_loop-nil (suc k) s = refl

  -- A log of whole frames is delivered event by event, and the stream ends without an error unless
  -- the callback made one.
  pub stream-whole :
      (fs : List Flush) (s : S)
      → All (IsFlush zlib) fs
      → stream zlib fn s (put_log fs) ≡ deliver fn s (logged_events fs)
  stream-whole fs s h =
      let (k, enough, e) = stream-put_log zlib fn fs s [] h in
      ap (stream zlib fn s) (sym (append-nil (put_log fs)))
      ∙ e
      ∙ and_then-cong (deliver fn s (logged_events fs)) (stream_loop-nil k)
      ∙ and_then-done _

  stream_loop-cut :
      (k : ℕ) (s : S) (front : List ℕ)
      → front ≢ []
      → next_frame front ≡ err truncated
      → length front ≤ k
      → stream_loop zlib fn k s front ≡ (s, some truncated)
  unfolding stream_loop
  stream_loop-cut k s [] ne h hk = absurd (ne refl)
  stream_loop-cut zero s (b ∷ bs) ne h hk = absurd (omega arith)
  stream_loop-cut (suc k) s (b ∷ bs) ne h hk = rw (h, stream_loop)

  -- A log that breaks off inside a frame, anywhere behind the first byte of it: the events of the
  -- whole frames before it are delivered, and then `ErrTruncated` is reported.
  pub stream-truncated :
      (fs : List Flush) (s : S) (body front back : List ℕ)
      → All (IsFlush zlib) fs
      → IsBody body
      → put_frame body ≡ front ++ back
      → front ≢ []
      → back ≢ []
      → stream zlib fn s (put_log fs ++ front)
        ≡ and_then (deliver fn s (logged_events fs)) (λ s'. (s', some truncated))
  stream-truncated fs s body front back h hb e nf nb =
      let (k, enough, es) = stream-put_log zlib fn fs s front h in
      es
      ∙ and_then-cong (deliver fn s (logged_events fs))
          (λ s'. stream_loop-cut k s' front nf (next_frame-cut body front back hb e nb) enough)
