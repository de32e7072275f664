-- ===== src/CaptureLog/Loop.antt =====
-- Whole frames: the events of a log reach the callback in order, and nothing else does.
use native.Mathlib.Nat.{zero-add, suc-add}
use mcbenchmark.Prelude.{
  ℕ, zero, suc, ◌+◌, ◌-◌, ◌≤◌, ◌<◌, ◌≡◌, refl, sym, ◌∙◌, ap, List, [], ◌∷◌, ◌++◌, none, some,
  length, All, append_assoc, length-append, arith,
}
use mcbenchmark.Compression.{Compression}
use mcbenchmark.Wire.Reading.{ok, err, short, truncated, >>=-err}
use mcbenchmark.Wire.VarInt.{put_var_int, var_int}
use mcbenchmark.Wire.VarInt.RoundTrip.{length-put_var_int, var_int-nil}
use mcbenchmark.Event.{RawEvent, encode}
use mcbenchmark.CaptureLog.{
  Outcome, and_then, FrameHeader, put_event, put_payload, put_header, put_frame, next_event,
  next_frame, event_loop, read_frame, stream_loop, stream,
}
use mcbenchmark.CaptureLog.Frames.{
  IsLogged, IsHeader, IsBody, next_event-Reads, header-Reads, next_frame-Reads, length-put_frame,
}

module _ {ℓ} {S : Type ℓ} where
  pub and_then-cong :
      (o : Outcome S) {k k' : S → Outcome S} → ((s : S) → k s ≡ k' s) → and_then o k ≡ and_then o k'
  and_then-cong (s, none) h = h s
  and_then-cong (s, some e) h = refl

  pub and_then_assoc :
      (o : Outcome S) (k k' : S → Outcome S)
      → and_then (and_then o k) k' ≡ and_then o (λ s. and_then (k s) k')
  and_then_assoc (s, none) k k' = refl
  and_then_assoc (s, some e) k k' = refl

-- One flush of the writer: the header, the events, and the payload as it was compressed.
pub record Flush : Type 0 where
  pub header : FrameHeader
  pub events : List RawEvent
  pub compressed : List ℕ

unfoldable pub flush_body : Flush → List ℕ
flush_body f = put_header f.header ++ f.compressed

unfoldable pub put_log : List Flush → List ℕ
put_log [] = []
put_log (f ∷ fs) = put_frame (flush_body f) ++ put_log fs

unfoldable pub logged_events : List Flush → List RawEvent
logged_events [] = []
logged_events (f ∷ fs) = f.events ++ logged_events fs

pub record IsFlush (zlib : Compression) (f : Flush) : Type 0 where
  pub header_fits : IsHeader f.header
  pub events_fit : All IsLogged f.events
  pub packed : zlib.decompress f.compressed ≡ some (put_payload f.events)
  pub body_fits : IsBody (flush_body f)

length-put_event : (e : RawEvent) → 1 ≤ length (put_event e)
unfolding put_event
length-put_event e = omega (arith, length-append (put_var_int _) (encode e), length-put_var_int _)

shorter :
    (e : RawEvent) (es : List RawEvent) → length (put_payload es) < length (put_payload (e ∷ es))
unfolding put_payload
shorter e es = omega (arith, length-append (put_event e) (put_payload es), length-put_event e)

next_event-nil : next_event [] ≡ err short
unfolding next_event
next_event-nil = >>=-err var_int _ var_int-nil

next_frame-nil : next_frame [] ≡ err truncated
unfolding next_frame
next_frame-nil = refl

module _ {ℓ} {S : Type ℓ} (fn : S → RawEvent → Outcome S) where
  -- The callback on each event in turn, until it fails.
  unfoldable pub deliver : S → List RawEvent → Outcome S
  deliver s [] = (s, none)
  deliver s (e ∷ es) = and_then (fn s e) (λ s'. deliver s' es)

  pub deliver-append :
      (s : S) (xs ys : List RawEvent)
      → deliver s (xs ++ ys) ≡ and_then (deliver s xs) (λ s'. deliver s' ys)
  unfolding deliver
  deliver-append s [] ys = refl
  deliver-append s (x ∷ xs) ys =
      and_then-cong (fn s x) (λ s'. deliver-append s' xs ys) ∙ sym (and_then_assoc (fn s x) _ _)

  event_loop_step :
      (fuel : ℕ) (s : S) (bs : List ℕ) {e : RawEvent} {rest : List ℕ}
      → next_event bs ≡ ok (e, rest)
      → event_loop fn (suc fuel) s bs ≡ and_then (fn s e) (λ s'. event_loop fn fuel s' rest)
  unfolding event_loop
  event_loop_step fuel s [] h = cc next_event-nil
  event_loop_step fuel s (b ∷ bs) h = rw (h, event_loop)

  event_loop-put_payload :
      (es : List RawEvent) (fuel : ℕ) (s : S)
      → All IsLogged es
      → length (put_payload es) ≤ fuel
      → event_loop fn fuel s (put_payload es) ≡ deliver s es
  unfolding put_payload deliver
  event_loop-put_payload [] fuel s h hf = unfold event_loop in refl
  event_loop-put_payload (e ∷ es) zero s h hf = absurd (omega (arith, shorter e es))
  event_loop-put_payload (e ∷ es) (suc fuel) s h hf =
      event_loop_step fuel s _ ((next_event-Reads e h.0).reads (put_payload es))
      ∙ and_then-cong (fn s e)
          (λ s'. event_loop-put_payload es fuel s' h.1 (omega (arith, shorter e es)))

length-put_log : (fs : List Flush) → length fs ≤ length (put_log fs)
unfolding put_log put_frame
length-put_log [] = omega arith
length-put_log (f ∷ fs) = omega (
  arith,
  length-append (put_frame (flush_body f)) (put_log fs),
  length-put_frame (length (flush_body f)) (flush_body f),
  length-put_log fs,
)

module _ {ℓ} (zlib : Compression) {S : Type ℓ} (fn : S → RawEvent → Outcome S) where
  read_frame-flush_body :
      (f : Flush) (s : S)
      → IsFlush zlib f
      → read_frame zlib fn s (flush_body f) ≡ deliver fn s f.events
  unfolding read_frame flush_body
  read_frame-flush_body f s h =
      rw ((header-Reads f.header h.header_fits).reads f.compressed, read_frame, h.packed)
        (event_loop-put_payload fn f.events _ s h.events_fit (omega arith))

  stream_loop_step :
      (fuel : ℕ) (s : S) (bs : List ℕ) {frame rest : List ℕ}
      → next_frame bs ≡ ok (frame, rest)
      → stream_loop zlib fn (suc fuel) s bs
        ≡ and_then (read_frame zlib fn s frame) (λ s'. stream_loop zlib fn fuel s' rest)
  unfolding stream_loop
  stream_loop_step fuel s [] h = cc next_frame-nil
  stream_loop_step fuel s (b ∷ bs) h = rw (h, stream_loop)

  -- Behind whole frames the stream goes on with whatever follows them.
  pub stream_loop-put_log :
      (fs : List Flush) (fuel : ℕ) (s : S) (tail : List ℕ)
      → All (IsFlush zlib) fs
      → stream_loop zlib fn (length fs + fuel) s (put_log fs ++ tail)
        ≡ and_then (deliver fn s (logged_events fs)) (λ s'. stream_loop zlib fn fuel s' tail)
  unfolding put_log logged_events deliver
  stream_loop-put_log [] fuel s tail h = rw zero-add
  stream_loop-put_log (f ∷ fs) fuel s tail h =
      rw (append_assoc, suc-add)
        (stream_loop_step (length fs + fuel) s _
            ((next_frame-Reads (flush_body f) h.0.body_fits).reads (put_log fs ++ tail))
          ∙ ap
              (λ o.
                and_then o (λ s'. stream_loop zlib fn (length fs + fuel) s' (put_log fs ++ tail)))
              (read_frame-flush_body f s h.0)
          ∙ and_then-cong (deliver fn s f.events) (λ s'. stream_loop-put_log fs fuel s' tail h.1)
          ∙ sym (and_then_assoc (deliver fn s f.events) _ _)
          ∙ ap (λ o. and_then o (λ s'. stream_loop zlib fn fuel s' tail))
              (sym (deliver-append fn s f.events (logged_events fs))))

  -- The same from `Stream`, whose rounds are the length of the whole file.
  pub stream-put_log :
      (fs : List Flush) (s : S) (tail : List ℕ)
      → All (IsFlush zlib) fs
      → (k : ℕ) × (length tail ≤ k)
        × (stream zlib fn s (put_log fs ++ tail)
            ≡ and_then (deliver fn s (logged_events fs)) (λ s'. stream_loop zlib fn k s' tail))
  unfolding stream
  stream-put_log fs s tail h =
      let k : ℕ = length (put_log fs ++ tail) - length fs in
      (
        k,
        omega (arith, length-append (put_log fs) tail, length-put_log fs),
        ap (λ n. stream_loop zlib fn n s (put_log fs ++ tail))
              (omega (arith, length-append (put_log fs) tail, length-put_log fs))
            ∙ stream_loop-put_log fs k s tail h,
      )
