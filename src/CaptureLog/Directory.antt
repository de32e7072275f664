-- ===== src/CaptureLog/Directory.antt =====
-- A directory of logs: one broken file costs none of the others.
use mcbenchmark.Prelude.{ℕ, ◌≡◌, ◌≢◌, refl, sym, ◌∙◌, ap, List, [], ◌∷◌, ◌++◌, none, some, map, All}
use mcbenchmark.Compression.{Compression}
use mcbenchmark.Wire.Reading.{truncated}
use mcbenchmark.Event.{RawEvent}
use mcbenchmark.CaptureLog.{
  Outcome, and_then, put_frame, stream, keep_going, stream_files, stream_dir,
}
use mcbenchmark.CaptureLog.Frames.{IsBody}
use mcbenchmark.CaptureLog.Loop.{Flush, IsFlush, put_log, logged_events, deliver}
use mcbenchmark.CaptureLog.Truncation.{stream-whole, stream-truncated}

-- A capture file as a server leaves it: whole frames, and after a kill the front of one more.
pub data LogFile : Type 0 where
  whole : List Flush → LogFile
  broken : List Flush → List ℕ → List ℕ → List ℕ → LogFile

unfoldable pub content : LogFile → List ℕ
content (whole fs) = put_log fs
content (broken fs body front back) = put_log fs ++ front

unfoldable pub kept_events : LogFile → List RawEvent
kept_events (whole fs) = logged_events fs
kept_events (broken fs body front back) = logged_events fs

unfoldable pub all_kept : List LogFile → List RawEvent
all_kept [] = []
all_kept (f ∷ fs) = kept_events f ++ all_kept fs

abbrev pub IsLogFile : Compression → LogFile → Type 0
IsLogFile zlib (whole fs) = All (IsFlush zlib) fs
IsLogFile zlib (broken fs body front back) =
    All (IsFlush zlib) fs
    × IsBody body
    × (put_frame body ≡ front ++ back)
    × (front ≢ [])
    × (back ≢ [])

module _ {ℓ} (zlib : Compression) {S : Type ℓ} (fn : S → RawEvent → S) where
  -- The callback of the compiler's first pass and of `ReadDir` never ends the stream by itself.
  abbrev pub always : S → RawEvent → Outcome S
  always s e = (fn s e, none)

  unfoldable pub consume : S → List RawEvent → S
  consume s [] = s
  consume s (e ∷ es) = consume (fn s e) es

  deliver-consume : (s : S) (es : List RawEvent) → deliver always s es ≡ (consume s es, none)
  unfolding deliver consume
  deliver-consume s [] = refl
  deliver-consume s (e ∷ es) = deliver-consume (fn s e) es

  consume-append :
      (s : S) (xs ys : List RawEvent) → consume s (xs ++ ys) ≡ consume (consume s xs) ys
  unfolding consume
  consume-append s [] ys = refl
  consume-append s (x ∷ xs) ys = consume-append (fn s x) xs ys

  file_kept :
      (f : LogFile) (s : S) (k : S → Outcome S)
      → IsLogFile zlib f
      → keep_going zlib always (stream zlib always s (content f)) k ≡ k (consume s (kept_events f))
  unfolding content kept_events keep_going
  file_kept (whole fs) s k h =
      ap (λ o. keep_going zlib always o k)
        (stream-whole zlib always fs s h ∙ deliver-consume s (logged_events fs))
  file_kept (broken fs body front back) s k (h, hb, e, nf, nb) =
      ap (λ o. keep_going zlib always o k)
        (stream-truncated zlib always fs s body front back h hb e nf nb
          ∙ ap (λ o. and_then o (λ s'. (s', some truncated)))
              (deliver-consume s (logged_events fs)))

  stream_files-kept :
      (fs : List LogFile) (s : S)
      → All (IsLogFile zlib) fs
      → stream_files zlib always s (map content fs) ≡ (consume s (all_kept fs), none)
  unfolding stream_files all_kept
  stream_files-kept [] s h = unfold consume in refl
  stream_files-kept (f ∷ fs) s h =
      file_kept f s _ h.0
      ∙ stream_files-kept fs (consume s (kept_events f)) h.1
      ∙ ap (λ t. (t, none)) (sym (consume-append s (kept_events f) (all_kept fs)))

  -- Over a directory with at least one file, some of them cut short, a callback that returns no error
  -- gets every event of every whole frame, file by file and in order, and `StreamDir` returns no
  -- error.
  pub stream_dir-kept :
      (f : LogFile) (fs : List LogFile) (s : S)
      → All (IsLogFile zlib) (f ∷ fs)
      → stream_dir zlib always s (map content (f ∷ fs)) ≡ (consume s (all_kept (f ∷ fs)), none)
  unfolding stream_dir
  stream_dir-kept f fs s h = stream_files-kept (f ∷ fs) s h
