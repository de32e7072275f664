-- ===== src/Compile/Spill/Load.antt =====
-- Between the passes no event is lost: a bucket is read back as the grouping of the events that
-- were spilled into it, and holds every session of its number whole.
use mcbenchmark.Prelude.{
  ℕ, zero, suc, ◌%◌, ◌≤◌, ◌<◌, ◌≡◌, refl, sym, ◌∙◌, inl, inr, List, [], ◌∷◌, ◌++◌, length, ◌==◌,
  if◌then◌else◌, All, append_assoc, append-nil, length-append, take-append, drop-append, le→ltb,
  Bool-cases, arith,
}
use mcbenchmark.Wire.Reading.{ok, err, short, Reads, Reads-bind, Reads-last, >>=-err}
use mcbenchmark.Wire.Bytes.{byte-nil, byte}
use mcbenchmark.Event.{RawEvent, encode}
use mcbenchmark.Event.RoundTrip.{IsEvent, decode_event-encode}
use mcbenchmark.CaptureLog.Frames.{IsLogged}
use mcbenchmark.Compile.Sessions.{
  SessionKey, key_of, key_eq_iff, Sessions, add_event, group_from, events_of, of_session,
  events_of-group,
}
use mcbenchmark.Compile.Spill.{
  bucket_of, BucketFiles, put_spilled, spill, spill_all, read_full, decode_record, next_record,
  load_loop, load_bucket,
}
use mcbenchmark.Compile.Spill.Uvarint.{
  put_uvarint, read_uvarint, read_uvarint_from, uvarint-Reads, length-put_uvarint,
}

-- The events whose session has bucket `b`.
unfoldable pub in_bucket : ℕ → ℕ → List RawEvent → List RawEvent
in_bucket buckets b [] = []
in_bucket buckets b (e ∷ es) =
    if b == bucket_of (key_of e) % buckets
    then e ∷ in_bucket buckets b es
    else in_bucket buckets b es

unfoldable pub put_records : List RawEvent → List ℕ
put_records [] = []
put_records (e ∷ es) = put_spilled e ++ put_records es

read_full-Reads : (xs : List ℕ) → Reads (read_full (length xs)) xs xs
unfolding read_full
read_full-Reads xs = record {
  reads = λ rest. rw (
    le→ltb (length (xs ++ rest)) (length xs) (omega (arith, length-append xs rest)),
    take-append,
    drop-append,
  );
}

decode_record-Reads : (e : RawEvent) → IsEvent e → Reads (decode_record (encode e)) [] e
unfolding decode_record
decode_record-Reads e h = record { reads = λ rest. rw (decode_event-encode e h, decode_record) }

next_record-Reads : (e : RawEvent) → IsLogged e → Reads next_record (put_spilled e) e
unfolding next_record put_spilled
next_record-Reads e h =
    Reads-bind _ (uvarint-Reads (length (encode e)) (omega (arith, h.size_fits)))
      (Reads-last _ (read_full-Reads (encode e)) (decode_record-Reads e h.fits))

next_record-nil : next_record [] ≡ err short
unfolding next_record read_uvarint read_uvarint_from
next_record-nil = >>=-err _ _ (>>=-err byte _ byte-nil)

load_loop_step :
    (fuel : ℕ) (ss : Sessions) (bs : List ℕ) {e : RawEvent} {rest : List ℕ}
    → next_record bs ≡ ok (e, rest)
    → load_loop (suc fuel) ss bs ≡ load_loop fuel (add_event ss e) rest
unfolding load_loop
load_loop_step fuel ss [] h = cc next_record-nil
load_loop_step fuel ss (b ∷ bs) h = rw (h, load_loop)

fewer :
    (e : RawEvent) (es : List RawEvent) → length (put_records es) < length (put_records (e ∷ es))
unfolding put_records put_spilled
fewer e es = omega (
  arith,
  length-append (put_uvarint (length (encode e)) ++ encode e) (put_records es),
  length-append (put_uvarint (length (encode e))) (encode e),
  length-put_uvarint (length (encode e)),
)

load_loop-put_records :
    (es : List RawEvent) (fuel : ℕ) (ss : Sessions)
    → All IsLogged es
    → length (put_records es) ≤ fuel
    → load_loop fuel ss (put_records es) ≡ ok (group_from ss es)
unfolding put_records group_from
load_loop-put_records [] fuel ss h hf = unfold load_loop in refl
load_loop-put_records (e ∷ es) zero ss h hf = absurd (omega (arith, fewer e es))
load_loop-put_records (e ∷ es) (suc fuel) ss h hf =
    load_loop_step fuel ss _ ((next_record-Reads e h.0).reads (put_records es))
    ∙ load_loop-put_records es fuel (add_event ss e) h.1 (omega (arith, fewer e es))

-- What the first pass leaves in a bucket's file.
spill_all-in_bucket :
    (buckets : ℕ) (files : BucketFiles) (es : List RawEvent) (b : ℕ)
    → spill_all buckets files es b ≡ files b ++ put_records (in_bucket buckets b es)
unfolding spill_all spill put_records in_bucket
spill_all-in_bucket buckets files [] b = sym (append-nil (files b))
spill_all-in_bucket buckets files (e ∷ es) b =
    spill_all-in_bucket buckets (spill buckets files e) es b
    ∙ elim (Bool-cases (b == bucket_of (key_of e) % buckets)) [
      | inl here ↦ rw here (append_assoc (files b) (put_spilled e) _)
      | inr elsewhere ↦ rw elsewhere
    ]

in_bucket-IsLogged :
    (buckets b : ℕ) (es : List RawEvent) → All IsLogged es → All IsLogged (in_bucket buckets b es)
unfolding in_bucket
in_bucket-IsLogged buckets b [] h = h
in_bucket-IsLogged buckets b (e ∷ es) h =
    let kept : All IsLogged (in_bucket buckets b es) = in_bucket-IsLogged buckets b es h.1 in
    elim (Bool-cases (b == bucket_of (key_of e) % buckets)) [
      | inl here ↦ rw here (h.0, kept)
      | inr elsewhere ↦ rw elsewhere kept
    ]

abbrev pub no_files : BucketFiles
no_files b = []

-- The second pass reads every bucket file as the grouping of the events of that bucket.
pub load_bucket-spill_all :
    (buckets b : ℕ) (es : List RawEvent)
    → All IsLogged es
    → load_bucket (spill_all buckets no_files es b) ≡ ok (group_from [] (in_bucket buckets b es))
unfolding load_bucket
load_bucket-spill_all buckets b es h = rw (spill_all-in_bucket buckets no_files es b) (
    load_loop-put_records (in_bucket buckets b es) _ [] (in_bucket-IsLogged buckets b es h)
      (omega arith))

-- A bucket keeps the sessions of its number whole, and has nothing of the others.
pub of_session-in_bucket :
    (buckets b : ℕ) (k : SessionKey) (es : List RawEvent)
    → of_session k (in_bucket buckets b es)
      ≡ (if b == bucket_of k % buckets then of_session k es else [])
unfolding of_session in_bucket
of_session-in_bucket buckets b k [] = ground arith
of_session-in_bucket buckets b k (e ∷ es) =
    ground (arith, key_eq_iff (key_of e) k, of_session-in_bucket buckets b k es)

-- Whatever the number of buckets, the second pass finds each session in the bucket of its number
-- with all its events, in the order of the capture, and finds nothing of it in any other bucket.
pub load_bucket_session :
    (buckets b : ℕ) (k : SessionKey) (es : List RawEvent)
    → All IsLogged es
    → (ss : Sessions) × (load_bucket (spill_all buckets no_files es b) ≡ ok ss)
      × (events_of k ss ≡ (if b == bucket_of k % buckets then of_session k es else []))
load_bucket_session buckets b k es h = (
  group_from [] (in_bucket buckets b es),
  load_bucket-spill_all buckets b es h,
  events_of-group k (in_bucket buckets b es) ∙ of_session-in_bucket buckets b k es,
)
