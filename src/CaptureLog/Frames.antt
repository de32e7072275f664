-- ===== src/CaptureLog/Frames.antt =====
-- What `WriteFile` puts into a frame is found again by the readers of `Stream`.
use mcbenchmark.Prelude.{
  ℕ, ◌+◌, ◌^◌, ◌≤◌, ◌<◌, ◌≡◌, ◌≢◌, ◌∙◌, ap, List, [], ◌++◌, length, take, drop, ltb, if◌then◌else◌,
  false, append_assoc, sym, inl, inr, Bool-cases, take-append, drop-append, take-append-drop,
  take-append_le, length-drop, length-pos, lt→ltb, ltb→le, length-append, le→ltb, arith,
}
use mcbenchmark.Prelude.Word.{IsI32, IsI64}
use mcbenchmark.Wire.Reading.{ok, err, truncated, Reads, Reads-bind, Reads-last, Reads-pure}
use mcbenchmark.Wire.Bytes.{bytes-Reads}
use mcbenchmark.Wire.VarInt.RoundTrip.{var_int-Reads}
use mcbenchmark.Wire.Fixed.{be}
use mcbenchmark.Wire.Fixed.RoundTrip.{
  length-be, of_be-be, int64_be-Reads, string-Reads, count-Reads,
}
use mcbenchmark.Event.{RawEvent, encode}
use mcbenchmark.Event.RoundTrip.{IsEvent, decode_event-encode}
use mcbenchmark.CaptureLog.{
  max_frame_len, FrameHeader, put_event, put_header, put_frame, read_header, decode_body,
  next_event, next_frame,
}

-- The event fits its fields and its encoding fits the length prefix.
pub record IsLogged (e : RawEvent) : Type 0 where
  pub fits : IsEvent e
  pub size_fits : length (encode e) < 2 ^ 31

pub record IsHeader (h : FrameHeader) : Type 0 where
  pub version_fits : IsI32 h.schema_version
  pub id_fits : length h.server_id < 2 ^ 31
  pub start_fits : IsI64 h.start_ms
  pub end_fits : IsI64 h.end_ms

-- A body that the readers accept: not empty, and no larger than `maxFrameLen`.
pub record IsBody (body : List ℕ) : Type 0 where
  pub filled : 1 ≤ length body
  pub bounded : length body ≤ max_frame_len

decode_body-Reads : (e : RawEvent) → IsEvent e → Reads (decode_body (encode e)) [] e
unfolding decode_body
decode_body-Reads e h = record { reads = λ rest. rw (decode_event-encode e h, decode_body) }

pub next_event-Reads : (e : RawEvent) → IsLogged e → Reads next_event (put_event e) e
unfolding next_event put_event
next_event-Reads e h =
    Reads-bind _ (count-Reads (length (encode e)) h.size_fits)
      (Reads-last _ (bytes-Reads (encode e)) (decode_body-Reads e h.fits))

pub header-Reads : (h : FrameHeader) → IsHeader h → Reads read_header (put_header h) h
unfolding read_header put_header
header-Reads h k = Reads-bind _ (var_int-Reads h.schema_version k.version_fits) (
    Reads-bind _ (string-Reads h.server_id k.id_fits) (
      Reads-bind _ (int64_be-Reads h.start_ms k.start_fits)
        (Reads-last _ (int64_be-Reads h.end_ms k.end_fits) Reads-pure)))

prefix_taken : (n : ℕ) (bs : List ℕ) → take 4 (be 4 n ++ bs) ≡ be 4 n
prefix_taken n bs = rw (length-be 4 n) at (take-append (be 4 n) bs)

prefix_dropped : (n : ℕ) (bs : List ℕ) → drop 4 (be 4 n ++ bs) ≡ bs
prefix_dropped n bs = rw (length-be 4 n) at (drop-append (be 4 n) bs)

pub length-put_frame : (n : ℕ) (bs : List ℕ) → length (be 4 n ++ bs) ≡ 4 + length bs
length-put_frame n bs = omega (arith, length-append (be 4 n) bs, length-be 4 n)

-- The tests of `next_frame` behind a whole length prefix.
behind_prefix :
    (n : ℕ) (bs : List ℕ)
    → 1 ≤ n
    → n ≤ max_frame_len
    → next_frame (be 4 n ++ bs)
      ≡ (if ltb (length bs) n then err truncated else ok (take n bs, drop n bs))
unfolding next_frame
behind_prefix n bs h k =
    rw
      (
        le→ltb (length (be 4 n ++ bs)) 4 (omega (arith, length-put_frame n bs)),
        prefix_taken n bs,
        prefix_dropped n bs,
        of_be-be 4 n (omega arith),
      )
      (ground arith)

pub next_frame-Reads : (body : List ℕ) → IsBody body → Reads next_frame (put_frame body) body
unfolding put_frame
next_frame-Reads body h = record {
  reads = λ rest. rw append_assoc (
      behind_prefix (length body) (body ++ rest) h.filled h.bounded
      ∙ rw (
        le→ltb (length (body ++ rest)) (length body) (omega (arith, length-append body rest)),
        take-append,
        drop-append,
      ));
}

-- A front of at least four bytes holds the whole prefix.
front_with_prefix :
    (n : ℕ) (body front back : List ℕ)
    → be 4 n ++ body ≡ front ++ back
    → 4 ≤ length front
    → front ≡ be 4 n ++ drop 4 front
front_with_prefix n body front back e h =
    sym (take-append-drop 4 front)
    ∙ ap (λ t. t ++ drop 4 front)
        (sym (take-append_le 4 front back h) ∙ ap (take 4) (sym e) ∙ prefix_taken n body)

-- A frame that is cut anywhere is reported as the end of a broken file.
pub next_frame-cut :
    (body front back : List ℕ)
    → IsBody body
    → put_frame body ≡ front ++ back
    → back ≢ []
    → next_frame front ≡ err truncated
unfolding put_frame
next_frame-cut body front back h e ne = elim (Bool-cases (ltb (length front) 4)) [
  | inl few ↦ unfold next_frame in rw few
  | inr enough ↦
      ap next_frame (whole enough)
      ∙ behind_prefix (length body) (drop 4 front) h.filled h.bounded
      ∙ rw (
          lt→ltb (length (drop 4 front)) (length body) (
            omega (
              arith,
              ap length e,
              length-put_frame (length body) body,
              length-append front back,
              length-drop 4 front,
              length-pos back ne,
              ltb→le (length front) 4 enough,
            )))
]
  where
    whole : ltb (length front) 4 ≡ false → front ≡ be 4 (length body) ++ drop 4 front
    whole enough =
        front_with_prefix (length body) body front back e (ltb→le (length front) 4 enough)
