-- ===== src/Tests/Logs.antt =====
-- A capture file of one flush, whole and cut behind its first two bytes.
use mcbenchmark.Prelude.{
  ℕ, suc, ◌≤◌, ◌≡◌, refl, List, [], ◌∷◌, ◌++◌, none, some, length, length-append, map, All, arith,
}
use mcbenchmark.Prelude.Int.{pos}
use mcbenchmark.Wire.Reading.{truncated}
use mcbenchmark.Wire.Fixed.{be, put_int64_be, put_string, len_i32}
use mcbenchmark.Prelude.Word.{i32}
use mcbenchmark.Wire.VarInt.{put_var_int}
use mcbenchmark.Wire.VarInt.RoundTrip.{length-put_var_int}
use mcbenchmark.Event.{RawEvent, encode}
use mcbenchmark.Event.RoundTrip.{length-encode_le}
use mcbenchmark.Compression.{stored}
use mcbenchmark.CaptureLog.{
  Outcome, and_then, put_event, put_payload, put_header, put_frame, stream, stream_dir,
}
use mcbenchmark.CaptureLog.Frames.{IsBody}
use mcbenchmark.CaptureLog.Loop.{Flush, flush_body, put_log, logged_events, IsFlush, deliver}
use mcbenchmark.CaptureLog.Truncation.{stream-truncated}
use mcbenchmark.CaptureLog.Directory.{
  LogFile, whole, broken, content, all_kept, IsLogFile, always, consume, stream_dir-kept,
}
use mcbenchmark.CaptureLog.Rounds.{Ends, stream-Ends}
use mcbenchmark.Tests.Samples.{say_event, say_event-IsLogged}

abbrev count_event : ℕ → RawEvent → ℕ
count_event n e = suc n

abbrev counting : ℕ → RawEvent → Outcome ℕ
counting n e = (suc n, none)

-- The start of a frame that the server never finished.
abbrev started : List ℕ
started = 0 ∷ 0 ∷ []

abbrev five_bytes : List ℕ
five_bytes = 1 ∷ 2 ∷ 3 ∷ 4 ∷ 5 ∷ []

five_bytes-IsBody : IsBody five_bytes
five_bytes-IsBody = record { filled = omega arith; bounded = omega arith }

abbrev unwritten : List ℕ
unwritten = 0 ∷ 5 ∷ five_bytes

cut : put_frame five_bytes ≡ started ++ unwritten
unfolding put_frame be
cut = refl

abbrev pub flush : Flush
flush = record {
  header = record {
    schema_version = pos 1;
    server_id = 115 ∷ [];
    start_ms = pos 5;
    end_ms = pos 9;
  };
  events = say_event ∷ say_event ∷ [];
  compressed = put_payload (say_event ∷ say_event ∷ []);
}

length-header : length (put_header flush.header) ≤ 40
unfolding put_header put_string put_int64_be
length-header =
    simp length-append
      (omega (arith, length-put_var_int (pos 1), length-put_var_int (len_i32 (115 ∷ []))))

length-event : (1 ≤ length (put_event say_event)) × (length (put_event say_event) ≤ 200)
unfolding put_event
length-event = omega (
  arith,
  length-append (put_var_int (i32 (length (encode say_event)))) (encode say_event),
  length-encode_le say_event refl,
  length-put_var_int (i32 (length (encode say_event))),
)

flush_size : (1 ≤ length (flush_body flush)) × (length (flush_body flush) ≤ 1000)
unfolding flush_body put_payload
flush_size = simp length-append (omega (arith, length-header, length-event))

flush-IsFlush : IsFlush stored flush
flush-IsFlush = record {
  header_fits = record {
    version_fits = omega arith;
    id_fits = omega arith;
    start_fits = omega arith;
    end_fits = omega arith;
  };
  events_fit = (say_event-IsLogged, (say_event-IsLogged, tt));
  packed = refl;
  body_fits = record { filled = flush_size.0; bounded = omega (arith, flush_size.1) };
}

stream-truncated_example :
    stream stored counting 0 (put_log (flush ∷ []) ++ started)
    ≡ and_then (deliver counting 0 (logged_events (flush ∷ []))) (λ n. (n, some truncated))
stream-truncated_example =
    stream-truncated stored counting (flush ∷ []) 0 five_bytes started unwritten (flush-IsFlush, tt)
      five_bytes-IsBody cut (λ e. absurd (cc e)) (λ e. absurd (cc e))

abbrev pub killed : LogFile
killed = broken (flush ∷ []) five_bytes started unwritten

abbrev pub files : List LogFile
files = killed ∷ whole (flush ∷ []) ∷ []

pub files-IsLogFile : All (IsLogFile stored) files
files-IsLogFile = (
  ((flush-IsFlush, tt), five_bytes-IsBody, cut, (λ e. absurd (cc e)), (λ e. absurd (cc e))),
  ((flush-IsFlush, tt), tt),
)

stream_dir-kept_example :
    stream_dir stored (always stored count_event) 0 (map content files)
    ≡ (consume stored count_event 0 (all_kept files), none)
stream_dir-kept_example =
    stream_dir-kept stored count_event killed (whole (flush ∷ []) ∷ []) 0 files-IsLogFile

abbrev written : List ℕ
written = put_payload (say_event ∷ say_event ∷ [])

written-small : length written ≤ 400
unfolding put_payload
written-small = simp length-append (omega (arith, length-event))

stream-Ends_example : Ends (stream stored counting 0 (0 ∷ 0 ∷ 0 ∷ 2 ∷ 1 ∷ 200 ∷ 9 ∷ []))
stream-Ends_example =
    stream-Ends stored counting (λ n e h. cc h) 0 (0 ∷ 0 ∷ 0 ∷ 2 ∷ 1 ∷ 200 ∷ 9 ∷ [])
