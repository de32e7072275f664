-- ===== src/Trace/Events.antt =====
-- go/internal/tracefile/tracefile.go: the event list, whose offsets are stored as differences.
use mcbenchmark.Prelude.{ℕ, zero, suc, List, [], ◌∷◌, ◌++◌, length, All}
use mcbenchmark.Prelude.Int.{ℤ}
use mcbenchmark.Prelude.Word.{IsI64, add_i64, sub_i64, add_i64-sub_i64, sub_i64-IsI64}
use mcbenchmark.Wire.Reading.{Reader, pure, ◌>>=◌, Reads, Reads-bind, Reads-last, Reads-pure}
use mcbenchmark.Wire.Bytes.{bytes, bytes-Reads}
use mcbenchmark.Wire.VarInt.{put_var_int, put_var_long, var_int, var_long}
use mcbenchmark.Wire.VarInt.RoundTrip.{var_int-Reads, var_long-Reads}
use mcbenchmark.Wire.Fixed.{len_i32}
use mcbenchmark.Wire.Fixed.RoundTrip.{len_i32-Reads}
use mcbenchmark.Trace.Model.{TraceEvent, IsTraceEvent}

-- `prev` is the offset of the event before.
unfoldable pub put_events : ℤ → List TraceEvent → List ℕ
put_events prev [] = []
put_events prev (e ∷ es) =
    put_var_long (sub_i64 e.offset_us prev)
    ++ (put_var_int e.kind
        ++ (put_var_int (len_i32 e.content) ++ (e.content ++ put_events e.offset_us es)))

-- `off` is the offset so far, and the number is that of the events still to come.
unfoldable pub read_events : ℕ → ℤ → Reader (List TraceEvent)
read_events zero off = pure []
read_events (suc n) off = do
  d ← var_long
  let off' = add_i64 off d
  kind ← var_int
  len ← var_int
  content ← bytes len
  es ← read_events n off'
  pure (record { offset_us = off'; kind = kind; content = content } ∷ es)

pub events-Reads :
    (es : List TraceEvent) (prev : ℤ)
    → IsI64 prev
    → All IsTraceEvent es
    → Reads (read_events (length es) prev) (put_events prev es) es
unfolding read_events put_events
events-Reads [] prev hp h = Reads-pure
events-Reads (e ∷ es) prev hp (he, hes) =
    Reads-bind _ (var_long-Reads (sub_i64 e.offset_us prev) (sub_i64-IsI64 e.offset_us prev)) (
      rw (add_i64-sub_i64 prev e.offset_us hp he.offset_fits) (
        Reads-bind _ (var_int-Reads e.kind he.kind_fits) (
          Reads-bind _ (len_i32-Reads e.content he.content_fits) (
            Reads-bind _ (bytes-Reads e.content)
              (Reads-last _ (events-Reads es e.offset_us he.offset_fits hes) Reads-pure)))))
