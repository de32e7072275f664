-- ===== src/CaptureLog/Writing.antt =====
-- go/internal/rawlog/rawlog.go: what `WriteFile` writes, `Stream` delivers.
use mcbenchmark.Prelude.{
  ℕ, ◌+◌, ◌^◌, ◌≤◌, ◌<◌, ◌≡◌, refl, sym, ap, ◌∙◌, List, [], ◌∷◌, ◌++◌, append-nil, some, length,
  length-append, All, arith,
}
use mcbenchmark.Prelude.Int.{ℤ, pos}
use mcbenchmark.Prelude.Word.{IsI64}
use mcbenchmark.Wire.Reading.{ok}
use mcbenchmark.Wire.VarInt.{put_var_int}
use mcbenchmark.Wire.VarInt.RoundTrip.{length-put_var_int}
use mcbenchmark.Event.{RawEvent}
use mcbenchmark.Compression.{Compression}
use mcbenchmark.CaptureLog.{
  FrameHeader, max_frame_len, put_payload, put_header, put_frame, write_file, Outcome, stream,
}
use mcbenchmark.CaptureLog.Frames.{IsLogged}
use mcbenchmark.CaptureLog.Loop.{Flush, flush_body, put_log, logged_events, IsFlush, deliver}
use mcbenchmark.CaptureLog.Truncation.{stream-whole}

abbrev pub header_of : List ℕ → ℤ → ℤ → FrameHeader
header_of server_id start_ms end_ms = record {
  schema_version = pos 1;
  server_id = server_id;
  start_ms = start_ms;
  end_ms = end_ms;
}

length-put_header : (h : FrameHeader) → 1 ≤ length (put_header h)
unfolding put_header
length-put_header h =
    omega
      (arith, length-append (put_var_int h.schema_version) _, length-put_var_int h.schema_version)

module _ {ℓ} (zlib : Compression) {S : Type ℓ} (fn : S → RawEvent → Outcome S) where
  decompress-compress :
      (raw comp : List ℕ) → zlib.compress raw ≡ some comp → zlib.decompress comp ≡ some raw
  decompress-compress raw comp h = let (c, e, k) = zlib.inverse raw in cc (e, h, k)

  -- A file that `WriteFile` wrote is delivered event by event, without an error but the callback's.
  -- The events and the header fit their fields, and the one frame is within `maxFrameLen`.
  pub stream-write_file :
      (server_id : List ℕ) (start_ms end_ms : ℤ) (es : List RawEvent) (comp : List ℕ) (s : S)
      → length server_id < 2 ^ 31
      → IsI64 start_ms
      → IsI64 end_ms
      → All IsLogged es
      → zlib.compress (put_payload es) ≡ some comp
      → length (put_header (header_of server_id start_ms end_ms)) + length comp ≤ max_frame_len
      → (file : List ℕ) × (write_file zlib server_id start_ms end_ms es ≡ ok file)
        × (stream zlib fn s file ≡ deliver fn s es)
  unfolding write_file
  stream-write_file server_id start_ms end_ms es comp s hid hs he hes hc hlen =
      let flush : Flush = record {
        header = header_of server_id start_ms end_ms;
        events = es;
        compressed = comp;
      } in
      let body = put_header (header_of server_id start_ms end_ms) in
      let fits : IsFlush zlib flush = record {
        header_fits = record {
          version_fits = omega arith;
          id_fits = hid;
          start_fits = hs;
          end_fits = he;
        };
        events_fit = hes;
        packed = decompress-compress (put_payload es) comp hc;
        body_fits =
            unfold flush_body in
            record {
              filled = omega (
                arith,
                length-append body comp,
                length-put_header (header_of server_id start_ms end_ms),
              );
              bounded = omega (arith, length-append body comp, hlen);
            };
      } in
      let whole : put_log (flush ∷ []) ≡ put_frame (body ++ comp) =
        unfold put_log flush_body in append-nil (put_frame (body ++ comp)) in
      let only : logged_events (flush ∷ []) ≡ es = unfold logged_events in append-nil es in
      (
        put_frame (body ++ comp),
        rw hc refl,
        ap (stream zlib fn s) (sym whole)
            ∙ stream-whole zlib fn (flush ∷ []) s (fits, tt)
            ∙ ap (deliver fn s) only,
      )
