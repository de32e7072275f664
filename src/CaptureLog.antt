-- ===== src/CaptureLog.antt =====
-- go/internal/rawlog/rawlog.go: the capture log. `Stream`, `StreamDir` and `WriteFile` on the bytes
-- of the files. The state `S` is what the callback works on; an operation returns it with the error,
-- if there is one. Opening files and `filepath.Glob` are not modelled.
pub mod Frames
pub mod Loop
pub mod Truncation
pub mod Directory
pub mod Writing
pub mod Rounds
use mcbenchmark.Prelude.{
  ℕ, zero, suc, ◌*◌, ◌^◌, List, [], ◌∷◌, ◌++◌, Option, none, some, length, take, drop, ltb, ◌==◌,
  ◌||◌, if◌then◌else◌,
}
use mcbenchmark.Prelude.Int.{ℤ, pos}
use mcbenchmark.Prelude.Word.{i32}
use mcbenchmark.Compression.{Compression}
use mcbenchmark.Wire.Reading.{
  Result, ok, err, Error, truncated, bad_frame_length, bad_compression, no_files, out_of_fuel,
  Reader, pure, ◌>>=◌,
}
use mcbenchmark.Wire.Outcome.{◌>>=◌ as ◌then◌, or_fail}
use mcbenchmark.Wire.Bytes.{bytes}
use mcbenchmark.Wire.VarInt.{put_var_int, var_int}
use mcbenchmark.Wire.Fixed.{be, of_be, put_int64_be, put_string, int64_be, string}
use mcbenchmark.Event.{RawEvent, encode, decode_event}

-- `maxFrameLen = 256 << 20`
abbrev pub max_frame_len : ℕ
max_frame_len = 256 * 2 ^ 20

pub record FrameHeader : Type 0 where
  pub schema_version : ℤ
  pub server_id : List ℕ
  pub start_ms : ℤ
  pub end_ms : ℤ

-- `payload.VarInt(int32(ew.Len())); payload.Raw(ew.Bytes())`
unfoldable pub put_event : RawEvent → List ℕ
put_event e = put_var_int (i32 (length (encode e))) ++ encode e

unfoldable pub put_payload : List RawEvent → List ℕ
put_payload [] = []
put_payload (e ∷ es) = put_event e ++ put_payload es

unfoldable pub put_header : FrameHeader → List ℕ
put_header h =
    put_var_int h.schema_version
    ++ (put_string h.server_id ++ (put_int64_be h.start_ms ++ put_int64_be h.end_ms))

-- The length prefix counts what follows it.
unfoldable pub put_frame : List ℕ → List ℕ
put_frame body = be 4 (length body) ++ body

unfoldable pub read_header : Reader FrameHeader
read_header = do
  v ← var_int
  id ← string
  start ← int64_be
  end ← int64_be
  pure (record { schema_version = v; server_id = id; start_ms = start; end_ms = end })

unfoldable pub decode_body : List ℕ → Reader RawEvent
decode_body eb rest = elim (decode_event eb) [ ok e ↦ ok (e, rest) | err x ↦ err x ]

-- One event of a payload: its length, its body, and the decoding of that.
unfoldable pub next_event : Reader RawEvent
next_event = do elen ← var_int; eb ← bytes elen; decode_body eb

-- The two `io.ReadFull` calls of a round: either may find the file cut short.
unfoldable pub next_frame : Reader (List ℕ)
next_frame bs =
    let flen = of_be (take 4 bs) in
    let rest = drop 4 bs in
    if ltb (length bs) 4
    then err truncated
    else if flen == 0 || ltb max_frame_len flen
    then err bad_frame_length
    else if ltb (length rest) flen
    then err truncated
    else ok (take flen rest, drop flen rest)

-- The state, and the error that ended the work, if one did.
abbrev pub Outcome {ℓ} : Type ℓ → Type ℓ
Outcome S = S × Option Error

abbrev pub and_then {ℓ} : {S : Type ℓ} → Outcome S → (S → Outcome S) → Outcome S
and_then (s, none) k = k s
and_then (s, some e) k = (s, some e)

module _ {ℓ} {S : Type ℓ} (fn : S → RawEvent → Outcome S) where
  -- `for er.Remaining() > 0`
  unfoldable pub event_loop : ℕ → S → List ℕ → Outcome S
  event_loop fuel s [] = (s, none)
  event_loop zero s (b ∷ bs) = (s, some out_of_fuel)
  event_loop (suc fuel) s (b ∷ bs) = elim (next_event (b ∷ bs)) [
    | ok (e, rest) ↦ and_then (fn s e) (λ s'. event_loop fuel s' rest)
    | err x ↦ (s, some x)
  ]

module _ {ℓ} (zlib : Compression) {S : Type ℓ} (fn : S → RawEvent → Outcome S) where
  -- The body of one frame: the header, the compressed payload, the events.
  unfoldable pub read_frame : S → List ℕ → Outcome S
  unfolding event_loop
  read_frame s frame = elim (read_header frame) [
    | ok (h, rest) ↦ elim (zlib.decompress rest) [
      | some raw ↦ event_loop fn (length raw) s raw
      | none ↦ (s, some bad_compression)
    ]
    | err x ↦ (s, some x)
  ]

  unfoldable pub stream_loop : ℕ → S → List ℕ → Outcome S
  unfolding read_frame
  stream_loop fuel s [] = (s, none)
  stream_loop zero s (b ∷ bs) = (s, some out_of_fuel)
  stream_loop (suc fuel) s (b ∷ bs) = elim (next_frame (b ∷ bs)) [
    | ok (frame, rest) ↦ and_then (read_frame s frame) (λ s'. stream_loop fuel s' rest)
    | err x ↦ (s, some x)
  ]

  -- `Stream`: every frame takes a byte at least, so the length of the file is rounds enough.
  unfoldable pub stream : S → List ℕ → Outcome S
  unfolding stream_loop
  stream s content = stream_loop (length content) s content

  -- `if errors.Is(err, ErrTruncated) { …; continue }; return err`
  unfoldable pub keep_going : Outcome S → (S → Outcome S) → Outcome S
  keep_going (s, none) k = k s
  keep_going (s, some truncated) k = k s
  keep_going (s, some e) k = (s, some e)

  unfoldable pub stream_files : S → List (List ℕ) → Outcome S
  unfolding stream keep_going
  stream_files s [] = (s, none)
  stream_files s (f ∷ fs) = keep_going (stream s f) (λ s'. stream_files s' fs)

  -- `StreamDir`, on the contents of the files in the order of their names
  unfoldable pub stream_dir : S → List (List ℕ) → Outcome S
  unfolding stream_files
  stream_dir s [] = (s, some no_files)
  stream_dir s (f ∷ fs) = stream_files s (f ∷ fs)

module _ (zlib : Compression) where
  -- `WriteFile`: one frame, under schema version 1.
  unfoldable pub write_file : List ℕ → ℤ → ℤ → List RawEvent → Result (List ℕ)
  unfolding put_frame put_header put_payload
  write_file server_id start_ms end_ms es =
      let h : FrameHeader = record {
        schema_version = pos 1;
        server_id = server_id;
        start_ms = start_ms;
        end_ms = end_ms;
      } in
      ◌then◌ (or_fail (zlib.compress (put_payload es)) bad_compression)
        λ comp. ok (put_frame (put_header h ++ comp))
