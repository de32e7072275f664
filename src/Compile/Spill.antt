-- ===== src/Compile/Spill.antt =====
-- go/internal/compile/compile.go: `bucketOf`, the first pass that spills every event into a bucket
-- file, and `loadBucket`. The bucket files are a function from the number of a bucket to its bytes.
-- FNV-1a (hash/fnv) is that of Go's standard library.
pub mod Uvarint
pub mod Load
use Prim.Native.Nat.{bit_xor}
use mcbenchmark.Prelude.{
  ℕ, zero, suc, ◌*◌, ◌%◌, ◌^◌, List, [], ◌∷◌, ◌++◌, length, take, drop, ltb, ◌==◌, if◌then◌else◌,
}
use mcbenchmark.Prelude.Word.{u32}
use mcbenchmark.Wire.Reading.{Result, ok, err, short, out_of_fuel, Reader, ◌>>=◌}
use mcbenchmark.Wire.Fixed.{le}
use mcbenchmark.Event.{RawEvent, encode, decode_event}
use mcbenchmark.Compile.Sessions.{SessionKey, key_of, Sessions, add_event}
use mcbenchmark.Compile.Spill.Uvarint.{put_uvarint, read_uvarint}

-- `fnv.New64a`: exclusive or with the byte, then the product with the prime, on 64 bits
unfoldable pub fnv_from : ℕ → List ℕ → ℕ
fnv_from h [] = h
fnv_from h (b ∷ bs) = fnv_from (bit_xor h b * 1099511628211 % 2 ^ 64) bs

unfoldable pub bucket_of : SessionKey → ℕ
unfolding fnv_from le u32
bucket_of k = fnv_from 14695981039346656037 (k.player ++ le 4 (u32 k.seq))

abbrev pub BucketFiles : Type 0
BucketFiles = ℕ → List ℕ

-- `PutUvarint(lb[:], uint64(enc.Len()))`, and the encoding
unfoldable pub put_spilled : RawEvent → List ℕ
put_spilled e = put_uvarint (length (encode e)) ++ encode e

-- The callback of the first pass: one record more in the bucket of the event's session.
unfoldable pub spill : ℕ → BucketFiles → RawEvent → BucketFiles
spill buckets files e b =
    if b == bucket_of (key_of e) % buckets then files b ++ put_spilled e else files b

unfoldable pub spill_all : ℕ → BucketFiles → List RawEvent → BucketFiles
unfolding spill
spill_all buckets files [] = files
spill_all buckets files (e ∷ es) = spill_all buckets (spill buckets files e) es

-- `io.ReadFull(r, b)`, with `n` an unsigned number
unfoldable pub read_full : ℕ → Reader (List ℕ)
read_full n bs = if ltb (length bs) n then err short else ok (take n bs, drop n bs)

unfoldable pub decode_record : List ℕ → Reader RawEvent
decode_record b rest = elim (decode_event b) [ ok e ↦ ok (e, rest) | err x ↦ err x ]

unfoldable pub next_record : Reader RawEvent
next_record = do n ← read_uvarint; b ← read_full n; decode_record b

-- The loop of `loadBucket`: the end of the file between two records ends it.
unfoldable pub load_loop : ℕ → Sessions → List ℕ → Result Sessions
unfolding add_event
load_loop fuel ss [] = ok ss
load_loop zero ss (b ∷ bs) = err out_of_fuel
load_loop (suc fuel) ss (b ∷ bs) = elim (next_record (b ∷ bs)) [
  | ok (e, rest) ↦ load_loop fuel (add_event ss e) rest
  | err x ↦ err x
]

unfoldable pub load_bucket : List ℕ → Result Sessions
unfolding load_loop
load_bucket content = load_loop (length content) [] content
