-- ===== src/Nbt/RoundTrip/Numbers.antt =====
-- go/internal/nbt/nbt.go: the numbers, texts and arrays of the writer are read back.
use mcbenchmark.Prelude.{ℕ, ◌<◌, ◌^◌, ◌≡◌, List, [], ◌∷◌, All, length, arith}
use mcbenchmark.Prelude.Int.{ℤ, pos, negsuc}
use mcbenchmark.Prelude.Word.{
  u32, u64, i32-u32, i64-u64, u32-IsU32, u64-IsU64, i32, i64, IsI32, IsI64, Fits, to_word, of_word,
}
use mcbenchmark.Wire.Reading.{pure, ◌>>=◌, Reads, Reads-bind, Reads-last, Reads-pure}
use mcbenchmark.Wire.Bytes.{bytes-Reads}
use mcbenchmark.Wire.Fixed.{be, of_be}
use mcbenchmark.Wire.Fixed.RoundTrip.{length-be, of_be-be}
use mcbenchmark.Nbt.Writing.{put_u16, put_i32, put_i64, put_text, put_ints, put_longs}
use mcbenchmark.Nbt.Reading.{
  take_bytes, be_number, be_int, be_long, read_text, read_ints, read_longs,
}

pub take_bytes-Reads : (xs : List ℕ) → Reads (take_bytes (pos (length xs))) xs xs
unfolding take_bytes
take_bytes-Reads xs = bytes-Reads xs

pub be_number-Reads : (k u : ℕ) → u < 256 ^ k → Reads (be_number k) (be k u) u
unfolding be_number
be_number-Reads k u h = rw (of_be-be k u h) at (
    Reads-last (λ b. pure (of_be b)) (rw (length-be k u) at (take_bytes-Reads (be k u))) Reads-pure)

-- A number that is read to a value of its own.
pub number_to-Reads {ℓ} :
    {A : Type ℓ} (k u : ℕ) (f : ℕ → A) {a : A}
    → u < 256 ^ k
    → f u ≡ a
    → Reads (do n ← be_number k; pure (f n)) (be k u) a
number_to-Reads k u f h e =
    rw e at (Reads-last (λ n. pure (f n)) (be_number-Reads k u h) (Reads-pure {a = f u}))

pub be_int-Reads : (v : ℤ) → IsI32 v → Reads be_int (put_i32 v) v
unfolding be_int put_i32 u32
be_int-Reads v h = number_to-Reads 4 (u32 v) i32 (omega (arith, u32-IsU32 v)) (i32-u32 v h)

pub be_long-Reads : (v : ℤ) → IsI64 v → Reads be_long (put_i64 v) v
unfolding be_long put_i64 u64
be_long-Reads v h = number_to-Reads 8 (u64 v) i64 (omega (arith, u64-IsU64 v)) (i64-u64 v h)

pub read_text-Reads : (s : List ℕ) → length s < 2 ^ 16 → Reads read_text (put_text s) s
unfolding read_text put_text put_u16
read_text-Reads s h =
    Reads-bind (λ n. take_bytes (pos n)) (be_number-Reads 2 (length s) (omega arith))
      (take_bytes-Reads s)

pub read_ints-Reads : (vs : List ℤ) → All IsI32 vs → Reads (read_ints (length vs)) (put_ints vs) vs
unfolding read_ints put_ints
read_ints-Reads [] h = Reads-pure
read_ints-Reads (v ∷ vs) h =
    Reads-bind _ (be_int-Reads v h.0) (Reads-last _ (read_ints-Reads vs h.1) Reads-pure)

pub read_longs-Reads :
    (vs : List ℤ) → All IsI64 vs → Reads (read_longs (length vs)) (put_longs vs) vs
unfolding read_longs put_longs
read_longs-Reads [] h = Reads-pure
read_longs-Reads (v ∷ vs) h =
    Reads-bind _ (be_long-Reads v h.0) (Reads-last _ (read_longs-Reads vs h.1) Reads-pure)

pub int8_lem : (v : ℤ) → Fits 128 v → of_word 128 (to_word 256 v) ≡ v
int8_lem (pos n) h = ground arith
int8_lem (negsuc n) h = ground arith

pub int16_lem : (v : ℤ) → Fits 32768 v → of_word 32768 (to_word 65536 v) ≡ v
int16_lem (pos n) h = ground arith
int16_lem (negsuc n) h = ground arith

pub to_word8_lem : (v : ℤ) → to_word 256 v < 256
to_word8_lem (pos n) = omega arith
to_word8_lem (negsuc n) = omega arith

pub to_word16_lem : (v : ℤ) → to_word 65536 v < 65536
to_word16_lem (pos n) = omega arith
to_word16_lem (negsuc n) = omega arith
