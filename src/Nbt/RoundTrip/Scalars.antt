-- ===== src/Nbt/RoundTrip/Scalars.antt =====
-- go/internal/nbt/nbt.go: the values that hold no other value are read back.
use mcbenchmark.Prelude.{ℕ, zero, suc, ◌≤◌, ◌<◌, ◌^◌, ◌≡◌, refl, List, All, length, arith}
use mcbenchmark.Prelude.Int.{ℤ, pos}
use mcbenchmark.Prelude.Word.{IsI32, IsI64, Fits, to_word, of_word}
use mcbenchmark.Wire.Reading.{Reads, Reads-bind, Reads-last, Reads-pure}
use mcbenchmark.Nbt.Model.{
  Value, byte, short, int, long, float, double, byte_array, text, int_array, long_array,
}
use mcbenchmark.Nbt.Writing.{put_u8, put_u16, put_value}
use mcbenchmark.Nbt.Reading.{read_scalar, read_array, shape_of, a_scalar, read_value}
use mcbenchmark.Nbt.RoundTrip.Numbers.{
  number_to-Reads, be_int-Reads, be_long-Reads, read_text-Reads, read_ints-Reads, read_longs-Reads,
  take_bytes-Reads, int8_lem, int16_lem, to_word8_lem, to_word16_lem,
}

-- A value that is read alone is read in one round.
pub scalar-Reads :
    (id : ℕ) {bs : List ℕ} {v : Value}
    → shape_of id ≡ a_scalar
    → Reads (read_scalar id) bs v
    → (fuel : ℕ) → 1 ≤ fuel
    → Reads (read_value fuel id) bs v
unfolding read_value
scalar-Reads id e r zero h = ground arith
scalar-Reads id e r (suc fuel) h = rw (read_value, e) r

module _ (v : ℤ) where
  pub byte-Reads : Fits 128 v → Reads (read_scalar 1) (put_value (byte v)) (byte v)
  unfolding read_scalar put_value put_u8
  byte-Reads h =
      number_to-Reads 1 (to_word 256 v) (λ u. byte (of_word 128 u)) (to_word8_lem v)
        (rw (int8_lem v h) refl)

  pub short-Reads : Fits 32768 v → Reads (read_scalar 2) (put_value (short v)) (short v)
  unfolding read_scalar put_value put_u16
  short-Reads h =
      number_to-Reads 2 (to_word 65536 v) (λ u. short (of_word 32768 u)) (to_word16_lem v)
        (rw (int16_lem v h) refl)

  pub int-Reads : IsI32 v → Reads (read_scalar 3) (put_value (int v)) (int v)
  unfolding read_scalar put_value
  int-Reads h = Reads-last _ (be_int-Reads v h) Reads-pure

  pub long-Reads : IsI64 v → Reads (read_scalar 4) (put_value (long v)) (long v)
  unfolding read_scalar put_value
  long-Reads h = Reads-last _ (be_long-Reads v h) Reads-pure

module _ (u : ℕ) where
  pub float-Reads : u < 2 ^ 32 → Reads (read_scalar 5) (put_value (float u)) (float u)
  unfolding read_scalar put_value
  float-Reads h = number_to-Reads 4 u float (omega arith) refl

  pub double-Reads : u < 2 ^ 64 → Reads (read_scalar 6) (put_value (double u)) (double u)
  unfolding read_scalar put_value
  double-Reads h = number_to-Reads 8 u double (omega arith) refl

module _ (bs : List ℕ) where
  pub byte_array-Reads :
      length bs < 2 ^ 31 → Reads (read_scalar 7) (put_value (byte_array bs)) (byte_array bs)
  unfolding read_scalar put_value
  byte_array-Reads h =
      Reads-bind _ (be_int-Reads (pos (length bs)) h)
        (Reads-last _ (take_bytes-Reads bs) Reads-pure)

  pub text-Reads : length bs < 2 ^ 16 → Reads (read_scalar 8) (put_value (text bs)) (text bs)
  unfolding read_scalar put_value
  text-Reads h = Reads-last _ (read_text-Reads bs h) Reads-pure

module _ (vs : List ℤ) (few : length vs < 2 ^ 31) where
  pub int_array-Reads :
      All IsI32 vs → Reads (read_scalar 11) (put_value (int_array vs)) (int_array vs)
  unfolding read_scalar put_value read_array
  int_array-Reads h =
      Reads-bind _ (be_int-Reads (pos (length vs)) few)
        (Reads-last _ (read_ints-Reads vs h) Reads-pure)

  pub long_array-Reads :
      All IsI64 vs → Reads (read_scalar 12) (put_value (long_array vs)) (long_array vs)
  unfolding read_scalar put_value read_array
  long_array-Reads h =
      Reads-bind _ (be_int-Reads (pos (length vs)) few)
        (Reads-last _ (read_longs-Reads vs h) Reads-pure)
