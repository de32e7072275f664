-- ===== src/Wire/Fixed.antt =====
-- Fixed-width integers and floats, and length-prefixed strings. A float is its IEEE 754 bit
-- pattern: `math.Float32bits` and its inverse only reinterpret the bits.
pub mod RoundTrip
use mcbenchmark.Prelude.{
  ℕ, zero, suc, ◌+◌, ◌*◌, ◌/◌, ◌%◌, ◌^◌, ◌<◌, ◌≡◌, refl, ◌∙◌, ap, List, [], ◌∷◌, ◌++◌, length,
  length-append, arith,
}
use mcbenchmark.Prelude.Int.{ℤ, pos, negsuc}
use mcbenchmark.Prelude.Word.{
  u32, i32, u64, i64, IsI32, IsI64, IsU32, IsU64, i32-u32, i64-u64, u32-IsU32, u64-IsU64,
  i32_of_small,
}
use mcbenchmark.Wire.Reading.{
  ok, err, negative_length, Reader, pure, fail, ◌>>=◌, Reads, Reads-bind, Reads-last, Reads-pure,
}
use mcbenchmark.Wire.Bytes.{bytes, bytes-Reads}
use mcbenchmark.Wire.VarInt.{put_var_int, var_int}
use mcbenchmark.Wire.VarInt.RoundTrip.{var_int-Reads}

-- `binary.BigEndian` and `binary.LittleEndian`, on `k` bytes
unfoldable pub be : ℕ → ℕ → List ℕ
be zero u = []
be (suc k) u = be k (u / 256) ++ (u % 256 ∷ [])

unfoldable pub le : ℕ → ℕ → List ℕ
le zero u = []
le (suc k) u = u % 256 ∷ le k (u / 256)

unfoldable pub of_be_from : ℕ → List ℕ → ℕ
of_be_from acc [] = acc
of_be_from acc (b ∷ bs) = of_be_from (acc * 256 + b) bs

unfoldable pub of_be : List ℕ → ℕ
unfolding of_be_from
of_be bs = of_be_from 0 bs

unfoldable pub of_le : List ℕ → ℕ
of_le [] = 0
of_le (b ∷ bs) = b + 256 * of_le bs

-- `len(s)` as the int32 that `VarInt` is given
unfoldable pub len_i32 : List ℕ → ℤ
unfolding i32
len_i32 s = i32 (length s)

unfoldable pub put_int64_be : ℤ → List ℕ
unfolding be u64
put_int64_be v = be 8 (u64 v)

unfoldable pub put_int32_be : ℤ → List ℕ
unfolding be u32
put_int32_be v = be 4 (u32 v)

unfoldable pub put_uint16_be : ℕ → List ℕ
unfolding be
put_uint16_be v = be 2 v

unfoldable pub put_float32_be : ℕ → List ℕ
unfolding be
put_float32_be bits = be 4 bits

unfoldable pub put_float64_be : ℕ → List ℕ
unfolding be
put_float64_be bits = be 8 bits

unfoldable pub put_float32_le : ℕ → List ℕ
unfolding le
put_float32_le bits = le 4 bits

unfoldable pub put_string : List ℕ → List ℕ
unfolding put_var_int len_i32
put_string s = put_var_int (len_i32 s) ++ s

unfoldable pub int64_be : Reader ℤ
int64_be = do b ← bytes (pos 8); pure (i64 (of_be b))

unfoldable pub int32_be : Reader ℤ
int32_be = do b ← bytes (pos 4); pure (i32 (of_be b))

unfoldable pub float32_be : Reader ℕ
float32_be = do b ← bytes (pos 4); pure (of_be b)

unfoldable pub float64_be : Reader ℕ
float64_be = do b ← bytes (pos 8); pure (of_be b)

unfoldable pub float32_le : Reader ℕ
float32_le = do b ← bytes (pos 4); pure (of_le b)

-- The rest of `Reader.String` once the length is known.
unfoldable pub string_of_len : ℤ → Reader (List ℕ)
string_of_len (negsuc n) = fail negative_length
string_of_len (pos n) = do b ← bytes (pos n); pure b

unfoldable pub string : Reader (List ℕ)
string = do n ← var_int; string_of_len n
