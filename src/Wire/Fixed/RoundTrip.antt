-- ===== src/Wire/Fixed/RoundTrip.antt =====
-- What the fixed-width and string writers produce is read back, whatever follows it.
use native.Mathlib.Nat.{pow-suc}
use mcbenchmark.Prelude.{
  ℕ, zero, suc, ◌+◌, ◌*◌, ◌/◌, ◌%◌, ◌^◌, ◌<◌, ◌≡◌, refl, ◌∙◌, ap, List, [], ◌∷◌, ◌++◌, length,
  length-append, arith,
}
use mcbenchmark.Prelude.Int.{ℤ, pos}
use mcbenchmark.Prelude.Word.{
  u32, i32, u64, i64, IsI32, IsI64, IsU32, IsU64, i32-u32, i64-u64, u32-IsU32, u64-IsU64,
  i32_of_small, i32-IsI32,
}
use mcbenchmark.Wire.Reading.{ok, Reader, Reads, Reads-bind, Reads-last, Reads-pure}
use mcbenchmark.Wire.Bytes.{bytes, bytes-Reads}
use mcbenchmark.Wire.VarInt.{put_var_int, var_int}
use mcbenchmark.Wire.VarInt.RoundTrip.{var_int-Reads}
use mcbenchmark.Wire.Fixed.{
  be, le, of_be_from, of_be, of_le, len_i32, put_int64_be, put_int32_be, put_float32_be,
  put_float64_be, put_float32_le, put_string, int64_be, int32_be, float32_be, float64_be,
  float32_le, string_of_len, string,
}

pub length-be : (k u : ℕ) → length (be k u) ≡ k
unfolding be
length-be zero u = refl
length-be (suc k) u =
    omega (arith, length-append (be k (u / 256)) (u % 256 ∷ []), length-be k (u / 256))

length-le : (k u : ℕ) → length (le k u) ≡ k
unfolding le
length-le zero u = refl
length-le (suc k) u = ap suc (length-le k (u / 256))

of_be_from-append :
    (acc : ℕ) (xs : List ℕ) (b : ℕ) → of_be_from acc (xs ++ (b ∷ [])) ≡ of_be_from acc xs * 256 + b
unfolding of_be_from
of_be_from-append acc [] b = refl
of_be_from-append acc (x ∷ xs) b = of_be_from-append (acc * 256 + x) xs b

pub of_be-be : (k u : ℕ) → u < 256 ^ k → of_be (be k u) ≡ u
unfolding of_be be
of_be-be zero u h = omega arith
of_be-be (suc k) u h = omega (
  arith,
  pow-suc 256 k,
  of_be_from-append 0 (be k (u / 256)) (u % 256),
  of_be-be k (u / 256) (omega (arith, pow-suc 256 k)),
)

pub of_le-le : (k u : ℕ) → u < 256 ^ k → of_le (le k u) ≡ u
unfolding of_le le
of_le-le zero u h = omega arith
of_le-le (suc k) u h =
    omega (arith, pow-suc 256 k, of_le-le k (u / 256) (omega (arith, pow-suc 256 k)))

-- `Bytes(k)` over the `k` bytes that a fixed-width writer appended.
be-Reads : (k u : ℕ) → Reads (bytes (pos k)) (be k u) (be k u)
be-Reads k u = rw (length-be k u) at (bytes-Reads (be k u))

le-Reads : (k u : ℕ) → Reads (bytes (pos k)) (le k u) (le k u)
le-Reads k u = rw (length-le k u) at (bytes-Reads (le k u))

Reads-eq {ℓ} :
    {A : Type ℓ} {m : Reader A} {xs : List ℕ} {a b : A} → a ≡ b → Reads m xs a → Reads m xs b
Reads-eq e r = record { reads = λ rest. r.reads rest ∙ ap (λ t. ok (t, rest)) e }

pub int64_be-Reads : (v : ℤ) → IsI64 v → Reads int64_be (put_int64_be v) v
unfolding int64_be put_int64_be
int64_be-Reads v h =
    Reads-eq (ap i64 (of_be-be 8 (u64 v) (omega (arith, u64-IsU64 v))) ∙ i64-u64 v h)
      (Reads-last _ (be-Reads 8 (u64 v)) Reads-pure)

pub int32_be-Reads : (v : ℤ) → IsI32 v → Reads int32_be (put_int32_be v) v
unfolding int32_be put_int32_be
int32_be-Reads v h =
    Reads-eq (ap i32 (of_be-be 4 (u32 v) (omega (arith, u32-IsU32 v))) ∙ i32-u32 v h)
      (Reads-last _ (be-Reads 4 (u32 v)) Reads-pure)

pub float32_be-Reads : (u : ℕ) → IsU32 u → Reads float32_be (put_float32_be u) u
unfolding float32_be put_float32_be
float32_be-Reads u h =
    Reads-eq (of_be-be 4 u (omega arith)) (Reads-last _ (be-Reads 4 u) Reads-pure)

pub float64_be-Reads : (u : ℕ) → IsU64 u → Reads float64_be (put_float64_be u) u
unfolding float64_be put_float64_be
float64_be-Reads u h =
    Reads-eq (of_be-be 8 u (omega arith)) (Reads-last _ (be-Reads 8 u) Reads-pure)

pub float32_le-Reads : (u : ℕ) → IsU32 u → Reads float32_le (put_float32_le u) u
unfolding float32_le put_float32_le
float32_le-Reads u h =
    Reads-eq (of_le-le 4 u (omega arith)) (Reads-last _ (le-Reads 4 u) Reads-pure)

-- A count below 2 ^ 31 is written as an int32 and read back as itself.
pub count-Reads : (n : ℕ) → n < 2 ^ 31 → Reads var_int (put_var_int (i32 n)) (pos n)
count-Reads n h = Reads-eq (i32_of_small n h) (var_int-Reads (i32 n) (i32-IsI32 n))

-- The length of a list that an int32 can hold is written and read back as itself.
pub len_i32-Reads :
    (s : List ℕ) → length s < 2 ^ 31 → Reads var_int (put_var_int (len_i32 s)) (pos (length s))
unfolding len_i32
len_i32-Reads s h = count-Reads (length s) h

string_of_len-Reads : (s : List ℕ) → Reads (string_of_len (pos (length s))) s s
unfolding string_of_len
string_of_len-Reads s = Reads-last _ (bytes-Reads s) Reads-pure

-- A string of fewer than 2^31 bytes is read back from its length prefix and its bytes, and what
-- follows is left.
pub string-Reads : (s : List ℕ) → length s < 2 ^ 31 → Reads string (put_string s) s
unfolding string put_string
string-Reads s h = Reads-bind string_of_len (len_i32-Reads s h) (string_of_len-Reads s)
