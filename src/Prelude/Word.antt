-- ===== src/Prelude/Word.antt =====
-- Go's fixed-width integers: conversions between the signed values and the bit patterns that
-- `uint32(v)`, `int32(u)`, `uint64(v)` and `int64(u)` make.
use Prim.Native.Nat.{ℕ, ◌-◌, ◌*◌, ◌%◌, ◌^◌, ◌<◌}
use mathlib.Core.Path.{◌≡◌}
use native.Mathlib.Omega.{arith}
use mcbenchmark.Prelude.Tests.{ltb, if◌then◌else◌}
use mcbenchmark.Prelude.Int.{ℤ, pos, negsuc, ◌+ℤ◌, ◌-ℤ◌}

-- The bit pattern of an integer in a word of `m` values (`m` is a power of two).
abbrev pub to_word : ℕ → ℤ → ℕ
to_word m (pos n) = n % m
to_word m (negsuc n) = m - 1 - n % m

-- The integer that a bit pattern below `2 * h` stands for.
abbrev pub of_word : ℕ → ℕ → ℤ
of_word h u = if ltb u h then pos u else negsuc (2 * h - 1 - u)

unfoldable pub u32 : ℤ → ℕ
u32 v = to_word (2 ^ 32) v

unfoldable pub i32 : ℕ → ℤ
i32 u = of_word (2 ^ 31) (u % 2 ^ 32)

unfoldable pub u64 : ℤ → ℕ
u64 v = to_word (2 ^ 64) v

unfoldable pub i64 : ℕ → ℤ
i64 u = of_word (2 ^ 63) (u % 2 ^ 64)

abbrev pub Fits : ℕ → ℤ → Type 0
Fits h (pos n) = n < h
Fits h (negsuc n) = n < h

abbrev pub IsI32 : ℤ → Type 0
IsI32 v = Fits (2 ^ 31) v

abbrev pub IsI64 : ℤ → Type 0
IsI64 v = Fits (2 ^ 63) v

abbrev pub IsU32 : ℕ → Type 0
IsU32 u = u < 2 ^ 32

abbrev pub IsU64 : ℕ → Type 0
IsU64 u = u < 2 ^ 64

abbrev pub IsByte : ℕ → Type 0
IsByte b = b < 256

pub i32-u32 : (v : ℤ) → IsI32 v → i32 (u32 v) ≡ v
unfolding i32 u32
i32-u32 (pos n) h = ground arith
i32-u32 (negsuc n) h = ground arith

pub i64-u64 : (v : ℤ) → IsI64 v → i64 (u64 v) ≡ v
unfolding i64 u64
i64-u64 (pos n) h = ground arith
i64-u64 (negsuc n) h = ground arith

pub u32-i32 : (u : ℕ) → IsU32 u → u32 (i32 u) ≡ u
unfolding i32 u32
u32-i32 u h = ground arith

pub u64-i64 : (u : ℕ) → IsU64 u → u64 (i64 u) ≡ u
unfolding i64 u64
u64-i64 u h = ground arith

pub u32-IsU32 : (v : ℤ) → IsU32 (u32 v)
unfolding u32
u32-IsU32 (pos n) = omega arith
u32-IsU32 (negsuc n) = omega arith

pub u64-IsU64 : (v : ℤ) → IsU64 (u64 v)
unfolding u64
u64-IsU64 (pos n) = omega arith
u64-IsU64 (negsuc n) = omega arith

pub i32-IsI32 : (u : ℕ) → IsI32 (i32 u)
unfolding i32
i32-IsI32 u = ground arith

pub i64-IsI64 : (u : ℕ) → IsI64 (i64 u)
unfolding i64
i64-IsI64 u = ground arith

-- A length below 2 ^ 31 is its own int32.
pub i32_of_small : (n : ℕ) → n < 2 ^ 31 → i32 n ≡ pos n
unfolding i32
i32_of_small n h = ground arith

-- Sums and differences on int64 and int32 wrap.
unfoldable pub add_i64 : ℤ → ℤ → ℤ
unfolding u64 i64 ◌+ℤ◌
add_i64 a b = i64 (u64 (a +ℤ b))

unfoldable pub sub_i64 : ℤ → ℤ → ℤ
unfolding u64 i64 ◌-ℤ◌
sub_i64 a b = i64 (u64 (a -ℤ b))

-- Products wrap as those of the bit patterns do.
unfoldable pub mul_i64 : ℤ → ℤ → ℤ
unfolding u64 i64
mul_i64 a b = i64 (u64 a * u64 b)

unfoldable pub add_i32 : ℤ → ℤ → ℤ
unfolding u32 i32 ◌+ℤ◌
add_i32 a b = i32 (u32 (a +ℤ b))

pub add_i64-sub_i64 : (a b : ℤ) → IsI64 a → IsI64 b → add_i64 a (sub_i64 b a) ≡ b
unfolding add_i64 sub_i64
add_i64-sub_i64 a b ha hb = ground arith

pub sub_i64-IsI64 : (a b : ℤ) → IsI64 (sub_i64 a b)
sub_i64-IsI64 a b = unfold sub_i64 in i64-IsI64 _
