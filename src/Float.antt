-- ===== src/Float.antt =====
-- Go's float64 arithmetic on IEEE 754 bit patterns is not part of the repository: the conversions
-- and sums that the code relies on are parameters, and give 64-bit patterns.
use mcbenchmark.Prelude.{ℕ, Bool, true, false, ◌≡◌}
use mcbenchmark.Prelude.Int.{ℤ}
use mcbenchmark.Prelude.Word.{IsU64}

pub record Floats : Type 0 where
  pub of_i32 : ℤ → ℕ
  pub add : ℕ → ℕ → ℕ
  pub of_i32_fits : (v : ℤ) → IsU64 (of_i32 v)
  pub add_fits : (a b : ℕ) → IsU64 (add a b)

-- 0.5 and 1.0 as bit patterns; the zero of both widths is 0.
abbrev pub half : ℕ
half = 0x3fe0_0000_0000_0000

abbrev pub one : ℕ
one = 0x3ff0_0000_0000_0000

-- The float arithmetic of a replay session, on bit patterns: `float64(f)`, sums, differences and
-- products of float64, sums of float32, and `a < b` and `a <= b` on float64; `<` is a
-- strict order.
pub record Arithmetic : Type 0 where
  pub widen : ℕ → ℕ
  pub add : ℕ → ℕ → ℕ
  pub sub : ℕ → ℕ → ℕ
  pub mul : ℕ → ℕ → ℕ
  pub add_32 : ℕ → ℕ → ℕ
  pub less : ℕ → ℕ → Bool
  pub at_most : ℕ → ℕ → Bool
  pub less_irrefl : (a : ℕ) → less a a ≡ false
  pub less_trans : (a b c : ℕ) → less a b ≡ true → less b c ≡ true → less a c ≡ true

-- `math.Inf(1)`, 36.0, 64.0, 16.0 and 1.62
abbrev pub infinity : ℕ
infinity = 0x7ff0_0000_0000_0000

abbrev pub thirty_six : ℕ
thirty_six = 0x4042_0000_0000_0000

abbrev pub sixty_four : ℕ
sixty_four = 0x4050_0000_0000_0000

abbrev pub eye_height : ℕ
eye_height = 0x3ff9_eb85_1eb8_51ec
