-- ===== src/Prelude/Decimal.antt =====
-- Decimal digits, as bytes: what `strconv` and `fmt` read and write of a number.
use Prim.Native.Nat.{ℕ, zero, suc, ◌+◌, ◌-◌, ◌*◌, ◌/◌, ◌%◌, ◌^◌, ◌<◌, ◌≤◌}
use mathlib.Core.Path.{◌≡◌, refl}
use mathlib.Core.List.{List, [], ◌∷◌, ◌++◌}
use native.Mathlib.Nat.{pow-suc}
use native.Mathlib.Omega.{arith}
use mcbenchmark.Prelude.Tests.{ltb, if◌then◌else◌}
use mcbenchmark.Prelude.Lists.{length, length-append}

abbrev pub number_from : ℕ → List ℕ → ℕ
number_from n [] = n
number_from n (c ∷ cs) = number_from (n * 10 + (c - 48)) cs

-- Without its leading zeros: `fuel` digits at most.
abbrev pub digits_from : ℕ → ℕ → List ℕ
digits_from zero n = []
digits_from (suc fuel) n =
    let front = digits_from fuel (n / 10) in
    if ltb n 10 then (48 + n) ∷ [] else front ++ ((48 + n % 10) ∷ [])

pub number_from-append :
    (n : ℕ) (xs ys : List ℕ) → number_from n (xs ++ ys) ≡ number_from (number_from n xs) ys
number_from-append n [] ys = refl
number_from-append n (c ∷ xs) ys = number_from-append (n * 10 + (c - 48)) xs ys

-- Enough digits give the number back.
pub number_from-digits_from : (fuel n : ℕ) → n < 10 ^ fuel → number_from 0 (digits_from fuel n) ≡ n
number_from-digits_from zero n h = omega arith
number_from-digits_from (suc fuel) n h = ground (
  arith,
  pow-suc 10 fuel,
  number_from-append 0 (digits_from fuel (n / 10)) ((48 + n % 10) ∷ []),
  number_from-digits_from fuel (n / 10),
)

-- A number below 10 ^ k has k digits at most, where k is not 0.
pub length-digits_from : (fuel k n : ℕ) → n < 10 ^ suc k → length (digits_from fuel n) ≤ suc k
length-digits_from zero k n h = omega arith
length-digits_from (suc fuel) zero n h = ground arith
length-digits_from (suc fuel) (suc k) n h = ground (
  arith,
  pow-suc 10 (suc k),
  length-append (digits_from fuel (n / 10)) ((48 + n % 10) ∷ []),
  length-digits_from fuel k (n / 10),
)
