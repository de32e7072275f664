-- ===== src/Prelude/Bits.antt =====
-- The masks and shifts of the source as arithmetic.
use Prim.Native.Nat.{
  ℕ, zero, suc, ◌+◌, ◌-◌, ◌*◌, ◌/◌, ◌%◌, ◌^◌, ◌≤◌, ◌<◌, min, max, bit_and, bit_or, digits,
  bit_and-bitwise, bit_or-bitwise,
}
use mathlib.Core.Path.{◌≡◌, refl, sym, ap, ◌∙◌}
use native.Mathlib.Nat.{pow-suc, mod-add-div, add-mul-mod_self_left, mod-eq_of_lt, mod-lt}
use native.Mathlib.Omega.{arith}

-- The native operations stand for a recursion on binary digits. Rounds above the size of the first
-- number change nothing, whatever the operation does with two bits.
module _ (past : ℕ → ℕ) (bit : ℕ → ℕ → ℕ) where
  spare_rounds :
      (rounds more x y : ℕ)
      → x ≤ rounds
      → rounds ≤ more
      → digits past bit more x y ≡ digits past bit rounds x y
  spare_rounds zero zero x y enough le = refl
  spare_rounds zero (suc more) zero y enough le = refl
  spare_rounds zero (suc more) (suc x) y enough le = absurd (omega arith)
  spare_rounds (suc rounds) zero x y enough le = absurd (omega arith)
  spare_rounds (suc rounds) (suc more) zero y enough le = refl
  spare_rounds (suc rounds) (suc more) (suc x) y enough le =
      omega (arith, spare_rounds rounds more (suc x / 2) (y / 2) (omega arith) (omega arith))

bit_or-zero_left : (y : ℕ) → bit_or 0 y ≡ y
bit_or-zero_left y = bit_or-bitwise 0 y

bit_and-zero_left : (y : ℕ) → bit_and 0 y ≡ 0
bit_and-zero_left y = bit_and-bitwise 0 y

-- The lowest digit of a disjunction or a conjunction, and the others.
bit_or-halves : (x y : ℕ) → bit_or x y ≡ bit_or (x / 2) (y / 2) * 2 + max (x % 2) (y % 2)
bit_or-halves zero y = omega (arith, bit_or-zero_left y, bit_or-zero_left (y / 2))
bit_or-halves (suc x) y =
    let half = suc x / 2 in
    omega (
      arith,
      spare_rounds (λ rest. rest) max half x half (y / 2) (omega arith) (omega arith),
      bit_or-bitwise half (y / 2),
      bit_or-bitwise (suc x) y,
    )

bit_and-halves : (x y : ℕ) → bit_and x y ≡ bit_and (x / 2) (y / 2) * 2 + min (x % 2) (y % 2)
bit_and-halves zero y = omega (arith, bit_and-zero_left y, bit_and-zero_left (y / 2))
bit_and-halves (suc x) y =
    let half = suc x / 2 in
    omega (
      arith,
      spare_rounds (λ rest. 0) min half x half (y / 2) (omega arith) (omega arith),
      bit_and-bitwise half (y / 2),
      bit_and-bitwise (suc x) y,
    )

shifted_double : (k c : ℕ) → c * 2 ^ suc k ≡ c * 2 ^ k * 2
shifted_double k c = omega (arith, ap (λ (t : ℕ). c * t) (pow-suc 2 k))

half_shifted : (k c : ℕ) → c * 2 ^ suc k / 2 ≡ c * 2 ^ k
half_shifted k c = omega (arith, shifted_double k c)

-- Disjoint bit fields are joined by addition.
pub bit_or-shifted : (k a c : ℕ) → a < 2 ^ k → bit_or a (c * 2 ^ k) ≡ a + c * 2 ^ k
bit_or-shifted zero zero c h = omega (arith, bit_or-zero_left (c * 2 ^ 0))
bit_or-shifted zero (suc a) c h = absurd (omega arith)
bit_or-shifted (suc k) a c h = omega (
  arith,
  bit_or-halves a (c * 2 ^ suc k),
  ap (bit_or (a / 2)) (half_shifted k c),
  bit_or-shifted k (a / 2) c (omega (arith, pow-suc 2 k)),
  shifted_double k c,
)

pub bit_or-lt : (k a b : ℕ) → a < 2 ^ k → b < 2 ^ k → bit_or a b < 2 ^ k
bit_or-lt zero zero b h g = omega (arith, bit_or-zero_left b)
bit_or-lt zero (suc a) b h g = absurd (omega arith)
bit_or-lt (suc k) a b h g = omega (
  arith,
  pow-suc 2 k,
  bit_or-halves a b,
  bit_or-lt k (a / 2) (b / 2) (omega (arith, pow-suc 2 k)) (omega (arith, pow-suc 2 k)),
)

bit_and-zero : (bound x : ℕ) → x ≤ bound → bit_and x 0 ≡ 0
bit_and-zero bound zero h = bit_and-zero_left 0
bit_and-zero zero (suc x) h = absurd (omega arith)
bit_and-zero (suc bound) (suc x) h =
    omega (arith, bit_and-halves (suc x) 0, bit_and-zero bound (suc x / 2) (omega arith))

bit_and-odd : (x m : ℕ) → bit_and x (m * 2 + 1) ≡ bit_and (x / 2) m * 2 + x % 2
bit_and-odd x m =
    let half : (m * 2 + 1) / 2 ≡ m = omega arith in
    omega (arith, bit_and-halves x (m * 2 + 1), ap (bit_and (x / 2)) half)

bit_and-even : (x m : ℕ) → bit_and x (m * 2) ≡ bit_and (x / 2) m * 2
bit_and-even x m =
    let half : m * 2 / 2 ≡ m = omega arith in
    omega (arith, bit_and-halves x (m * 2), ap (bit_and (x / 2)) half)

bit_and_0f : (x : ℕ) → bit_and x 0xf ≡ x % 16
bit_and_0f x = omega (
  arith,
  bit_and-odd x 7,
  bit_and-odd (x / 2) 3,
  bit_and-odd (x / 2 / 2) 1,
  bit_and-odd (x / 2 / 2 / 2) 0,
  bit_and-zero (x / 2 / 2 / 2 / 2) (x / 2 / 2 / 2 / 2) (omega arith),
)

-- `u & 0x7F`
pub bit_and_7f : (x : ℕ) → bit_and x 0x7f ≡ x % 128
bit_and_7f x = omega (
  arith,
  bit_and-odd x 63,
  bit_and-odd (x / 2) 31,
  bit_and-odd (x / 2 / 2) 15,
  bit_and_0f (x / 2 / 2 / 2),
)

bit_and_10 : (x : ℕ) → bit_and x 0x10 ≡ x / 16 % 2 * 16
bit_and_10 x = omega (
  arith,
  bit_and-even x 8,
  bit_and-even (x / 2) 4,
  bit_and-even (x / 2 / 2) 2,
  bit_and-even (x / 2 / 2 / 2) 1,
  bit_and-odd (x / 2 / 2 / 2 / 2) 0,
  bit_and-zero (x / 2 / 2 / 2 / 2 / 2) (x / 2 / 2 / 2 / 2 / 2) (omega arith),
)

-- `b & 0x80`, on a byte
pub bit_and_80 : (x : ℕ) → x < 256 → bit_and x 0x80 ≡ x / 128 * 128
bit_and_80 x h = omega (
  arith,
  bit_and-even x 64,
  bit_and-even (x / 2) 32,
  bit_and-even (x / 2 / 2) 16,
  bit_and_10 (x / 2 / 2 / 2),
)

-- `g | 0x80`, on seven bits
pub bit_or_80 : (x : ℕ) → x < 128 → bit_or x 0x80 ≡ x + 128
bit_or_80 x h = bit_or-shifted 7 x 1 h

-- One digit more of a remainder.
mod-double : (x p : ℕ) → 1 ≤ p → x % (p * 2) ≡ x / 2 % p * 2 + x % 2
mod-double x p h =
    let half : ℕ = x / 2 / p in
    let whole : x ≡ x / 2 % p * 2 + x % 2 + p * 2 * half =
      omega (arith, ap (λ (t : ℕ). t * 2) (mod-add-div (x / 2) p), mul_swap p half) in
    ap (λ t. t % (p * 2)) whole
    ∙ add-mul-mod_self_left (x / 2 % p * 2 + x % 2) (p * 2) half
    ∙ mod-eq_of_lt (omega (arith, mod-lt (x / 2) {m = p} h))
  where
    mul_swap : (p q : ℕ) → p * 2 * q ≡ p * q * 2
    mul_swap p q = omega arith

pub two_pow_pos : (k : ℕ) → 1 ≤ 2 ^ k
two_pow_pos zero = omega arith
two_pow_pos (suc k) = omega (arith, pow-suc 2 k, two_pow_pos k)

-- `x & (1<<k - 1)`
pub bit_and-ones : (k x : ℕ) → bit_and x (2 ^ k - 1) ≡ x % 2 ^ k
bit_and-ones zero x = omega (arith, bit_and-zero x x (omega arith))
bit_and-ones (suc k) x =
    let mask : 2 ^ suc k - 1 ≡ (2 ^ k - 1) * 2 + 1 = omega (arith, pow-suc 2 k, two_pow_pos k) in
    ap (bit_and x) mask
    ∙ bit_and-odd x (2 ^ k - 1)
    ∙ ap (λ t. t * 2 + x % 2) (bit_and-ones k (x / 2))
    ∙ sym (mod-double x (2 ^ k) (two_pow_pos k))
    ∙ ap (λ t. x % t) (sym (pow-suc 2 k))

bit_or-zero_right : (bound x : ℕ) → x ≤ bound → bit_or x 0 ≡ x
bit_or-zero_right bound zero h = bit_or-zero_left 0
bit_or-zero_right zero (suc x) h = absurd (omega arith)
bit_or-zero_right (suc bound) (suc x) h =
    omega (arith, bit_or-halves (suc x) 0, bit_or-zero_right bound (suc x / 2) (omega arith))

bit_or_comm_below : (bound x y : ℕ) → x ≤ bound → bit_or x y ≡ bit_or y x
bit_or_comm_below bound zero y h =
    omega (arith, bit_or-zero_left y, bit_or-zero_right y y (omega arith))
bit_or_comm_below zero (suc x) y h = absurd (omega arith)
bit_or_comm_below (suc bound) (suc x) y h = omega (
  arith,
  bit_or-halves (suc x) y,
  bit_or-halves y (suc x),
  bit_or_comm_below bound (suc x / 2) (y / 2) (omega arith),
)

-- Disjoint bit fields, the higher one first.
pub bit_or-joined : (k a c : ℕ) → a < 2 ^ k → bit_or (c * 2 ^ k) a ≡ c * 2 ^ k + a
bit_or-joined k a c h =
    omega (arith, bit_or_comm_below (c * 2 ^ k) (c * 2 ^ k) a (omega arith), bit_or-shifted k a c h)
