-- ===== src/Packets/Position.antt =====
-- go/internal/mcproto/packets.go: `blockPos` packs the coordinates of a block into one 64-bit word, 26
-- bits of x, 26 of z and 12 of y, and `unpackBlockPos` takes them apart. The bit operations of Go's
-- signed types are those of the bit patterns; `>>` on a signed number rounds down.
use Prim.Native.Nat.{◌/◌, ◌%◌}
use mcbenchmark.Prelude.{ℕ, ◌+◌, ◌*◌, ◌-◌, ◌^◌, ◌≤◌, ◌<◌, ◌≡◌, ap, ◌∙◌, bit_and, bit_or, arith}
use mcbenchmark.Prelude.Bits.{bit_and-ones, bit_or-joined}
use mcbenchmark.Prelude.Int.{ℤ, pos, negsuc}
use mcbenchmark.Prelude.Word.{i32, u64, i64, Fits, i64-IsI64}

-- `v << k`, on an int64
unfoldable pub shift_left : ℤ → ℕ → ℤ
unfolding i64 u64
shift_left v k = i64 (u64 v * 2 ^ k)

-- `v >> k`
unfoldable pub shift_right : ℤ → ℕ → ℤ
shift_right (pos n) k = pos (n / 2 ^ k)
shift_right (negsuc n) k = negsuc (n / 2 ^ k)

-- `v & mask`, for a mask that is not negative
unfoldable pub masked : ℤ → ℕ → ℕ
unfolding u64
masked v mask = bit_and (u64 v) mask

unfoldable pub block_pos : ℤ → ℤ → ℤ → ℤ
unfolding masked i64
block_pos x y z =
    i64
      (bit_or (bit_or (masked x 0x3ffffff * 2 ^ 38) (masked z 0x3ffffff * 2 ^ 12)) (masked y 0xfff))

-- `shift := 64 - bits; (v << shift) >> shift`
unfoldable pub sign_extend : ℤ → ℕ → ℤ
unfolding shift_left shift_right
sign_extend v bits = shift_right (shift_left v (64 - bits)) (64 - bits)

-- `int32(v)`, of an int64
unfoldable pub to_i32 : ℤ → ℤ
unfolding i32 u64
to_i32 v = i32 (u64 v)

unfoldable pub unpack_block_pos : ℤ → ℤ × ℤ × ℤ
unfolding sign_extend to_i32 masked shift_right
unpack_block_pos v = (
  to_i32 (sign_extend (shift_right v 38) 26),
  to_i32 (sign_extend (pos (masked v 0xfff)) 12),
  to_i32 (sign_extend (pos (masked (shift_right v 12) 0x3ffffff)) 26),
)

-- The three fields of the word.
low_26 : (v : ℤ) → masked v 0x3ffffff ≡ u64 v % 2 ^ 26
unfolding masked
low_26 v = bit_and-ones 26 (u64 v)

low_12 : (v : ℤ) → masked v 0xfff ≡ u64 v % 2 ^ 12
unfolding masked
low_12 v = bit_and-ones 12 (u64 v)

joined :
    (a c y : ℕ)
    → c < 2 ^ 26
    → y < 2 ^ 12
    → bit_or (bit_or (a * 2 ^ 38) (c * 2 ^ 12)) y ≡ (a * 2 ^ 26 + c) * 2 ^ 12 + y
joined a c y hc hy =
    let high : bit_or (a * 2 ^ 38) (c * 2 ^ 12) ≡ (a * 2 ^ 26 + c) * 2 ^ 12 =
      omega (arith, bit_or-joined 38 (c * 2 ^ 12) a (omega arith)) in
    ap (λ t. bit_or t y) high ∙ bit_or-joined 12 y (a * 2 ^ 26 + c) hy

module _ (x y z : ℤ) where
  block_pos_word :
      block_pos x y z ≡ i64 ((u64 x % 2 ^ 26 * 2 ^ 26 + u64 z % 2 ^ 26) * 2 ^ 12 + u64 y % 2 ^ 12)
  unfolding block_pos
  block_pos_word =
      rw (low_26 x, low_26 z, low_12 y)
        (ap i64
          (joined (u64 x % 2 ^ 26) (u64 z % 2 ^ 26) (u64 y % 2 ^ 12) (omega arith) (omega arith)))

-- A field of `bits` digits reads as the signed number it was cut from.
x_field :
    (x : ℤ) (rest : ℕ)
    → Fits (2 ^ 25) x
    → rest < 2 ^ 38
    → sign_extend (shift_right (i64 (u64 x % 2 ^ 26 * 2 ^ 38 + rest)) 38) 26 ≡ x
unfolding sign_extend shift_left shift_right i64 u64
x_field (pos x) rest hx hr = ground arith
x_field (negsuc x) rest hx hr = ground arith

z_field :
    (z : ℤ) (high y : ℕ)
    → Fits (2 ^ 25) z
    → high < 2 ^ 26
    → y < 2 ^ 12
    → sign_extend
        (pos
          (masked (shift_right (i64 ((high * 2 ^ 26 + u64 z % 2 ^ 26) * 2 ^ 12 + y)) 12) 0x3ffffff))
        26
      ≡ z
z_field z high y hz hh hy =
    rw (low_26 (shift_right (i64 ((high * 2 ^ 26 + u64 z % 2 ^ 26) * 2 ^ 12 + y)) 12))
      (unsigned z high y hz hh hy)
  where
    unsigned :
        (z : ℤ) (high y : ℕ)
        → Fits (2 ^ 25) z
        → high < 2 ^ 26
        → y < 2 ^ 12
        → sign_extend
            (pos
              (u64 (shift_right (i64 ((high * 2 ^ 26 + u64 z % 2 ^ 26) * 2 ^ 12 + y)) 12) % 2 ^ 26))
            26
          ≡ z
    unsigned (pos z) high y hz hh hy =
        unfold sign_extend shift_left shift_right i64 u64 in ground arith
    unsigned (negsuc z) high y hz hh hy =
        unfold sign_extend shift_left shift_right i64 u64 in ground arith

y_field :
    (y : ℤ) (high : ℕ)
    → Fits (2 ^ 11) y
    → high < 2 ^ 52
    → sign_extend (pos (masked (i64 (high * 2 ^ 12 + u64 y % 2 ^ 12)) 0xfff)) 12 ≡ y
y_field y high hy hh = rw (low_12 (i64 (high * 2 ^ 12 + u64 y % 2 ^ 12))) (unsigned y high hy hh)
  where
    unsigned :
        (y : ℤ) (high : ℕ)
        → Fits (2 ^ 11) y
        → high < 2 ^ 52
        → sign_extend (pos (u64 (i64 (high * 2 ^ 12 + u64 y % 2 ^ 12)) % 2 ^ 12)) 12 ≡ y
    unsigned (pos y) high hy hh = unfold sign_extend shift_left shift_right i64 u64 in ground arith
    unsigned (negsuc y) high hy hh =
        unfold sign_extend shift_left shift_right i64 u64 in ground arith

to_i32_small : (h : ℕ) (v : ℤ) → Fits h v → h ≤ 2 ^ 31 → to_i32 v ≡ v
unfolding to_i32 i32 u64
to_i32_small h (pos n) f b = ground arith
to_i32_small h (negsuc n) f b = ground arith

module _ (x y z : ℤ) (hx : Fits (2 ^ 25) x) (hy : Fits (2 ^ 11) y) (hz : Fits (2 ^ 25) z) where
  word_x : sign_extend (shift_right (block_pos x y z) 38) 26 ≡ x
  word_x =
      let split : (u64 x % 2 ^ 26 * 2 ^ 26 + u64 z % 2 ^ 26) * 2 ^ 12 + u64 y % 2 ^ 12
          ≡ u64 x % 2 ^ 26 * 2 ^ 38 + (u64 z % 2 ^ 26 * 2 ^ 12 + u64 y % 2 ^ 12) =
        omega arith in
      ap (λ v. sign_extend (shift_right v 38) 26) (block_pos_word x y z ∙ ap i64 split)
      ∙ x_field x (u64 z % 2 ^ 26 * 2 ^ 12 + u64 y % 2 ^ 12) hx (omega arith)

  word_z : sign_extend (pos (masked (shift_right (block_pos x y z) 12) 0x3ffffff)) 26 ≡ z
  word_z =
      ap (λ v. sign_extend (pos (masked (shift_right v 12) 0x3ffffff)) 26) (block_pos_word x y z)
      ∙ z_field z (u64 x % 2 ^ 26) (u64 y % 2 ^ 12) hz (omega arith) (omega arith)

  word_y : sign_extend (pos (masked (block_pos x y z) 0xfff)) 12 ≡ y
  word_y =
      ap (λ v. sign_extend (pos (masked v 0xfff)) 12) (block_pos_word x y z)
      ∙ y_field y (u64 x % 2 ^ 26 * 2 ^ 26 + u64 z % 2 ^ 26) hy (omega arith)

  -- Coordinates of 26, 12 and 26 bits come out of the word that `blockPos` packs them into.
  pub unpack_block_pos-block_pos : unpack_block_pos (block_pos x y z) ≡ (x, y, z)
  unpack_block_pos-block_pos =
      unfold unpack_block_pos in
      λ i. (
        (ap to_i32 word_x ∙ to_i32_small (2 ^ 25) x hx (omega arith)) i,
        (ap to_i32 word_y ∙ to_i32_small (2 ^ 11) y hy (omega arith)) i,
        (ap to_i32 word_z ∙ to_i32_small (2 ^ 25) z hz (omega arith)) i,
      )

pub block_pos-IsI64 : (x y z : ℤ) → Fits (2 ^ 63) (block_pos x y z)
unfolding block_pos
block_pos-IsI64 x y z = i64-IsI64 _
