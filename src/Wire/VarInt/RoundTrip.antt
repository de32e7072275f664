-- ===== src/Wire/VarInt/RoundTrip.antt =====
-- What the VarInt and VarLong writers produce, and that the readers give it back.
use native.Mathlib.Numerals.{towards_suc}
use native.Mathlib.Nat.{div-add-mod, mod-eq_of_lt}
use mcbenchmark.Prelude.{
  ℕ, zero, suc, ◌+◌, ◌*◌, ◌/◌, ◌%◌, ◌^◌, ◌≤◌, ◌<◌, ◌≡◌, ◌∙◌, ap, inl, inr, List, [], ◌∷◌, ◌++◌,
  bit_and, bit_or, ltb, length, Bool-cases, arith,
}
use mcbenchmark.Prelude.Order.{lt_wf}
use mcbenchmark.Prelude.Bits.{bit_and_7f, bit_and_80, bit_or-shifted}
use mcbenchmark.Prelude.Int.{ℤ, negsuc}
use mcbenchmark.Prelude.Word.{
  u32, i32, u64, i64, IsI32, IsI64, i32-u32, i64-u64, u32-IsU32, u64-IsU64,
}
use mcbenchmark.Wire.Reading.{ok, err, short, pure, Reads, >>=-ok, >>=-err}
use mcbenchmark.Wire.Bytes.{byte, byte_lem, byte-nil}
use mcbenchmark.Wire.VarInt.{
  put_var_int, put_var_long, append_var_int, read_groups, var_int, var_long,
}
use mcbenchmark.Wire.VarInt.Groups.{groups, put_groups-groups}

pub put_var_int-groups : (v : ℤ) → put_var_int v ≡ groups 4 (u32 v)
unfolding put_var_int
put_var_int-groups v =
    put_groups-groups 4 [] (u32 v) (lt_wf.apply (u32 v)) (omega (arith, u32-IsU32 v))

pub put_var_long-groups : (v : ℤ) → put_var_long v ≡ groups 9 (u64 v)
unfolding put_var_long
put_var_long-groups v =
    put_groups-groups 9 [] (u64 v) (lt_wf.apply (u64 v)) (omega (arith, u64-IsU64 v))

-- `append_var_int` keeps the destination and adds what the writer's method would.
pub append_var_int-eq-append : (dst : List ℕ) (v : ℤ) → append_var_int dst v ≡ dst ++ put_var_int v
unfolding append_var_int
append_var_int-eq-append dst v =
    rw put_var_int-groups
      (put_groups-groups 4 dst (u32 v) (lt_wf.apply (u32 v)) (omega (arith, u32-IsU32 v)))

pub top_clear : (w : ℕ) → w < 128 → bit_and w 0x80 ≡ 0
top_clear w h = omega (arith, bit_and_80 w (omega arith))

top_set : (g : ℕ) → g < 128 → bit_and (g + 128) 0x80 ≡ 128
top_set g h = omega (arith, bit_and_80 (g + 128) (omega arith))

-- The group of a byte, shifted into place, joins the groups below it.
pub joined :
    (m i u b g : ℕ)
    → b % 128 ≡ g
    → u < 2 ^ (7 * i)
    → u + g * 2 ^ (7 * i) < m
    → bit_or u (bit_and b 0x7f * 2 ^ (7 * i) % m) ≡ u + g * 2 ^ (7 * i)
joined m i u b g e hu fits =
    rw (bit_and_7f b, e, mod-eq_of_lt below) (bit_or-shifted (7 * i) u g hu)
  where
    below : g * 2 ^ (7 * i) < m
    below = omega arith

-- One round on a byte without the top bit ends the number.
last_round :
    (m left i u w : ℕ) (rest : List ℕ)
    → w < 128
    → u < 2 ^ (7 * i)
    → u + w * 2 ^ (7 * i) < m
    → read_groups m (suc left) i u (w ∷ rest) ≡ ok (u + w * 2 ^ (7 * i), rest)
unfolding read_groups pure
last_round m left i u w rest hw hu fits =
    >>=-ok byte _ (byte_lem w rest) ∙ rw (top_clear w hw, joined m i u w w (omega arith) hu fits)

inner_round :
    (m left i u g : ℕ) (rest : List ℕ)
    → g < 128
    → u < 2 ^ (7 * i)
    → u + g * 2 ^ (7 * i) < m
    → read_groups m (suc left) i u ((g + 128) ∷ rest)
      ≡ read_groups m left (i + 1) (u + g * 2 ^ (7 * i)) rest
unfolding read_groups
inner_round m left i u g rest hg hu fits =
    >>=-ok byte _ (byte_lem (g + 128) rest)
    ∙ rw (top_set g hg, joined m i u (g + 128) g (omega arith) hu fits)

pub next_shift : (i : ℕ) → 2 ^ (7 * (i + 1)) ≡ 128 * 2 ^ (7 * i)
next_shift i = ap (λ (k : ℕ). 2 ^ k) (seven i) ∙ simp towards_suc (omega arith)
  where
    seven : (j : ℕ) → 7 * (j + 1) ≡ 7 * j + 7
    seven j = omega arith

-- The lowest group of `w` and the others, in place.
pub split_group : (w i : ℕ) → w * 2 ^ (7 * i) ≡ w % 128 * 2 ^ (7 * i) + w / 128 * 2 ^ (7 * (i + 1))
split_group w i = omega (
  arith,
  ap (λ (t : ℕ). t * 2 ^ (7 * i)) (div-add-mod w 128),
  ap (λ (t : ℕ). w / 128 * t) (next_shift i),
)

pub group_fits : (i u g : ℕ) → u < 2 ^ (7 * i) → g < 128 → u + g * 2 ^ (7 * i) < 2 ^ (7 * (i + 1))
group_fits i u g hu hg = omega (arith, next_shift i, product)
  where
    product : g * 2 ^ (7 * i) ≤ 127 * 2 ^ (7 * i)
    product = grind arith

-- The reader has `u` already, and gets the groups of `w` from bit `7 * i` on.
read_groups-groups :
    (k m left i u w : ℕ) (rest : List ℕ)
    → k < left
    → w < 128 ^ suc k
    → u < 2 ^ (7 * i)
    → u + w * 2 ^ (7 * i) < m
    → read_groups m left i u (groups k w ++ rest) ≡ ok (u + w * 2 ^ (7 * i), rest)
unfolding groups
read_groups-groups k m zero i u w rest hk hw hu fits = absurd (omega arith)
read_groups-groups zero m (suc left) i u w rest hk hw hu fits =
    last_round m left i u w rest (omega arith) hu fits
read_groups-groups (suc k) m (suc left) i u w rest hk hw hu fits = elim (Bool-cases (ltb w 128)) [
  | inl small ↦ rw small (last_round m left i u w rest (ground arith) hu fits)
  | inr large ↦ rw large (
      inner_round m left i u (w % 128) (groups k (w / 128) ++ rest) (omega arith) hu
        (omega (arith, split_group w i))
      ∙ read_groups-groups k m left (i + 1) (u + w % 128 * 2 ^ (7 * i)) (w / 128) rest (omega arith)
          (omega arith) (group_fits i u (w % 128) hu (omega arith)) (omega (arith, split_group w i))
      ∙ ap (λ t. ok (t, rest)) (omega (arith, split_group w i)))
]

-- `VarInt` reads back every int32 that it wrote, and leaves what follows.
pub var_int-Reads : (v : ℤ) → IsI32 v → Reads var_int (put_var_int v) v
unfolding var_int pure
var_int-Reads v h = record {
  reads = λ rest. rw (put_var_int-groups v) (
      >>=-ok (read_groups (2 ^ 32) 5 0 0) (λ u. pure (i32 u))
        (read_groups-groups 4 (2 ^ 32) 5 0 0 (u32 v) rest (omega arith) (omega (arith, u32-IsU32 v))
          (omega arith) (omega (arith, u32-IsU32 v)))
      ∙ ap (λ t. ok (t, rest)) (ap i32 (omega arith) ∙ i32-u32 v h));
}

-- `VarLong` reads back every int64 that it wrote, and leaves what follows.
pub var_long-Reads : (v : ℤ) → IsI64 v → Reads var_long (put_var_long v) v
unfolding var_long pure
var_long-Reads v h = record {
  reads = λ rest. rw (put_var_long-groups v) (
      >>=-ok (read_groups (2 ^ 64) 10 0 0) (λ u. pure (i64 u))
        (read_groups-groups 9 (2 ^ 64) 10 0 0 (u64 v) rest (omega arith)
          (omega (arith, u64-IsU64 v)) (omega arith) (omega (arith, u64-IsU64 v)))
      ∙ ap (λ t. ok (t, rest)) (ap i64 (omega arith) ∙ i64-u64 v h));
}

pub length-groups : (k u : ℕ) → (1 ≤ length (groups k u)) × (length (groups k u) ≤ k + 1)
unfolding groups
length-groups zero u = omega arith
length-groups (suc k) u = ground (arith, length-groups k (u / 128))

length-groups_full : (u : ℕ) → 2 ^ 28 ≤ u → length (groups 4 u) ≡ 5
unfolding groups
length-groups_full u h = ground arith

-- A VarInt takes one to five bytes.
pub length-put_var_int : (v : ℤ) → (1 ≤ length (put_var_int v)) × (length (put_var_int v) ≤ 5)
length-put_var_int v = rw (put_var_int-groups v) (omega (arith, length-groups 4 (u32 v)))

-- The VarInt of a negative int32 always takes five bytes.
pub length-put_var_int_negative : (n : ℕ) → n < 2 ^ 31 → length (put_var_int (negsuc n)) ≡ 5
length-put_var_int_negative n h =
    rw (put_var_int-groups (negsuc n))
      (unfold u32 in length-groups_full (u32 (negsuc n)) (omega arith))

-- There is nothing to read at the end.
pub var_int-nil : var_int [] ≡ err short
unfolding var_int read_groups
var_int-nil = >>=-err _ _ (>>=-err byte _ byte-nil)
