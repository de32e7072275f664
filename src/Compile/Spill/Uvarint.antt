-- ===== src/Compile/Spill/Uvarint.antt =====
-- `binary.PutUvarint` and `binary.ReadUvarint` of Go's standard library, on 64 bits.
use mcbenchmark.Prelude.{
  ℕ, zero, suc, ◌+◌, ◌*◌, ◌/◌, ◌%◌, ◌^◌, ◌≤◌, ◌<◌, ◌≡◌, ◌∙◌, ap, inl, inr, List, ◌∷◌, ◌++◌, bit_and,
  bit_or, ltb, ◌==◌, ◌&&◌, false, if◌then◌else◌, length, Bool-cases, ==_iff, lt→ltb, le→ltb, ltb→lt,
  arith,
}
use mcbenchmark.Wire.Reading.{ok, var_int_too_long, Reader, pure, fail, ◌>>=◌, Reads, >>=-ok}
use mcbenchmark.Wire.Bytes.{byte, byte_lem}
use mcbenchmark.Wire.VarInt.Groups.{groups}
use mcbenchmark.Wire.VarInt.RoundTrip.{joined, split_group, group_fits, length-groups}

-- `for x >= 0x80 { buf[i] = byte(x) | 0x80; x >>= 7; i++ }; buf[i] = byte(x)`
unfoldable pub put_uvarint : ℕ → List ℕ
unfolding groups
put_uvarint x = groups 9 x

-- `i` is the index of the byte, and `left` the bytes that may follow up to the tenth.
unfoldable pub read_uvarint_from : ℕ → ℕ → ℕ → Reader ℕ
read_uvarint_from zero i x = fail var_int_too_long
read_uvarint_from (suc left) i x = do
  b ← byte
  let x' = bit_or x (bit_and b 0x7f * 2 ^ (7 * i) % 2 ^ 64)
  let rest = read_uvarint_from left (i + 1) x'
  if ltb b 0x80 then if i == 9 && ltb 1 b then fail var_int_too_long else pure x' else rest

unfoldable pub read_uvarint : Reader ℕ
unfolding read_uvarint_from
read_uvarint = read_uvarint_from 10 0 0

-- In the tenth byte there is room for one bit.
tenth_fits : (i x w : ℕ) → x + w * 2 ^ (7 * i) < 2 ^ 64 → (i == 9 && ltb 1 w) ≡ false
tenth_fits i x w h = elim (Bool-cases (i == 9)) [
  | inl last ↦ rw last (le→ltb 1 w (omega (arith, small ((==_iff i 9).0 last))))
  | inr early ↦ rw early
]
  where
    small : i ≡ 9 → w ≤ 1
    small e = let room : x + w * 2 ^ (7 * 9) < 2 ^ 64 = rw e at h in omega arith

last_byte :
    (left i x w : ℕ) (rest : List ℕ)
    → w < 128
    → x < 2 ^ (7 * i)
    → x + w * 2 ^ (7 * i) < 2 ^ 64
    → read_uvarint_from (suc left) i x (w ∷ rest) ≡ ok (x + w * 2 ^ (7 * i), rest)
unfolding read_uvarint_from pure
last_byte left i x w rest hw hx fits =
    >>=-ok byte _ (byte_lem w rest)
    ∙ rw (lt→ltb w 128 hw, tenth_fits i x w fits, joined (2 ^ 64) i x w w (omega arith) hx fits)

inner_byte :
    (left i x g : ℕ) (rest : List ℕ)
    → g < 128
    → x < 2 ^ (7 * i)
    → x + g * 2 ^ (7 * i) < 2 ^ 64
    → read_uvarint_from (suc left) i x ((g + 128) ∷ rest)
      ≡ read_uvarint_from left (i + 1) (x + g * 2 ^ (7 * i)) rest
unfolding read_uvarint_from
inner_byte left i x g rest hg hx fits =
    >>=-ok byte _ (byte_lem (g + 128) rest)
    ∙ rw (le→ltb (g + 128) 128 (omega arith), joined (2 ^ 64) i x (g + 128) g (omega arith) hx fits)

read_uvarint_from-groups :
    (k left i x w : ℕ) (rest : List ℕ)
    → k < left
    → w < 128 ^ suc k
    → x < 2 ^ (7 * i)
    → x + w * 2 ^ (7 * i) < 2 ^ 64
    → read_uvarint_from left i x (groups k w ++ rest) ≡ ok (x + w * 2 ^ (7 * i), rest)
unfolding groups
read_uvarint_from-groups k zero i x w rest hk hw hx fits = absurd (omega arith)
read_uvarint_from-groups zero (suc left) i x w rest hk hw hx fits =
    last_byte left i x w rest (omega arith) hx fits
read_uvarint_from-groups (suc k) (suc left) i x w rest hk hw hx fits =
    elim (Bool-cases (ltb w 128)) [
      | inl small ↦ rw small (last_byte left i x w rest (ltb→lt w 128 small) hx fits)
      | inr large ↦ rw large (
          inner_byte left i x (w % 128) (groups k (w / 128) ++ rest) (omega arith) hx
            (omega (arith, split_group w i))
          ∙ read_uvarint_from-groups k left (i + 1) (x + w % 128 * 2 ^ (7 * i)) (w / 128) rest
              (omega arith) (omega arith) (group_fits i x (w % 128) hx (omega arith))
              (omega (arith, split_group w i))
          ∙ ap (λ t. ok (t, rest)) (omega (arith, split_group w i)))
    ]

pub uvarint-Reads : (x : ℕ) → x < 2 ^ 64 → Reads read_uvarint (put_uvarint x) x
unfolding read_uvarint put_uvarint
uvarint-Reads x h = record {
  reads = λ rest.
      read_uvarint_from-groups 9 10 0 0 x rest (omega arith) (omega arith) (omega arith)
        (omega arith)
      ∙ ap (λ t. ok (t, rest)) (omega arith);
}

pub length-put_uvarint : (x : ℕ) → 1 ≤ length (put_uvarint x)
unfolding put_uvarint
length-put_uvarint x = (length-groups 9 x).0
