-- ===== src/Wire/VarInt.antt =====
-- VarInt and VarLong: `Writer.VarInt`, `Writer.VarLong`, `AppendVarInt`, `Reader.VarInt`,
-- `Reader.VarLong` and `ReadVarIntFrom`.
pub mod Groups
pub mod RoundTrip
use mathlib.Core.Logic.{dite}
use mathlib.Core.WellFounded.{Acc}
use mcbenchmark.Prelude.{
  ℕ, zero, suc, ◌+◌, ◌-◌, ◌*◌, ◌/◌, ◌%◌, ◌^◌, ◌<◌, ◌≡◌, ◌≢◌, List, [], ◌∷◌, ◌++◌, bit_and, bit_or,
  ◌==◌, if◌then◌else◌, ℕ_discrete, arith,
}
use mcbenchmark.Prelude.Bits.{bit_and_7f}
use mcbenchmark.Prelude.Order.{lt_wf}
use mcbenchmark.Prelude.Int.{ℤ}
use mcbenchmark.Prelude.Word.{u32, i32, u64, i64}
use mcbenchmark.Wire.Reading.{var_int_too_long, Reader, pure, fail, ◌>>=◌}
use mcbenchmark.Wire.Bytes.{byte}

-- `u &^ 0x7F`, the bits of `u` above the lowest seven
abbrev pub high_bits : ℕ → ℕ
high_bits u = u - bit_and u 0x7f

pub shift_shrinks : (u : ℕ) → high_bits u ≢ 0 → u / 128 < u
shift_shrinks u h = omega (arith, bit_and_7f u)

-- `for { if u&^0x7F == 0 { … return }; … ; u >>= 7 }`
unfoldable pub put_groups : List ℕ → (u : ℕ) → Acc ◌<◌ u → List ℕ
put_groups dst u (Acc.intro _ smaller) =
    dite (ℕ_discrete (high_bits u) 0) (λ last. dst ++ (u % 256 ∷ []))
      (λ more.
        put_groups (dst ++ (bit_or (bit_and u 0x7f) 0x80 % 256 ∷ [])) (u / 128)
          (smaller (u / 128) (shift_shrinks u more)))

unfoldable pub append_var_int : List ℕ → ℤ → List ℕ
unfolding put_groups lt_wf ℕ_discrete u32
append_var_int dst v = put_groups dst (u32 v) (lt_wf.apply (u32 v))

unfoldable pub put_var_int : ℤ → List ℕ
unfolding put_groups lt_wf ℕ_discrete u32
put_var_int v = put_groups [] (u32 v) (lt_wf.apply (u32 v))

unfoldable pub put_var_long : ℤ → List ℕ
unfolding put_groups lt_wf ℕ_discrete u64
put_var_long v = put_groups [] (u64 v) (lt_wf.apply (u64 v))

-- `for i := 0; i < limit; i++`, with `left` rounds to come; `m` is 2 ^ 32 or 2 ^ 64.
unfoldable pub read_groups : ℕ → ℕ → ℕ → ℕ → Reader ℕ
read_groups m zero i u = fail var_int_too_long
read_groups m (suc left) i u = do
  b ← byte
  let u' = bit_or u (bit_and b 0x7f * 2 ^ (7 * i) % m)
  let rest = read_groups m left (i + 1) u'
  if bit_and b 0x80 == 0 then pure u' else rest

unfoldable pub var_int : Reader ℤ
var_int = do u ← read_groups (2 ^ 32) 5 0 0; pure (i32 u)

unfoldable pub var_long : Reader ℤ
var_long = do u ← read_groups (2 ^ 64) 10 0 0; pure (i64 u)
