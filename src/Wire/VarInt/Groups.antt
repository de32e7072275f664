-- ===== src/Wire/VarInt/Groups.antt =====
-- The groups of seven bits that the VarInt loops write, and that they read them back.
use mathlib.Core.WellFounded.{Acc}
use mcbenchmark.Prelude.{
  ℕ, zero, suc, ◌+◌, ◌-◌, ◌/◌, ◌%◌, ◌^◌, ◌<◌, ◌≡◌, List, [], ◌∷◌, ◌++◌, bit_and, bit_or, ltb,
  if◌then◌else◌, append_assoc, arith,
}
use mcbenchmark.Wire.VarInt.{put_groups}
use mcbenchmark.Prelude.Bits.{bit_and_7f, bit_or_80}

-- The groups of `u`, lowest first, for `u` below 128 ^ (k + 1).
unfoldable pub groups : ℕ → ℕ → List ℕ
groups zero u = u ∷ []
groups (suc k) u =
    let more = groups k (u / 128) in if ltb u 128 then u ∷ [] else (u % 128 + 128) ∷ more

last_group : (u : ℕ) → u < 128 → (u - bit_and u 0x7f ≡ 0) × (u % 256 ≡ u)
last_group u h = omega (arith, bit_and_7f u)

inner_group : (u : ℕ) → bit_or (bit_and u 0x7f) 0x80 % 256 ≡ u % 128 + 128
inner_group u = rw (bit_and_7f u) (omega (arith, bit_or_80 (u % 128) (omega arith)))

pub put_groups-groups :
    (k : ℕ) (dst : List ℕ) (u : ℕ) (w : Acc ◌<◌ u)
    → u < 128 ^ suc k
    → put_groups dst u w ≡ dst ++ groups k u
unfolding put_groups groups
put_groups-groups zero dst u (Acc.intro _ smaller) h = ground (arith, last_group u)
put_groups-groups (suc k) dst u (Acc.intro _ smaller) h =
    let head : List ℕ = (u % 128 + 128) ∷ [] in
    grind (
      arith,
      bit_and_7f u,
      last_group u,
      inner_group u,
      λ (w : Acc ◌<◌ (u / 128)). put_groups-groups k (dst ++ head) (u / 128) w (omega arith),
      append_assoc dst head (groups k (u / 128)),
    )
