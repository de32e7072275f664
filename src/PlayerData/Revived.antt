-- ===== src/PlayerData/Revived.antt =====
-- go/internal/playerdata/import.go: whom `importedNBT` revives.
use mcbenchmark.Prelude.{
  ℕ, ◌+◌, ◌*◌, ◌-◌, ◌^◌, ◌≡◌, ◌≢◌, Bool, not, ◌&&◌, ◌||◌, ltb, if◌then◌else◌, arith, refl, Option,
  none, some, bytes_eq, Bool-cases, inl, inr,
}
use mcbenchmark.Prelude.Text.{codes}
use mcbenchmark.Nbt.Model.{
  Value, byte, short, int, long, float, double, byte_array, text, list, compound, int_array,
  long_array, Fields,
}
use mcbenchmark.PlayerData.Fields.{get_field, get_field-set_field}
use mcbenchmark.PlayerData.Files.{full_health, not_positive, as_float, revive}

-- The bits of a float32 above 0, or of a NaN: no bit is set in 0, and -0 and the numbers below have the
-- sign bit and an exponent that is not above that of -∞.
unfoldable pub is_above_zero : ℕ → Bool
is_above_zero u = ltb 0 u && ltb u (2 ^ 31) || ltb (2 ^ 32 - 2 ^ 23) u

-- The bits of 20.0.
abbrev pub twenty : ℕ
twenty = 131 * 2 ^ 23 + 2 ^ 21

not_positive-eq : (u : ℕ) → not_positive u ≡ not (is_above_zero u)
unfolding not_positive is_above_zero
not_positive-eq u = ground arith

pub revive_float :
    (fs : Fields) (u : ℕ)
    → get_field fs (codes "Health") ≡ some (float u)
    → get_field (revive fs) (codes "Health") ≡ some (float (if is_above_zero u then u else twenty))
unfolding revive as_float bytes_eq
revive_float fs u h = elim (Bool-cases (is_above_zero u)) [
  | inl alive ↦ rw (revive, h, not_positive-eq u, alive) h
  | inr dead ↦
      rw (revive, h, not_positive-eq u, dead)
        (get_field-set_field (codes "Health") (codes "Health") (float full_health) fs)
]

other_type : (v : Option Value) → ((u : ℕ) → v ≢ some (float u)) → as_float v ≡ none
unfolding as_float
other_type none h = refl
other_type (some (byte v)) h = refl
other_type (some (short v)) h = refl
other_type (some (int v)) h = refl
other_type (some (long v)) h = refl
other_type (some (float v)) h = absurd (h v refl)
other_type (some (double v)) h = refl
other_type (some (byte_array v)) h = refl
other_type (some (text v)) h = refl
other_type (some (list t v)) h = refl
other_type (some (compound v)) h = refl
other_type (some (int_array v)) h = refl
other_type (some (long_array v)) h = refl

pub revive_other :
    (fs : Fields) → ((u : ℕ) → get_field fs (codes "Health") ≢ some (float u)) → revive fs ≡ fs
unfolding revive
revive_other fs h = rw (revive, other_type (get_field fs (codes "Health")) h) refl
