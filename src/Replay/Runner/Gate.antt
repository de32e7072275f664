-- ===== src/Replay/Runner/Gate.antt =====
-- go/internal/replay/util.go: `rateGate`, which spaces the launches. A time is a number of nanoseconds;
-- while the ramp runs, `stop` is not closed.
use mcbenchmark.Prelude.{
  ℕ, suc, ◌+◌, ◌*◌, ◌/◌, ◌≤◌, ◌≡◌, List, [], ◌∷◌, Option, none, some, if◌then◌else◌, ltb,
  Bool-cases, inl, inr, zero, refl, arith, get_elem?,
}
use mcbenchmark.Prelude.Int.{ℤ, pos, negsuc}

pub record RateGate : Type 0 where
  pub interval : ℕ
  pub next : Option ℕ

-- `perSecond` below 1 counts as 1.
unfoldable pub interval_of : ℤ → ℕ
interval_of (pos (suc n)) = 1000000000 / suc n
interval_of (pos zero) = 1000000000
interval_of (negsuc n) = 1000000000

unfoldable pub new_rate_gate : ℤ → RateGate
unfolding interval_of
new_rate_gate per_second = record { interval = interval_of per_second; next = none }

-- `wait`, called at the time `now`: when it returns, and the gate then. A timer fires `late` after
-- the time that it was set to.
unfoldable pub wait : ℕ → ℕ → RateGate → ℕ × RateGate
wait now late g = elim g.next [
  | none ↦ (now, record g { next = some (now + g.interval) })
  | some next ↦
      if ltb next now
      then (now, record g { next = some (now + g.interval) })
      else (next + late, record g { next = some (next + g.interval) })
]

-- The times at which the calls of `wait` return.
unfoldable pub releases : RateGate → List (ℕ × ℕ) → List ℕ
unfolding wait
releases g [] = []
releases g ((now, late) ∷ calls) = let (t, g') = wait now late g in t ∷ releases g' calls

abbrev at_slot : ℕ → ℕ → RateGate
at_slot interval slot = record { interval = interval; next = some slot }

-- A call returns at the slot or later, and moves it by an interval or more.
wait_slot :
    (interval slot now late : ℕ)
    → (slot' : ℕ) × (slot + interval ≤ slot')
      × (slot ≤ (wait now late (at_slot interval slot)).0)
      × ((wait now late (at_slot interval slot)).1 ≡ at_slot interval slot')
unfolding wait
wait_slot interval slot now late = elim (Bool-cases (ltb slot now)) [
  | inl after ↦ (now + interval, ground arith, ground arith, rw after refl)
  | inr before ↦ (slot + interval, omega arith, ground arith, rw before refl)
]

-- The calls return at the slot and an interval later for each call before them, at the earliest.
releases_slot :
    (interval slot : ℕ) (calls : List (ℕ × ℕ)) (k : ℕ) {t : ℕ}
    → get_elem? (releases (at_slot interval slot) calls) k ≡ some t
    → slot + k * interval ≤ t
unfolding releases
releases_slot interval slot [] k h = cc h
releases_slot interval slot ((now, late) ∷ calls) zero h =
    ground (arith, wait_slot interval slot now late)
releases_slot interval slot ((now, late) ∷ calls) (suc k) h =
    let (slot', later, _, e) = wait_slot interval slot now late in
    let ih = releases_slot interval slot' calls k (rw e at h) in grind arith

-- The k-th launch after the first comes k intervals after it or later, whenever the gate is asked and
-- however late its timers fire; the interval is a second divided by the launches per second.
pub releases-spaced :
    (per_second : ℤ) (calls : List (ℕ × ℕ)) (k : ℕ) {first t : ℕ}
    → get_elem? (releases (new_rate_gate per_second) calls) 0 ≡ some first
    → get_elem? (releases (new_rate_gate per_second) calls) k ≡ some t
    → first + k * interval_of per_second ≤ t
unfolding new_rate_gate releases wait
releases-spaced per_second [] k h g = cc h
releases-spaced per_second ((now, late) ∷ calls) zero h g = ground arith
releases-spaced per_second ((now, late) ∷ calls) (suc k) h g =
    let slot = releases_slot (interval_of per_second) (now + interval_of per_second) calls k g in
    grind arith
