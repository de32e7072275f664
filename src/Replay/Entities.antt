-- ===== src/Replay/Entities.antt =====
-- go/internal/replay/entities.go: the live entities a session has been told about. A Go map ranges in
-- an order of its own choosing; here it is a list, in any order. The lock is held for each method.
pub mod Nearest
use mcbenchmark.Prelude.{ℕ, List, [], ◌∷◌, Bool, true, false, ◌&&◌, if◌then◌else◌}
use mcbenchmark.Prelude.Int.{ℤ, pos, ◌==ℤ◌}
use mcbenchmark.Float.{Arithmetic, infinity, thirty_six}
use mcbenchmark.Packets.Parse.{AddEntity}

pub record TrackedEntity : Type 0 where
  pub type_id : ℤ
  pub x : ℕ
  pub y : ℕ
  pub z : ℕ

abbrev pub Tracker : Type 0
Tracker = List (ℤ × TrackedEntity)

-- `delete(t.byID, id)`
unfoldable pub forget : ℤ → Tracker → Tracker
forget id [] = []
forget id ((key, e) ∷ t) = let rest = forget id t in if key ==ℤ id then rest else (key, e) ∷ rest

unfoldable pub add : AddEntity → Tracker → Tracker
unfolding forget
add a t =
    (a.entity_id, record { type_id = a.type_id; x = a.x; y = a.y; z = a.z }) ∷ forget a.entity_id t

unfoldable pub remove : List ℤ → Tracker → Tracker
unfolding forget
remove [] t = t
remove (id ∷ ids) t = remove ids (forget id t)

-- The best entity so far: its squared distance, its id, and whether there is one.
pub record Best : Type 0 where
  pub distance : ℕ
  pub id : ℤ
  pub have : Bool

abbrev pub nobody : Best
nobody = record { distance = infinity; id = pos 0; have = false }

module _ (fl : Arithmetic) where
  abbrev pub squares : ℕ → ℕ → ℕ → ℕ
  squares dx dy dz = fl.add (fl.add (fl.mul dx dx) (fl.mul dy dy)) (fl.mul dz dz)

  -- `dx*dx + dy*dy + dz*dz`
  unfoldable pub distance_to : ℕ → ℕ → ℕ → TrackedEntity → ℕ
  distance_to x y z e = squares (fl.sub e.x x) (fl.sub e.y y) (fl.sub e.z z)

  -- `if d < best.distance { … }`
  unfoldable pub better : ℤ → ℕ → Best → Best
  better id d b = if fl.less d b.distance then record { distance = d; id = id; have = true } else b

  module _ (x y z : ℕ) (want_type : ℤ) where
    -- One entity of the range loop, for the exact and for the general match.
    unfoldable pub consider : ℤ × TrackedEntity → Best × Best → Best × Best
    unfolding distance_to better
    consider (id, e) (exact, any) =
        let d = distance_to x y z e in
        if fl.less thirty_six d
        then (exact, any)
        else (if e.type_id ==ℤ want_type then better id d exact else exact, better id d any)

    unfoldable pub search_from : Tracker → Best × Best → Best × Best
    unfolding consider
    search_from [] best = best
    search_from (entry ∷ t) best = search_from t (consider entry best)

    -- The id, whether its type is the one wanted, and whether there is one in range at all.
    unfoldable pub pick : Best × Best → ℤ × Bool × Bool
    pick (exact, any) =
        if exact.have
        then (exact.id, true, true)
        else if any.have
        then (any.id, false, true)
        else (pos 0, false, false)

    unfoldable pub nearest : Tracker → ℤ × Bool × Bool
    unfolding search_from pick
    nearest t = pick (search_from t (nobody, nobody))
