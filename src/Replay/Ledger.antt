-- ===== src/Replay/Ledger.antt =====
-- go/internal/replay/blocks.go: `blockLedger`, what a session knows of the blocks that its trace
-- touches, and `faceOffset` of go/internal/replay/session.go. A Go map is the list of its writes, the
-- last one first. The lock is held for the whole of each method; the run-wide counters are left out.
pub mod Positions
pub mod States
use mcbenchmark.Prelude.{
  ℕ, List, [], ◌∷◌, ◌++◌, Option, none, some, Bool, true, false, ◌&&◌, if◌then◌else◌, ◌==◌,
}
use mcbenchmark.Prelude.Int.{ℤ, pos, negsuc, ◌==ℤ◌}
use mcbenchmark.Prelude.Word.{add_i32}
use mcbenchmark.Wire.Reading.{ok, err}
use mcbenchmark.Event.Kind
use mcbenchmark.Payload.Block.{decode_dig, decode_place}
use mcbenchmark.Trace.Model.{TraceEvent}

-- `[3]int32`
abbrev pub Position : Type 0
Position = ℤ × ℤ × ℤ

unfoldable pub position_eq : Position → Position → Bool
position_eq (x, y, z) (a, b, c) = x ==ℤ a && (y ==ℤ b && z ==ℤ c)

pub record Ledger : Type 0 where
  pub want : List Position
  pub state : List (Position × ℤ)
  pub min_section_y : ℤ
  pub have_min_y : Bool

unfoldable pub face_offset : ℤ → Position
face_offset face =
    if face ==ℤ pos 0
    then (pos 0, negsuc 0, pos 0)
    else if face ==ℤ pos 1
    then (pos 0, pos 1, pos 0)
    else if face ==ℤ pos 2
    then (pos 0, pos 0, negsuc 0)
    else if face ==ℤ pos 3
    then (pos 0, pos 0, pos 1)
    else if face ==ℤ pos 4
    then (negsuc 0, pos 0, pos 0)
    else if face ==ℤ pos 5
    then (pos 1, pos 0, pos 0)
    else (pos 0, pos 0, pos 0)

-- `[3]int32{p.X + dx, p.Y + dy, p.Z + dz}`
unfoldable pub beside : Position → Position → Position
beside (x, y, z) (dx, dy, dz) = (add_i32 x dx, add_i32 y dy, add_i32 z dz)

-- The position that an event touches: the block dug, or the cell in front of the face built against.
unfoldable pub touched : TraceEvent → Option Position
unfolding face_offset beside
touched e =
    if e.kind ==ℤ Kind.dig
    then elim (decode_dig e.content) [ ok d ↦ some (d.x, d.y, d.z) | err x ↦ none ]
    else if e.kind ==ℤ Kind.place_block
    then elim (decode_place e.content) [
      | ok p ↦ some (beside (p.x, p.y, p.z) (face_offset p.face))
      | err x ↦ none
    ]
    else none

-- `want[k] = true`
abbrev add_position : Option Position → List Position → List Position
add_position none ps = ps
add_position (some p) ps = p ∷ ps

unfoldable pub wanted_from : List Position → List TraceEvent → List Position
unfolding touched
wanted_from ps [] = ps
wanted_from ps (e ∷ es) = wanted_from (add_position (touched e) ps) es

-- `if len(want) == 0 { return nil }`
abbrev pub ledger_of : List Position → Option Ledger
ledger_of [] = none
ledger_of (p ∷ ps) =
    some (record { want = p ∷ ps; state = []; min_section_y = pos 0; have_min_y = false })

unfoldable pub new_block_ledger : List TraceEvent → Option Ledger
unfolding wanted_from
new_block_ledger es = ledger_of (wanted_from [] es)

unfoldable pub has_position : List Position → Position → Bool
unfolding position_eq
has_position [] q = false
has_position (p ∷ ps) q = if position_eq p q then true else has_position ps q

unfoldable pub wants : Ledger → Position → Bool
unfolding has_position
wants l p = has_position l.want p

-- The new ledger, and whether the height of the world is known.
unfoldable pub set_min_section_y : Ledger → ℕ → Ledger × Bool
set_min_section_y l sections =
    let known : ℤ → Ledger × Bool = λ y.
      (record { want = l.want; state = l.state; min_section_y = y; have_min_y = true }, true) in
    if l.have_min_y
    then (l, true)
    else if sections == 24
    then known (negsuc 3)
    else if sections == 16
    then known (pos 0)
    else (l, false)

unfoldable pub min_y : Ledger → ℤ × Bool
min_y l = (l.min_section_y, l.have_min_y)

-- `l.state[p] = s`
abbrev pub put_state : Ledger → Position → ℤ → Ledger
put_state l p s = record {
  want = l.want;
  state = (p, s) ∷ l.state;
  min_section_y = l.min_section_y;
  have_min_y = l.have_min_y;
}

-- `for p, s := range c.States { l.state[p] = s }`
unfoldable pub apply_chunk : Ledger → List (Position × ℤ) → Ledger
apply_chunk l [] = l
apply_chunk l ((p, s) ∷ states) = apply_chunk (put_state l p s) states

unfoldable pub set : Ledger → Position → ℤ → Ledger
unfolding wants
set l p s = if wants l p then put_state l p s else l

unfoldable pub state_at : List (Position × ℤ) → Position → Option ℤ
unfolding position_eq
state_at [] q = none
state_at ((p, s) ∷ states) q = if position_eq p q then some s else state_at states q

unfoldable pub lookup : Ledger → Position → Option ℤ
unfolding state_at
lookup l p = state_at l.state p
