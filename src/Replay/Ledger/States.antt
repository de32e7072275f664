-- ===== src/Replay/Ledger/States.antt =====
-- What the ledger knows of a position is the last state that was recorded for it.
use mcbenchmark.Prelude.{
  ℕ, ◌≡◌, inl, inr, refl, ◌∙◌, List, [], ◌∷◌, Option, none, some, true, ◌&&◌, if◌then◌else◌,
  Bool-cases, Option-cases, arith,
}
use mcbenchmark.Prelude.Int.{ℤ}
use mcbenchmark.Replay.Ledger.{
  Position, position_eq, Ledger, wants, set_min_section_y, apply_chunk, set, state_at, lookup,
  put_state,
}

-- A block update changes what is known of its own position, if the trace touches it, and of no other.
pub lookup-set :
    (l : Ledger) (p q : Position) (s : ℤ)
    → lookup (set l p s) q ≡ (if wants l p && position_eq p q then some s else lookup l q)
unfolding lookup set
lookup-set l p q s = elim (Bool-cases (wants l p)) [
  | inl tracked ↦ rw (tracked, state_at)
  | inr other ↦ rw other
]

-- The state that a chunk's entries give a position, the last one first.
unfoldable pub last_state : List (Position × ℤ) → Position → Option ℤ
last_state [] q = none
last_state ((p, s) ∷ states) q = elim (last_state states q) [
  | some t ↦ some t
  | none ↦ if position_eq p q then some s else none
]

written :
    (p : Position) (s : ℤ) (l : Ledger) (q : Position)
    → lookup (put_state l p s) q
      ≡ elim (if position_eq p q then some s else none) [ some t ↦ some t | none ↦ lookup l q ]
unfolding lookup state_at
written p s l q = elim (Bool-cases (position_eq p q)) [ inl same ↦ rw same | inr other ↦ rw other ]

-- A chunk gives each position the state that its entries name, and leaves the others as they were.
pub lookup-apply_chunk :
    (states : List (Position × ℤ)) (l : Ledger) (q : Position)
    → lookup (apply_chunk l states) q
      ≡ elim (last_state states q) [ some t ↦ some t | none ↦ lookup l q ]
unfolding apply_chunk last_state
lookup-apply_chunk [] l q = refl
lookup-apply_chunk ((p, s) ∷ states) l q =
    lookup-apply_chunk states (put_state l p s) q ∙ elim (Option-cases (last_state states q)) [
      | inl unnamed ↦ rw unnamed (written p s l q)
      | inr (t, named) ↦ rw named
    ]

-- Once the height of the world is known it stays as it is, whatever chunks follow.
pub set_min_section_y_fixed :
    (l : Ledger) (sections later : ℕ)
    → (set_min_section_y l sections).1 ≡ true
    → set_min_section_y (set_min_section_y l sections).0 later
      ≡ ((set_min_section_y l sections).0, true)
unfolding set_min_section_y
set_min_section_y_fixed l sections later h = ground arith
