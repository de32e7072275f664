-- ===== src/Replay/Ledger/Positions.antt =====
-- The ledger of a trace tracks the positions that its events touch, and no others.
use mcbenchmark.Prelude.{
  ◌≡◌, ◌↔◌, inl, inr, refl, sym, ap, ◌∙◌, List, [], ◌∷◌, Option, none, some, Bool, true, false, ℕ,
  ◌/◌, ◌%◌, ◌==◌, ◌&&◌, ◌⊎◌, Bool-cases, ◌||◌, if◌then◌else◌, Option-cases, arith,
}
use mcbenchmark.Prelude.Int.{ℤ, pos, negsuc, ◌==ℤ◌, ==ℤ_iff}
use mcbenchmark.Prelude.Word.{add_i32}
use mcbenchmark.Wire.Reading.{Result, Error, ok, err}
use mcbenchmark.Event.Kind
use mcbenchmark.Payload.Block.{decode_dig, decode_place}
use mcbenchmark.Trace.Model.{TraceEvent}
use mcbenchmark.Replay.Ledger.{
  Position, position_eq, face_offset, beside, Ledger, touched, wanted_from, new_block_ledger,
  has_position, wants, ledger_of,
}

pub position_eq_iff : (p q : Position) → (position_eq p q ≡ true) ↔ (p ≡ q)
unfolding position_eq
position_eq_iff (x, y, z) (a, b, c) = ground (arith, ==ℤ_iff x a, ==ℤ_iff y b, ==ℤ_iff z c)

abbrev named : Option Position → Position → Bool
named none q = false
named (some p) q = position_eq p q

-- The cell in front of a face of a block: the faces 0 to 5 stand in pairs across y, z and x, the first of
-- a pair on the side of the smaller coordinate.
unfoldable pub in_front : ℤ → Position → Position
in_front (negsuc n) (x, y, z) = (add_i32 x (pos 0), add_i32 y (pos 0), add_i32 z (pos 0))
in_front (pos n) (x, y, z) =
    let one : ℤ = if n % 2 == 0 then negsuc 0 else pos 1 in
    let on : ℕ → ℤ = λ axis. if n / 2 == axis then one else pos 0 in
    (add_i32 x (on 2), add_i32 y (on 0), add_i32 z (on 1))

-- A dig that names the position.
unfoldable pub digs : TraceEvent → Position → Bool
digs e q =
    e.kind ==ℤ Kind.dig
    && elim (decode_dig e.content) [ ok d ↦ position_eq (d.x, d.y, d.z) q | err x ↦ false ]

-- A block that is placed against a face which the position lies in front of.
unfoldable pub builds : TraceEvent → Position → Bool
builds e q = e.kind ==ℤ Kind.place_block && elim (decode_place e.content) [
  | ok p ↦ position_eq (in_front p.face (p.x, p.y, p.z)) q
  | err x ↦ false
]

-- One of the events digs or builds at the position.
unfoldable pub touches : List TraceEvent → Position → Bool
touches [] q = false
touches (e ∷ es) q = (digs e q || builds e q) || touches es q

Result-cases {ℓ} :
    {A : Type ℓ} (r : Result A) → ((a : A) × (r ≡ ok a)) ⊎ ((x : Error) × (r ≡ err x))
Result-cases (ok a) = inl (a, refl)
Result-cases (err x) = inr (x, refl)

beside-face_offset : (f : ℤ) (p : Position) → beside p (face_offset f) ≡ in_front f p
unfolding beside face_offset in_front
beside-face_offset (negsuc n) (x, y, z) = refl
beside-face_offset (pos n) (x, y, z) = ground arith

or_false : (a : Bool) → a || false ≡ a
or_false true = refl
or_false false = refl

not_place : (e : TraceEvent) → (e.kind ==ℤ Kind.dig) ≡ true → (e.kind ==ℤ Kind.place_block) ≡ false
not_place e h = ground (arith, ==ℤ_iff e.kind Kind.dig, ==ℤ_iff e.kind Kind.place_block)

named-touched : (e : TraceEvent) (q : Position) → named (touched e) q ≡ digs e q || builds e q
unfolding touched digs builds
named-touched e q = elim (Bool-cases (e.kind ==ℤ Kind.dig)) [
  | inl dig ↦ elim (Result-cases (decode_dig e.content)) [
    | inl (d, h) ↦
        rw (touched, digs, builds, dig, not_place e dig, h)
          (sym (or_false (position_eq (d.x, d.y, d.z) q)))
    | inr (x, h) ↦ rw (touched, digs, builds, dig, not_place e dig, h) refl
  ]
  | inr other ↦ elim (Bool-cases (e.kind ==ℤ Kind.place_block)) [
    | inl place ↦ elim (Result-cases (decode_place e.content)) [
      | inl (p, h) ↦
          rw (touched, digs, builds, other, place, h, beside-face_offset p.face (p.x, p.y, p.z))
            refl
      | inr (x, h) ↦ rw (touched, digs, builds, other, place, h) refl
    ]
    | inr none_of ↦ rw (touched, digs, builds, other, none_of) refl
  ]
]

or_added : (a b c : Bool) → a || (if b then true else c) ≡ (b || a) || c
or_added true true c = refl
or_added true false c = refl
or_added false true c = refl
or_added false false c = refl

touches_step :
    (e : TraceEvent) (es : List TraceEvent) (q : Position)
    → touches (e ∷ es) q ≡ named (touched e) q || touches es q
unfolding touches
touches_step e es q = ap (λ b. b || touches es q) (sym (named-touched e q))

has_position-wanted_from :
    (es : List TraceEvent) (ps : List Position) (q : Position)
    → has_position (wanted_from ps es) q ≡ touches es q || has_position ps q
unfolding wanted_from
has_position-wanted_from [] ps q = unfold touches in refl
has_position-wanted_from (e ∷ es) ps q = elim (Option-cases (touched e)) [
  | inl nothing ↦ rw (touches_step e es q, nothing) (has_position-wanted_from es ps q)
  | inr (p, found) ↦
      rw (touches_step e es q, found)
        (has_position-wanted_from es (p ∷ ps) q
          ∙ unfold has_position in or_added (touches es q) (position_eq p q) (has_position ps q))
]

-- What a session without a ledger tracks is nothing.
abbrev pub tracked : Option Ledger → Position → Bool
tracked none q = false
tracked (some l) q = wants l q

tracked-ledger_of :
    (ps : List Position) (q : Position) → tracked (ledger_of ps) q ≡ has_position ps q
unfolding wants
tracked-ledger_of [] q = unfold has_position in refl
tracked-ledger_of (p ∷ ps) q = refl

first-has_position : (p : Position) (ps : List Position) → has_position (p ∷ ps) p ≡ true
unfolding has_position
first-has_position p ps = rw ((position_eq_iff p p).1 refl) refl

tracked_nothing :
    (ps : List Position) → ((q : Position) → has_position ps q ≡ false) → ledger_of ps ≡ none
tracked_nothing [] h = refl
tracked_nothing (p ∷ ps) h = absurd (cc (sym (first-has_position p ps) ∙ h p))

-- For every trace, a session tracks exactly the positions that an event of the trace digs, or that lie in
-- front of the face against which one of its events places a block; it has no ledger exactly where
-- there is no such position. A payload that cannot be decoded touches nothing.
pub wants-new_block_ledger :
    (es : List TraceEvent)
    → ((q : Position) → tracked (new_block_ledger es) q ≡ touches es q)
      × ((new_block_ledger es ≡ none) ↔ ((q : Position) → touches es q ≡ false))
unfolding new_block_ledger
wants-new_block_ledger es =
    let all : (q : Position) → has_position (wanted_from [] es) q ≡ touches es q =
      λ q. has_position-wanted_from es [] q ∙ unfold has_position in or_false (touches es q) in
    let tracks : (q : Position) → tracked (new_block_ledger es) q ≡ touches es q =
      λ q. tracked-ledger_of (wanted_from [] es) q ∙ all q in
    (
      tracks,
      (
        (λ h q. sym (tracks q) ∙ ap (λ o. tracked o q) h),
        λ h. tracked_nothing (wanted_from [] es) (λ q. all q ∙ h q),
      ),
    )
