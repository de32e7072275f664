-- ===== src/Nbt/Rounds.antt =====
-- go/internal/nbt/nbt.go: the rounds of the reader, three for each byte.
use mcbenchmark.Prelude.{
  ℕ, zero, suc, ◌+◌, ◌*◌, ◌≤◌, ◌≡◌, ◌≢◌, ◌⊎◌, inl, inr, refl, List, true, false, length, Bool-cases,
  ◌==◌, arith,
}
use mcbenchmark.Wire.Reading.{err, unknown_tag, out_of_fuel, pure, fail, ◌>>=◌, ◌>>◌, run}
use mcbenchmark.Wire.Tame.{Result-cases}
use mcbenchmark.Nbt.Model.{Items, Fields}
use mcbenchmark.Nbt.Reading.{
  read_text, at_least_zero, Shape, a_list, a_compound, a_scalar, shape_of, keep_field, read_value,
  read_items, read_fields, read_root, parse_root,
}
use mcbenchmark.Nbt.Safe.{
  Safe, Safe-bind, Safe-pure, Safe-fail, Safe-weaken, Safe-map, be_number-Safe, be_int-Safe,
  read_text-Safe, read_scalar-Safe,
}

Shape-cases : (s : Shape) → (s ≡ a_list) ⊎ (s ≡ a_compound) ⊎ (s ≡ a_scalar)
Shape-cases a_list = inl refl
Shape-cases a_compound = inr (inl refl)
Shape-cases a_scalar = inr (inr refl)

-- One round of each reader, with what its calls are known to do.
module _ (fuel : ℕ) where
  value_round :
      (id : ℕ) (bs : List ℕ)
      → ((et n : ℕ) (rest : List ℕ)
          → length rest + 2 ≤ length bs
          → Safe 0 (read_items fuel et n) rest)
      → Safe 1 (read_fields fuel) bs
      → Safe 1 (read_value (suc fuel) id) bs
  unfolding read_value ◌>>=◌
  value_round id bs items fields = elim (Shape-cases (shape_of id)) [
    | inl e ↦
        rw (read_value, e)
          (Safe-weaken 1 (omega arith) (
            Safe-bind 1 _ (be_number-Safe 0 bs) (λ et rest le. Safe-weaken 1 (omega arith) (
              Safe-bind 0 _ (be_int-Safe rest)
                (λ n rest' le'. Safe-map _ (items et (at_least_zero n) rest' (omega arith)))))))
    | inr (inl e) ↦ rw (read_value, e) (Safe-map _ fields)
    | inr (inr e) ↦ rw (read_value, e) (read_scalar-Safe id bs)
  ]

  items_round :
      (et n : ℕ) (bs : List ℕ)
      → Safe 1 (read_value fuel et) bs
      → ((rest : List ℕ) → length rest + 1 ≤ length bs → Safe 0 (read_items fuel et n) rest)
      → Safe 0 (read_items (suc fuel) et (suc n)) bs
  unfolding read_items
  items_round et n bs value items =
      Safe-weaken 0 (omega arith) (Safe-bind 0 _ value (λ v rest le. Safe-map _ (items rest le)))

  fields_round :
      (bs : List ℕ)
      → ((id : ℕ) (rest : List ℕ) → length rest + 2 ≤ length bs → Safe 1 (read_value fuel id) rest)
      → ((rest : List ℕ) → length rest + 3 ≤ length bs → Safe 1 (read_fields fuel) rest)
      → Safe 1 (read_fields (suc fuel)) bs
  unfolding read_fields
  fields_round bs value fields =
      Safe-weaken 1 (omega arith)
        (Safe-bind 0 _ (be_number-Safe 0 bs) (λ id rest le. after id rest le))
    where
      named :
          (id : ℕ) (rest : List ℕ)
          → length rest + 1 ≤ length bs
          → Safe 0
              (do
                name ← read_text
                v ← read_value fuel id
                fs ← read_fields fuel
                pure (keep_field name v fs))
              rest
      named id rest le = Safe-weaken 0 (omega arith) (
          Safe-bind 0 _ (read_text-Safe rest) (λ name rest' le'. Safe-weaken 0 (omega arith) (
            Safe-bind 0 _ (value id rest' (omega arith))
              (λ v r le2. Safe-weaken 0 (omega arith) (Safe-map _ (fields r (omega arith)))))))

      after :
          (id : ℕ) (rest : List ℕ)
          → length rest + 1 ≤ length bs
          → Safe 0
              (elim (id == 0) [
                | true ↦ pure Fields.end
                | false ↦ do
                  name ← read_text
                  v ← read_value fuel id
                  fs ← read_fields fuel
                  pure (keep_field name v fs)
              ])
              rest
      after id rest le = elim (Bool-cases (id == 0)) [
        | inl e ↦ rw e (Safe-pure Fields.end)
        | inr e ↦ rw e (named id rest le)
      ]

-- With three rounds for each byte, and a few, no reader runs out.
mutual
  unfolding read_items

  value-Safe :
      (fuel id : ℕ) (bs : List ℕ) → 3 * length bs + 2 ≤ fuel → Safe 1 (read_value fuel id) bs
  value-Safe zero id bs h = absurd (omega arith)
  value-Safe (suc fuel) id bs h =
      value_round fuel id bs (λ et n rest le. items-Safe fuel et n rest (omega arith))
        (fields-Safe fuel bs (omega arith))

  items-Safe :
      (fuel et n : ℕ) (bs : List ℕ) → 3 * length bs + 3 ≤ fuel → Safe 0 (read_items fuel et n) bs
  items-Safe zero et n bs h = absurd (omega arith)
  items-Safe (suc fuel) et zero bs h = Safe-pure Items.nil
  items-Safe (suc fuel) et (suc n) bs h =
      items_round fuel et n bs (value-Safe fuel et bs (omega arith))
        (λ rest le. items-Safe fuel et n rest (omega arith))

  fields-Safe : (fuel : ℕ) (bs : List ℕ) → 3 * length bs + 1 ≤ fuel → Safe 1 (read_fields fuel) bs
  fields-Safe zero bs h = absurd (omega arith)
  fields-Safe (suc fuel) bs h =
      fields_round fuel bs (λ id rest le. value-Safe fuel id rest (omega arith))
        (λ rest le. fields-Safe fuel rest (omega arith))

root_round :
    (fuel : ℕ) (bs : List ℕ)
    → ((rest : List ℕ) → length rest + 2 ≤ length bs → Safe 0 (read_fields fuel) rest)
    → Safe 0 (read_root fuel) bs
unfolding read_root ◌>>◌
root_round fuel bs fields =
    Safe-weaken 0 (omega arith)
      (Safe-bind 0 _ (be_number-Safe 0 bs) (λ id rest le. after id rest le))
  where
    after :
        (id : ℕ) (rest : List ℕ)
        → length rest + 1 ≤ length bs
        → Safe {A = Fields} 0
            (elim (id == 10) [ true ↦ do read_text; read_fields fuel | false ↦ fail unknown_tag ])
            rest
    after id rest le = elim (Bool-cases (id == 10)) [
      | inl e ↦ rw e (
          Safe-weaken 0 (omega arith) (
            Safe-bind 0 (λ _. read_fields fuel) (read_text-Safe rest)
              (λ name rest' le'. fields rest' (omega arith))))
      | inr e ↦ rw e (Safe-fail unknown_tag (λ e. cc e))
    ]

-- Whatever bytes a file holds, the reader ends on them: three rounds for each byte are never used up.
pub parse_root-ends : (bs : List ℕ) → parse_root bs ≢ err out_of_fuel
unfolding parse_root run
parse_root-ends bs h =
    let safe =
      root_round (3 * length bs) bs
        (λ rest le. Safe-weaken 0 (omega arith) (fields-Safe (3 * length bs) rest (omega arith))) in
    elim (Result-cases (read_root (3 * length bs) bs)) [
      | inl ((fs, rest), q) ↦ cc (rw (q, parse_root, run) at h)
      | inr (x, q) ↦ safe.fails x q (cc (rw (q, parse_root, run) at h))
    ]
