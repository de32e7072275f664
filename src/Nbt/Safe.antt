-- ===== src/Nbt/Safe.antt =====
-- go/internal/nbt/nbt.go: readers that end on given bytes, and those of the tags that hold no
-- other tag.
use mcbenchmark.Prelude.{
  ℕ, zero, suc, ◌+◌, ◌≤◌, ◌≡◌, ◌≢◌, inl, inr, sym, ap, ◌∙◌, List, [], Bool, true, false, length,
  ◌==◌, if◌then◌else◌, arith,
}
use mcbenchmark.Prelude.Int.{ℤ, pos, negsuc}
use mcbenchmark.Wire.Reading.{
  Error, ok, err, short as too_short, unknown_tag, panics, out_of_fuel, Reader, pure, fail, ◌>>=◌,
  >>=-ok, >>=-err,
}
use mcbenchmark.Wire.Tame.{Result-cases, bytes-Tame, bytes-Takes}
use mcbenchmark.Nbt.Model.{Value}
use mcbenchmark.Nbt.Reading.{
  take_bytes, be_number, be_int, be_long, read_text, read_ints, read_longs, read_array, read_scalar,
}

-- On these bytes the reader takes `k` of them at least, and does not run out of rounds.
pub record Safe {ℓ} {A : Type ℓ} (k : ℕ) (m : Reader A) (bs : List ℕ) : Type ℓ where
  pub leaves : (a : A) (rest : List ℕ) → m bs ≡ ok (a, rest) → length rest + k ≤ length bs
  pub fails : (e : Error) → m bs ≡ err e → e ≢ out_of_fuel

pub Safe-bind {ℓ κ} :
    {A : Type ℓ} {B : Type κ} {j : ℕ} {m : Reader A} {bs : List ℕ} (k : ℕ) (f : A → Reader B)
    → Safe j m bs
    → ((a : A) (rest : List ℕ) → length rest + j ≤ length bs → Safe k (f a) rest)
    → Safe (j + k) (m >>= f) bs
Safe-bind {j = j} {m} {bs} k f s t = record {
  leaves = λ b rest e. elim (Result-cases (m bs)) [
    | inl ((a, mid), q) ↦
        let took = s.leaves a mid q in
        omega (arith, took, (t a mid took).leaves b rest (sym (>>=-ok m f q) ∙ e))
    | inr (x, q) ↦ absurd (cc (sym (>>=-err m f q) ∙ e))
  ];
  fails = λ x e. elim (Result-cases (m bs)) [
    | inl ((a, mid), q) ↦ (t a mid (s.leaves a mid q)).fails x (sym (>>=-ok m f q) ∙ e)
    | inr (y, q) ↦ λ same. s.fails y q (cc (sym (>>=-err m f q) ∙ e, same))
  ];
}

pub Safe-pure {ℓ} : {A : Type ℓ} (a : A) {bs : List ℕ} → Safe 0 (pure a) bs
unfolding pure
Safe-pure a {bs} = record {
  leaves = λ b rest e. let q : bs ≡ rest = cc e in omega (arith, ap length q);
  fails = λ x e. absurd (cc e);
}

pub Safe-fail {ℓ} :
    {A : Type ℓ} {k : ℕ} {bs : List ℕ} (x : Error) → x ≢ out_of_fuel → Safe {A = A} k (fail x) bs
unfolding fail
Safe-fail x h = record { leaves = λ a rest e. absurd (cc e); fails = λ y e same. h (cc (e, same)) }

pub Safe-weaken {ℓ} :
    {A : Type ℓ} {k : ℕ} {m : Reader A} {bs : List ℕ} (j : ℕ) → j ≤ k → Safe k m bs → Safe j m bs
Safe-weaken j le s = record {
  leaves = λ a rest e. omega (arith, s.leaves a rest e);
  fails = λ x e. s.fails x e;
}

pub Safe-if {ℓ} :
    {A : Type ℓ} {k : ℕ} {m n : Reader A} {bs : List ℕ} (b : Bool)
    → Safe k m bs
    → Safe k n bs
    → Safe k (if b then m else n) bs
Safe-if true s t = s
Safe-if false s t = t

-- What is read first, and then made a value.
pub Safe-map {ℓ κ} :
    {A : Type ℓ} {B : Type κ} {k : ℕ} {m : Reader A} {bs : List ℕ} (g : A → B)
    → Safe k m bs
    → Safe k (m >>= λ a. pure (g a)) bs
Safe-map {k = k} g s =
    Safe-weaken k (omega arith) (Safe-bind 0 (λ a. pure (g a)) s (λ a rest le. Safe-pure (g a)))

pub take_bytes-Safe : (n : ℤ) (bs : List ℕ) → Safe 0 (take_bytes n) bs
unfolding take_bytes
take_bytes-Safe (negsuc n) bs = Safe-fail too_short (λ e. cc e)
take_bytes-Safe (pos n) bs = record {
  leaves = λ a rest e. omega (arith, (bytes-Tame (pos n)).leaves bs a rest e);
  fails = λ x e. (bytes-Tame (pos n)).fails bs x e;
}

pub be_number-Safe : (k : ℕ) (bs : List ℕ) → Safe 1 (be_number (suc k)) bs
unfolding be_number take_bytes
be_number-Safe k bs = Safe-map _ (record {
  leaves = λ a rest e. omega (arith, bytes-Takes (suc k) (omega arith) bs a rest e);
  fails = λ x e. (bytes-Tame (pos (suc k))).fails bs x e;
})

pub be_int-Safe : (bs : List ℕ) → Safe 1 be_int bs
unfolding be_int
be_int-Safe bs = Safe-map _ (be_number-Safe 3 bs)

be_long-Safe : (bs : List ℕ) → Safe 1 be_long bs
unfolding be_long
be_long-Safe bs = Safe-map _ (be_number-Safe 7 bs)

pub read_text-Safe : (bs : List ℕ) → Safe 1 read_text bs
unfolding read_text
read_text-Safe bs = Safe-bind 0 _ (be_number-Safe 1 bs) (λ n rest le. take_bytes-Safe (pos n) rest)

read_ints-Safe : (n : ℕ) (bs : List ℕ) → Safe 0 (read_ints n) bs
unfolding read_ints
read_ints-Safe zero bs = Safe-pure []
read_ints-Safe (suc n) bs =
    Safe-weaken 0 (omega arith)
      (Safe-bind 0 _ (be_int-Safe bs) (λ v rest le. Safe-map _ (read_ints-Safe n rest)))

read_longs-Safe : (n : ℕ) (bs : List ℕ) → Safe 0 (read_longs n) bs
unfolding read_longs
read_longs-Safe zero bs = Safe-pure []
read_longs-Safe (suc n) bs =
    Safe-weaken 0 (omega arith)
      (Safe-bind 0 _ (be_long-Safe bs) (λ v rest le. Safe-map _ (read_longs-Safe n rest)))

read_array-Safe :
    (items : ℕ → Reader (List ℤ)) (n : ℤ) (bs : List ℕ)
    → ((k : ℕ) → Safe 0 (items k) bs)
    → Safe 0 (read_array items n) bs
unfolding read_array
read_array-Safe items (negsuc n) bs s = Safe-fail panics (λ e. cc e)
read_array-Safe items (pos n) bs s = s n

-- A count, and what it counts
counted-Safe {ℓ} :
    {A : Type ℓ} (f : ℤ → Reader A) (g : A → Value) (bs : List ℕ)
    → ((n : ℤ) (rest : List ℕ) → Safe 0 (f n) rest)
    → Safe 1 (be_int >>= λ n. f n >>= λ a. pure (g a)) bs
counted-Safe f g bs s = Safe-bind 0 _ (be_int-Safe bs) (λ n rest le. Safe-map g (s n rest))

pub read_scalar-Safe : (id : ℕ) (bs : List ℕ) → Safe 1 (read_scalar id) bs
unfolding read_scalar
read_scalar-Safe id bs = Safe-if (id == 1) (Safe-map _ (be_number-Safe 0 bs)) (
    Safe-if (id == 2) (Safe-map _ (be_number-Safe 1 bs)) (
      Safe-if (id == 3) (Safe-map _ (be_int-Safe bs)) (
        Safe-if (id == 4) (Safe-map _ (be_long-Safe bs)) (
          Safe-if (id == 5) (Safe-map _ (be_number-Safe 3 bs)) (
            Safe-if (id == 6) (Safe-map _ (be_number-Safe 7 bs)) (
              Safe-if (id == 7) (counted-Safe take_bytes _ bs take_bytes-Safe) (
                Safe-if (id == 8) (Safe-map _ (read_text-Safe bs)) (
                  Safe-if (id == 11)
                    (counted-Safe (read_array read_ints) _ bs
                      (λ n rest. read_array-Safe read_ints n rest (λ k. read_ints-Safe k rest)))
                    (Safe-if (id == 12)
                      (counted-Safe (read_array read_longs) _ bs
                        (λ n rest. read_array-Safe read_longs n rest (λ k. read_longs-Safe k rest)))
                      (Safe-fail unknown_tag (λ e. cc e)))))))))))
