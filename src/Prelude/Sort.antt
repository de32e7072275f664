-- ===== src/Prelude/Sort.antt =====
-- A stable sort by an integer key, as Go's `sort.SliceStable` does.
use mcbenchmark.Prelude.{
  inl, inr, List, [], ◌∷◌, if◌then◌else◌, All, Bool-cases, ltb→lt, ltb→le, arith,
}
use mathlib.Core.List.{Perm}
use mathlib.Core.List.Perm
use mcbenchmark.Prelude.Int.{ℤ, ltb_ℤ, ◌≤ℤ◌}

module _ {ℓ} {A : Type ℓ} (key : A → ℤ) where
  -- An element goes in front of the first whose key is not smaller.
  unfoldable pub insert_by : A → List A → List A
  insert_by a [] = a ∷ []
  insert_by a (x ∷ xs) = if ltb_ℤ (key x) (key a) then x ∷ insert_by a xs else a ∷ x ∷ xs

  unfoldable pub sort_by : List A → List A
  unfolding insert_by
  sort_by [] = []
  sort_by (a ∷ xs) = insert_by a (sort_by xs)

  -- No element has a larger key than one behind it.
  abbrev pub IsSortedBy : List A → Type 0
  IsSortedBy [] = Unit
  IsSortedBy (a ∷ xs) = All (λ x. key a ≤ℤ key x) xs × IsSortedBy xs

  pub insert_by-All {κ} :
      (P : A → Type κ) (a : A) (xs : List A) → P a → All P xs → All P (insert_by a xs)
  unfolding insert_by
  insert_by-All P a [] h k = (h, k)
  insert_by-All P a (x ∷ xs) h k = elim (Bool-cases (ltb_ℤ (key x) (key a))) [
    | inl earlier ↦ rw earlier (k.0, insert_by-All P a xs h k.1)
    | inr other ↦ rw other (h, k)
  ]

  pub sort_by-All {κ} : (P : A → Type κ) (xs : List A) → All P xs → All P (sort_by xs)
  unfolding sort_by
  sort_by-All P [] h = h
  sort_by-All P (a ∷ xs) h = insert_by-All P a (sort_by xs) h.0 (sort_by-All P xs h.1)

  insert_by_back {κ} :
      (P : A → Type κ) (a : A) (xs : List A) → All P (insert_by a xs) → P a × All P xs
  unfolding insert_by
  insert_by_back P a [] h = h
  insert_by_back P a (x ∷ xs) h = elim (Bool-cases (ltb_ℤ (key x) (key a))) [
    | inl earlier ↦
        let h' : P x × All P (insert_by a xs) = rw (insert_by, earlier) at h in
        let (ha, hs) = insert_by_back P a xs h'.1 in (ha, (h'.0, hs))
    | inr other ↦ rw (insert_by, other) at h
  ]

  -- What holds throughout the sorted list holds throughout the list.
  pub sort_by_back {κ} : (P : A → Type κ) (xs : List A) → All P (sort_by xs) → All P xs
  unfolding sort_by
  sort_by_back P [] h = h
  sort_by_back P (a ∷ xs) h =
      let (ha, hs) = insert_by_back P a (sort_by xs) h in (ha, sort_by_back P xs hs)

  above-All : (m n : ℤ) (xs : List A) → m ≤ℤ n → All (λ x. n ≤ℤ key x) xs → All (λ x. m ≤ℤ key x) xs
  above-All m n [] h k = k
  above-All m n (x ∷ xs) h k = (omega (arith, h, k.0), above-All m n xs h k.1)

  insert_by-IsSortedBy : (a : A) (xs : List A) → IsSortedBy xs → IsSortedBy (insert_by a xs)
  unfolding insert_by
  insert_by-IsSortedBy a [] h = (tt, tt)
  insert_by-IsSortedBy a (x ∷ xs) h = elim (Bool-cases (ltb_ℤ (key x) (key a))) [
    | inl earlier ↦ rw earlier (
      insert_by-All (λ y. key x ≤ℤ key y) a xs (omega (arith, ltb→lt _ _ earlier)) h.0,
      insert_by-IsSortedBy a xs h.1,
    )
    | inr other ↦
        rw other ((ltb→le _ _ other, above-All (key a) (key x) xs (ltb→le _ _ other) h.0), h)
  ]

  pub sort_by-IsSortedBy : (xs : List A) → IsSortedBy (sort_by xs)
  unfolding sort_by
  sort_by-IsSortedBy [] = tt
  sort_by-IsSortedBy (a ∷ xs) = insert_by-IsSortedBy a (sort_by xs) (sort_by-IsSortedBy xs)

  insert_by-perm : (a : A) (xs : List A) → Perm (insert_by a xs) (a ∷ xs)
  unfolding insert_by
  insert_by-perm a [] = Perm.refl (a ∷ [])
  insert_by-perm a (x ∷ xs) = elim (Bool-cases (ltb_ℤ (key x) (key a))) [
    | inl earlier ↦ rw earlier (Perm.trans (Perm.cons x (insert_by-perm a xs)) (Perm.swap a x xs))
    | inr other ↦ rw other (Perm.refl (a ∷ x ∷ xs))
  ]

  pub sort_by-perm : (xs : List A) → Perm (sort_by xs) xs
  unfolding sort_by
  sort_by-perm [] = Perm.refl []
  sort_by-perm (a ∷ xs) = Perm.trans (insert_by-perm a (sort_by xs)) (Perm.cons a (sort_by-perm xs))
