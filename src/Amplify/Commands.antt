-- ===== src/Amplify/Commands.antt =====
-- A command with no number in it is left as it is.
use mcbenchmark.Prelude.{
  ℕ, zero, suc, ◌≡◌, ◌≢◌, ◌∙◌, sym, refl, ap, inl, inr, List, [], ◌∷◌, false, ◌==◌, ==_iff, All,
  Bool-cases,
}
use mcbenchmark.Prelude.Int.{ℤ, pos, negsuc}
use mcbenchmark.Amplify.Numbers.{
  push, split, join, is_all_digits, vary_field, vary_fields, vary_numbers,
}

join-push : (c : ℕ) (fs : List (List ℕ)) → join (push c fs) ≡ c ∷ join fs
unfolding join
join-push c [] = refl
join-push c (f ∷ []) = refl
join-push c (f ∷ g ∷ fs) = refl

join_opened : (fs : List (List ℕ)) → fs ≢ [] → join ([] ∷ fs) ≡ 32 ∷ join fs
unfolding join
join_opened [] h = absurd (h refl)
join_opened (f ∷ fs) h = refl

split_filled : (s : List ℕ) → split s ≢ []
unfolding split
split_filled [] = λ e. cc e
split_filled (c ∷ cs) = elim (Bool-cases (c == 32)) [
  | inl space ↦ rw space (λ e. cc e)
  | inr other ↦ rw other (pushed (split cs))
]
  where
    pushed : (fs : List (List ℕ)) → push c fs ≢ []
    pushed [] = λ e. cc e
    pushed (f ∷ fs) = λ e. cc e

pub join-split : (s : List ℕ) → join (split s) ≡ s
unfolding split
join-split [] = unfold join in refl
join-split (c ∷ cs) = elim (Bool-cases (c == 32)) [
  | inl space ↦ rw space (
      join_opened (split cs) (split_filled cs)
      ∙ rw (join-split cs) (ap (λ b. b ∷ cs) (sym ((==_iff c 32).0 space))))
  | inr other ↦ rw other (join-push c (split cs) ∙ ap (λ t. c ∷ t) (join-split cs))
]

vary_fields_unchanged :
    (fs : List (List ℕ)) (percent rng : ℕ)
    → All (λ f. is_all_digits f ≡ false) fs
    → vary_fields fs percent rng ≡ (fs, rng)
unfolding vary_fields vary_field
vary_fields_unchanged [] percent rng h = refl
vary_fields_unchanged (f ∷ fs) percent rng h = rw (h.0, vary_fields_unchanged fs percent rng h.1)

-- A command none of whose fields, as spaces separate them, is all digits comes back byte for byte, and
-- draws nothing.
pub vary_numbers_unchanged :
    (cmd : List ℕ) (percent : ℤ) (rng : ℕ)
    → All (λ f. is_all_digits f ≡ false) (split cmd)
    → vary_numbers cmd percent rng ≡ (cmd, rng)
unfolding vary_numbers
vary_numbers_unchanged cmd (negsuc n) rng h = refl
vary_numbers_unchanged cmd (pos zero) rng h = refl
vary_numbers_unchanged cmd (pos (suc n)) rng h =
    rw (vary_fields_unchanged (split cmd) (suc n) rng h) (ap (λ s. (s, rng)) (join-split cmd))
