-- ===== src/PlayerData/Imports/Assigned.antt =====
-- go/internal/playerdata/import.go: no source is handed out twice, and none is left over in vain.
use mcbenchmark.Prelude.{
  ℕ, zero, suc, ◌+◌, ◌-◌, ◌≤◌, ◌<◌, ◌≡◌, refl, sym, ap, ◌∙◌, List, [], ◌∷◌, length, length-drop,
  drop, get_elem?, Bool, true, false, Option, none, some, some_eq, ◌==◌, ==_iff, ltb, ltb→lt,
  ltb→le, Bool-cases, Option-cases, inl, inr, arith,
}
use mcbenchmark.PlayerData.Imports.{
  ImportSource, is_used, set_used, unused, match_own, first_free, fill, assign_imports,
}
use mcbenchmark.PlayerData.Imports.Handed.{
  flag, occurs, length-set_used, is_used-set_used, is_used-drop, first_free-some, first_free-none,
  match_own-occurs, length-unused, assign_imports-occurs,
}

occurs-pos :
    (j : ℕ) (out : List (Option ℕ)) (i : ℕ) → get_elem? out i ≡ some (some j) → 1 ≤ occurs j out
unfolding occurs
occurs-pos j [] i h = cc h
occurs-pos j (none ∷ out) zero h = cc h
occurs-pos j (some k ∷ out) zero h = let e : k ≡ j = some_eq (some_eq h) in ground arith
occurs-pos j (none ∷ out) (suc i) h = occurs-pos j out i h
occurs-pos j (some k ∷ out) (suc i) h = omega (arith, occurs-pos j out i h)

occurs-found :
    (j : ℕ) (out : List (Option ℕ)) → 1 ≤ occurs j out → (i : ℕ) × (get_elem? out i ≡ some (some j))
unfolding occurs
occurs-found j [] h = absurd (omega arith)
occurs-found j (none ∷ out) h = let (i, e) = occurs-found j out h in (suc i, e)
occurs-found j (some k ∷ out) h = elim (Bool-cases (k == j)) [
  | inl same ↦ (0, ap (λ t. some (some t)) ((==_iff k j).0 same))
  | inr other ↦
      let (i, e) = occurs-found j out (ground (arith, rw (occurs, other) at h)) in (suc i, e)
]

-- What occurs once at most stands at one place.
occurs_unique :
    (j : ℕ) (out : List (Option ℕ)) (i k : ℕ)
    → occurs j out ≤ 1
    → get_elem? out i ≡ some (some j)
    → get_elem? out k ≡ some (some j)
    → i ≡ k
unfolding occurs
occurs_unique j [] i k once h g = cc h
occurs_unique j (o ∷ out) zero zero once h g = refl
occurs_unique j (none ∷ out) (suc i) (suc k) once h g = ap suc (occurs_unique j out i k once h g)
occurs_unique j (some l ∷ out) (suc i) (suc k) once h g =
    ap suc (occurs_unique j out i k (omega arith) h g)
occurs_unique j (none ∷ out) zero (suc k) once h g = cc h
occurs_unique j (none ∷ out) (suc i) zero once h g = cc g
occurs_unique j (some l ∷ out) zero (suc k) once h g =
    let e : l ≡ j = some_eq (some_eq h) in absurd (ground (arith, occurs-pos j out k g))
occurs_unique j (some l ∷ out) (suc i) zero once h g =
    let e : l ≡ j = some_eq (some_eq g) in absurd (ground (arith, occurs-pos j out i h))

flag-le : (b : Bool) → flag b ≤ 1
flag-le b = ground arith

-- No two traces are given the data of the same player's file.
pub assign_imports-distinct :
    (to_lower : List ℕ → List ℕ) (hashes : List (List ℕ)) (srcs : List ImportSource) (i k j : ℕ)
    → get_elem? (assign_imports to_lower hashes srcs) i ≡ some (some j)
    → get_elem? (assign_imports to_lower hashes srcs) k ≡ some (some j)
    → i ≡ k
assign_imports-distinct to_lower hashes srcs i k j h g =
    occurs_unique j _ i k (omega (arith, assign_imports-occurs to_lower hashes srcs j, flag-le _)) h
      g

flag-true : (b : Bool) → 1 ≤ flag b → b ≡ true
flag-true b h = ground arith

-- Below `next` the sources are used.
abbrev AllUsed : ℕ → List Bool → Type 0
AllUsed next used = (m : ℕ) → m < next → m < length used → is_used used m ≡ true

behind :
    (next k : ℕ) (used : List Bool)
    → next ≤ k
    → is_used used k ≡ is_used (drop next used) (k - next)
behind next k used le =
    let e : k ≡ next + (k - next) = omega arith in
    ap (is_used used) e ∙ sym (is_used-drop next (k - next) used)

-- Where nothing is free from `next` on, everything is used.
used_up :
    (next : ℕ) (used : List Bool)
    → AllUsed next used
    → first_free next (drop next used) ≡ none
    → (k : ℕ) → k < length used
    → is_used used k ≡ true
used_up next used before e k lt = elim (Bool-cases (ltb k next)) [
  | inl below ↦ before k (ltb→lt k next below) lt
  | inr above ↦
      let le = ltb→le k next above in
      behind next k used le
      ∙ first_free-none next (drop next used) e (k - next) (omega (arith, length-drop next used))
]

-- The source that the loop comes to next has only used ones below it.
set_used-AllUsed :
    (next j : ℕ) (used : List Bool)
    → AllUsed next used
    → first_free next (drop next used) ≡ some j
    → AllUsed j (set_used used j)
set_used-AllUsed next j used before e m below lt =
    let (n, at, in_range, free, passed) = first_free-some next (drop next used) e in
    let len = length-drop next used in
    let same_length = length-set_used used j in
    let unused_j : is_used used j ≡ false =
      ap (is_used used) at ∙ sym (is_used-drop next n used) ∙ free in
    let was : is_used used m ≡ true = elim (Bool-cases (ltb m next)) [
      | inl under ↦ before m (ltb→lt m next under) (omega arith)
      | inr over ↦
          behind next m used (ltb→le m next over)
          ∙ passed (m - next) (omega (arith, ltb→le m next over))
    ] in
    let one = is_used-set_used used j m (omega arith) unused_j in
    flag-true _ (omega (arith, one, ap flag was))

-- Where the second loop leaves a trace without a source, it has used them all.
fill-full :
    (out : List (Option ℕ)) (used : List Bool) (next i k : ℕ)
    → AllUsed next used
    → get_elem? (fill out used next).0 i ≡ some none
    → k < length used
    → is_used (fill out used next).1 k ≡ true
unfolding fill
fill-full [] used next i k before h lt = cc h
fill-full (some j ∷ out) used next zero k before h lt = cc h
fill-full (some j ∷ out) used next (suc i) k before h lt = fill-full out used next i k before h lt
fill-full (none ∷ out) used next zero k before h lt =
    elim (Option-cases (first_free next (drop next used))) [
      | inl e ↦ rw (fill, e) (used_up next used before e k lt)
      | inr (j, e) ↦ absurd (cc (rw (fill, e) at h))
    ]
fill-full (none ∷ out) used next (suc i) k before h lt =
    elim (Option-cases (first_free next (drop next used))) [
      | inl e ↦ rw (fill, e) (used_up next used before e k lt)
      | inr (j, e) ↦
          rw (fill, e)
            (fill-full out (set_used used j) j i k (set_used-AllUsed next j used before e)
              (rw (fill, e) at h) (omega (arith, length-set_used used j)))
    ]

-- A trace is left without a player's data only where every file has been handed out.
pub assign_imports-full :
    (to_lower : List ℕ → List ℕ) (hashes : List (List ℕ)) (srcs : List ImportSource) (i j : ℕ)
    → get_elem? (assign_imports to_lower hashes srcs) i ≡ some none
    → j < length srcs
    → (k : ℕ) × (get_elem? (assign_imports to_lower hashes srcs) k ≡ some (some j))
unfolding assign_imports
assign_imports-full to_lower hashes srcs i j h lt =
    let own = match_own to_lower srcs hashes (unused srcs) in
    let len = match_own-occurs to_lower srcs j hashes (unused srcs) (length-unused srcs) in
    let full =
      fill-full own.0 own.1 0 i j (λ m none_below. absurd (omega arith)) h (omega (arith, len.1)) in
    occurs-found j _ (omega (arith, assign_imports-occurs to_lower hashes srcs j, ap flag full))
