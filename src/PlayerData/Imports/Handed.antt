-- ===== src/PlayerData/Imports/Handed.antt =====
-- go/internal/playerdata/import.go: how often `assignImports` hands out each source.
use mcbenchmark.Prelude.{
  ℕ, zero, suc, ◌+◌, ◌<◌, ◌≡◌, refl, sym, ap, ◌∙◌, List, [], ◌∷◌, length, length-drop, drop, Bool,
  true, false, Option, none, some, some_eq, if◌then◌else◌, ◌&&◌, ◌==◌, bytes_eq, Bool-cases,
  Option-cases, inl, inr, arith,
}
use mcbenchmark.PlayerData.Imports.{
  ImportSource, by_hash, is_used, set_used, unused, own_source, match_own, first_free, fill,
  assign_imports, has_text,
}

abbrev pub flag : Bool → ℕ
flag b = if b then 1 else 0

-- How many traces are given the source `j`.
unfoldable pub occurs : ℕ → List (Option ℕ) → ℕ
occurs j [] = 0
occurs j (none ∷ out) = occurs j out
occurs j (some i ∷ out) = flag (i == j) + occurs j out

pub length-set_used : (used : List Bool) (j : ℕ) → length (set_used used j) ≡ length used
unfolding set_used
length-set_used [] j = refl
length-set_used (b ∷ used) zero = refl
length-set_used (b ∷ used) (suc j) = ap suc (length-set_used used j)

pub is_used-set_used :
    (used : List Bool) (j k : ℕ)
    → j < length used
    → is_used used j ≡ false
    → flag (is_used (set_used used j) k) ≡ flag (is_used used k) + flag (j == k)
unfolding is_used set_used
is_used-set_used [] j k h free = absurd (omega arith)
is_used-set_used (b ∷ used) zero zero h free = rw free refl
is_used-set_used (b ∷ used) zero (suc k) h free = ground arith
is_used-set_used (b ∷ used) (suc j) zero h free = ground arith
is_used-set_used (b ∷ used) (suc j) (suc k) h free =
    ground (arith, is_used-set_used used j k (omega arith) free)

pub is_used-drop : (n m : ℕ) (used : List Bool) → is_used (drop n used) m ≡ is_used used (n + m)
unfolding is_used
is_used-drop zero m used = let e : m ≡ 0 + m = omega arith in ap (is_used used) e
is_used-drop (suc n) m [] = refl
is_used-drop (suc n) m (b ∷ used) =
    let e : suc (n + m) ≡ suc n + m = omega arith in
    is_used-drop n m used ∙ ap (is_used (b ∷ used)) e

by_hash-lt :
    (srcs : List ImportSource) (i : ℕ) (h : List ℕ) {j : ℕ}
    → by_hash srcs i h ≡ some j
    → j < i + length srcs
unfolding by_hash
by_hash-lt [] i h e = cc e
by_hash-lt (s ∷ srcs) i h {j} e = elim (Option-cases (by_hash srcs (suc i) h)) [
  | inr (later, found) ↦
      let same : later ≡ j = some_eq (rw (by_hash, found) at e) in
      omega (arith, by_hash-lt srcs (suc i) h found)
  | inl last ↦ elim (Bool-cases (has_text s.hash && bytes_eq s.hash h)) [
    | inl here ↦ let same : i ≡ j = some_eq (rw (by_hash, last, here) at e) in omega arith
    | inr other ↦ absurd (cc (rw (by_hash, last, other) at e))
  ]
]

-- The first place that is free, and all before it that are not.
pub first_free-some :
    (i : ℕ) (used : List Bool) {j : ℕ}
    → first_free i used ≡ some j
    → (m : ℕ) × (j ≡ i + m)
      × (m < length used)
      × (is_used used m ≡ false)
      × ((k : ℕ) → k < m → is_used used k ≡ true)
unfolding first_free is_used
first_free-some i [] e = cc e
first_free-some i (true ∷ used) e =
    let (m, at, lt, free, before) = first_free-some (suc i) used e in
    (suc m, omega arith, omega arith, free, passed m before)
  where
    passed :
        (m : ℕ)
        → ((k : ℕ) → k < m → is_used used k ≡ true)
        → (k : ℕ) → k < suc m
        → is_used (true ∷ used) k ≡ true
    passed m before zero h = refl
    passed m before (suc k) h = before k (omega arith)
first_free-some i (false ∷ used) e =
    (0, omega (arith, some_eq e), omega arith, refl, λ k h. absurd (omega arith))

pub first_free-none :
    (i : ℕ) (used : List Bool)
    → first_free i used ≡ none
    → (k : ℕ) → k < length used
    → is_used used k ≡ true
unfolding first_free is_used
first_free-none i [] e k h = absurd (omega arith)
first_free-none i (true ∷ used) e zero h = refl
first_free-none i (true ∷ used) e (suc k) h = first_free-none (suc i) used e k (omega arith)
first_free-none i (false ∷ used) e k h = cc e

module _ (to_lower : List ℕ → List ℕ) (srcs : List ImportSource) where
  own_source-free :
      (h : List ℕ) (used : List Bool) {j : ℕ}
      → own_source to_lower srcs h used ≡ some j
      → (is_used used j ≡ false) × (j < length srcs)
  unfolding own_source
  own_source-free [] used e = cc e
  own_source-free (c ∷ h) used {j} e = elim (Option-cases (by_hash srcs 0 (to_lower (c ∷ h)))) [
    | inl missing ↦ absurd (cc (rw (own_source, missing) at e))
    | inr (i, found) ↦ elim (Bool-cases (is_used used i)) [
      | inl taken ↦ absurd (cc (rw (own_source, found, taken) at e))
      | inr free ↦
          let same : i ≡ j = some_eq (rw (own_source, found, free) at e) in
          rw (← same) (free, omega (arith, by_hash-lt srcs 0 _ found))
    ]
  ]

  -- The first loop: what it gives out is used then.
  pub match_own-occurs :
      (k : ℕ) (hashes : List (List ℕ)) (used : List Bool)
      → length used ≡ length srcs
      → (occurs k (match_own to_lower srcs hashes used).0 + flag (is_used used k)
          ≡ flag (is_used (match_own to_lower srcs hashes used).1 k))
        × (length (match_own to_lower srcs hashes used).1 ≡ length srcs)
  unfolding match_own occurs
  match_own-occurs k [] used n = (omega arith, n)
  match_own-occurs k (h ∷ hashes) used n = elim (Option-cases (own_source to_lower srcs h used)) [
    | inl e ↦ rw (match_own, e) (match_own-occurs k hashes used n)
    | inr (j, e) ↦
        let (free, lt) = own_source-free h used e in
        let (all, len) = match_own-occurs k hashes (set_used used j) (length-set_used used j ∙ n) in
        let one = is_used-set_used used j k (omega arith) free in
        rw (match_own, e) (omega (arith, all, one), len)
  ]

-- The second loop, which gives out what is free.
fill-occurs :
    (k : ℕ) (out : List (Option ℕ)) (used : List Bool) (next : ℕ)
    → (occurs k (fill out used next).0 + flag (is_used used k)
        ≡ occurs k out + flag (is_used (fill out used next).1 k))
      × (length (fill out used next).1 ≡ length used)
unfolding fill occurs
fill-occurs k [] used next = (omega arith, refl)
fill-occurs k (some j ∷ out) used next =
    let (all, len) = fill-occurs k out used next in (omega (arith, all), len)
fill-occurs k (none ∷ out) used next = elim (Option-cases (first_free next (drop next used))) [
  | inl e ↦ rw (fill, e) (omega arith, refl)
  | inr (j, e) ↦
      let (m, at, lt, free, _) = first_free-some next (drop next used) e in
      let unused_j : is_used used j ≡ false =
        ap (is_used used) at ∙ sym (is_used-drop next m used) ∙ free in
      let (all, len) = fill-occurs k out (set_used used j) j in
      let one = is_used-set_used used j k (omega (arith, length-drop next used)) unused_j in
      rw (fill, e) (omega (arith, all, one), len ∙ length-set_used used j)
]

pub is_used-unused : (srcs : List ImportSource) (k : ℕ) → is_used (unused srcs) k ≡ false
unfolding is_used unused
is_used-unused [] k = refl
is_used-unused (s ∷ srcs) zero = refl
is_used-unused (s ∷ srcs) (suc k) = is_used-unused srcs k

pub length-unused : (srcs : List ImportSource) → length (unused srcs) ≡ length srcs
unfolding unused
length-unused [] = refl
length-unused (s ∷ srcs) = ap suc (length-unused srcs)

-- What the two loops leave: a source occurs once where it is used, and else not at all.
pub assign_imports-occurs :
    (to_lower : List ℕ → List ℕ) (hashes : List (List ℕ)) (srcs : List ImportSource) (k : ℕ)
    → occurs k (assign_imports to_lower hashes srcs) ≡ (
        let own = match_own to_lower srcs hashes (unused srcs) in
        flag (is_used (fill own.0 own.1 0).1 k))
unfolding assign_imports
assign_imports-occurs to_lower hashes srcs k =
    let own = match_own to_lower srcs hashes (unused srcs) in
    omega (
      arith,
      match_own-occurs to_lower srcs k hashes (unused srcs) (length-unused srcs),
      fill-occurs k own.0 own.1 0,
      ap flag (is_used-unused srcs k),
    )
