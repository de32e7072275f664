-- ===== src/Replay/Entities/Nearest.antt =====
-- go/internal/replay/entities.go: what `nearest` picks.
use mcbenchmark.Prelude.{
  ℕ, ◌≡◌, ◌⊎◌, inl, inr, refl, sym, ap, ◌∙◌, [], ◌∷◌, Bool, true, false, not, ◌&&◌, if◌then◌else◌,
  Bool-cases,
}
use mcbenchmark.Prelude.Int.{ℤ, ◌==ℤ◌}
use mcbenchmark.Float.{Arithmetic, infinity, thirty_six}
use mcbenchmark.Replay.Entities.{
  TrackedEntity, Tracker, Best, nobody, distance_to, better, consider, search_from, pick, nearest,
}

-- The entry is one of the tracker's.
abbrev pub Has : ℤ × TrackedEntity → Tracker → Type 0
Has entry [] = ⊥
Has entry (first ∷ t) = (entry ≡ first) ⊎ Has entry t

module _ (fl : Arithmetic) (x y z : ℕ) where
  abbrev pub distance : ℤ × TrackedEntity → ℕ
  distance entry = distance_to fl x y z entry.1

  abbrev pub in_range : ℤ × TrackedEntity → Bool
  in_range entry = not (fl.less thirty_six (distance entry))

  -- One of the two searches: the best of the entries that may be taken.
  scan : (ℤ × TrackedEntity → Bool) → Tracker → Best → Best
  scan may [] b = b
  scan may (entry ∷ t) b =
      scan may t (if may entry then better fl entry.0 (distance entry) b else b)

  consider_lem :
      (want : ℤ) (entry : ℤ × TrackedEntity) (exact any : Best)
      → consider fl x y z want entry (exact, any) ≡ (
        if in_range entry && entry.1.type_id ==ℤ want
            then better fl entry.0 (distance entry) exact
            else exact,
        if in_range entry then better fl entry.0 (distance entry) any else any,
      )
  unfolding consider
  consider_lem want entry exact any = elim (Bool-cases (fl.less thirty_six (distance entry))) [
    | inl far ↦ rw far refl
    | inr near ↦ elim (Bool-cases (entry.1.type_id ==ℤ want)) [
      | inl same ↦ rw (near, same) refl
      | inr other ↦ rw (near, other) refl
    ]
  ]

  search_from-scan :
      (want : ℤ) (t : Tracker) (exact any : Best)
      → search_from fl x y z want t (exact, any)
        ≡ (scan (λ entry. in_range entry && entry.1.type_id ==ℤ want) t exact, scan in_range t any)
  unfolding search_from scan
  search_from-scan want [] exact any = refl
  search_from-scan want ((id, e) ∷ t) exact any =
      ap (search_from fl x y z want t) (consider_lem want (id, e) exact any)
      ∙ search_from-scan want t _ _

  better-keeps :
      (d near : ℕ) (id : ℤ) (b : Best)
      → fl.less d b.distance ≡ false
      → fl.less d (better fl id near b).distance ≡ false
  unfolding better
  better-keeps d near id b h = elim (Bool-cases (fl.less near b.distance)) [
    | inl closer ↦ rw closer (elim (Bool-cases (fl.less d near)) [
      | inl less ↦ absurd (cc (fl.less_trans d near b.distance less closer, h))
      | inr no_less ↦ no_less
    ])
    | inr farther ↦ rw farther h
  ]

  better-new : (near : ℕ) (id : ℤ) (b : Best) → fl.less near (better fl id near b).distance ≡ false
  unfolding better
  better-new near id b = elim (Bool-cases (fl.less near b.distance)) [
    | inl closer ↦ rw closer (fl.less_irrefl near)
    | inr farther ↦ rw farther farther
  ]

  scan-keeps :
      (may : ℤ × TrackedEntity → Bool) (t : Tracker) (d : ℕ) (b : Best)
      → fl.less d b.distance ≡ false
      → fl.less d (scan may t b).distance ≡ false
  unfolding scan
  scan-keeps may [] d b h = h
  scan-keeps may (entry ∷ t) d b h = scan-keeps may t d _ (elim (Bool-cases (may entry)) [
    | inl yes_may ↦ rw yes_may (better-keeps d (distance entry) entry.0 b h)
    | inr no_may ↦ rw no_may h
  ])

  -- No entry that may be taken is nearer than the best one.
  scan-least :
      (may : ℤ × TrackedEntity → Bool) (t : Tracker) (b : Best) (entry : ℤ × TrackedEntity)
      → Has entry t
      → may entry ≡ true
      → fl.less (distance entry) (scan may t b).distance ≡ false
  unfolding scan
  scan-least may [] b entry h m = absurd h
  scan-least may (first ∷ t) b entry (inl e) m =
      scan-keeps may t (distance entry) _ (rw (← e, m) (better-new (distance entry) entry.0 b))
  scan-least may (first ∷ t) b entry (inr h) m = scan-least may t _ entry h m

  -- The best entry is one of those that may be taken, unless it is the one it began with.
  pub record Found (may : ℤ × TrackedEntity → Bool) (t : Tracker) (b : Best) : Type 0 where
    pub entity : TrackedEntity
    pub held : Has (b.id, entity) t
    pub allowed : may (b.id, entity) ≡ true
    pub at : b.distance ≡ distance (b.id, entity)
    pub taken : b.have ≡ true

  later :
      (may : ℤ × TrackedEntity → Bool) (first : ℤ × TrackedEntity) (t : Tracker) (b : Best)
      → Found may t b
      → Found may (first ∷ t) b
  later may first t b f = record {
    entity = f.entity;
    held = inr f.held;
    allowed = f.allowed;
    at = f.at;
    taken = f.taken;
  }

  better-cases :
      (near : ℕ) (id : ℤ) (b : Best)
      → (better fl id near b ≡ b)
        ⊎ (better fl id near b ≡ (record { distance = near; id = id; have = true }))
  unfolding better
  better-cases near id b = elim (Bool-cases (fl.less near b.distance)) [
    | inl closer ↦ rw closer (inr refl)
    | inr farther ↦ rw farther (inl refl)
  ]

  scan-Found :
      (may : ℤ × TrackedEntity → Bool) (t : Tracker) (b : Best)
      → (scan may t b ≡ b) ⊎ Found may t (scan may t b)
  unfolding scan
  scan-Found may [] b = inl refl
  scan-Found may (entry ∷ t) b = elim (Bool-cases (may entry)) [
    | inr no_may ↦
        rw no_may
          (elim (scan-Found may t b) [ inl same ↦ inl same | inr f ↦ inr (later may entry t _ f) ])
    | inl yes_may ↦ rw yes_may (elim (scan-Found may t (better fl entry.0 (distance entry) b)) [
      | inr f ↦ inr (later may entry t _ f)
      | inl same ↦ elim (better-cases (distance entry) entry.0 b) [
        | inl kept ↦ inl (same ∙ kept)
        | inr taken ↦ inr (
            rw (same, taken)
              (record {
                entity = entry.1;
                held = inl refl;
                allowed = yes_may;
                at = refl;
                taken = refl;
              }))
      ]
    ])
  ]

  -- An entity that may be taken, and none that may be is nearer.
  pub record IsNearest (may : ℤ × TrackedEntity → Bool) (t : Tracker) (id : ℤ) : Type 0 where
    pub entity : TrackedEntity
    pub held : Has (id, entity) t
    pub allowed : may (id, entity) ≡ true
    pub least :
        (other : ℤ × TrackedEntity)
        → Has other t
        → may other ≡ true
        → fl.less (distance other) (distance (id, entity)) ≡ false

  -- None that may be taken is at a finite distance.
  abbrev pub NoneNear : (ℤ × TrackedEntity → Bool) → Tracker → Type 0
  NoneNear may t =
      (other : ℤ × TrackedEntity)
      → Has other t
      → may other ≡ true
      → fl.less (distance other) infinity ≡ false

  abbrev pub right_type : ℤ → ℤ × TrackedEntity → Bool
  right_type want entry = in_range entry && entry.1.type_id ==ℤ want

  -- What the result of `nearest` means.
  abbrev pub Picked : ℤ → Tracker → ℤ × Bool × Bool → Type 0
  Picked want t (id, true, true) = IsNearest (right_type want) t id
  Picked want t (id, false, true) = IsNearest in_range t id × NoneNear (right_type want) t
  Picked want t (id, exact, false) = NoneNear in_range t

  scan-IsNearest :
      (may : ℤ × TrackedEntity → Bool) (t : Tracker)
      → (scan may t nobody).have ≡ true
      → IsNearest may t (scan may t nobody).id
  scan-IsNearest may t h = elim (scan-Found may t nobody) [
    | inl same ↦ absurd (cc (ap (λ b. b.have) same, h))
    | inr f ↦ record {
      entity = f.entity;
      held = f.held;
      allowed = f.allowed;
      least = λ other m a. rw (← f.at) (scan-least may t nobody other m a);
    }
  ]

  scan-NoneNear :
      (may : ℤ × TrackedEntity → Bool) (t : Tracker)
      → (scan may t nobody).have ≡ false
      → NoneNear may t
  scan-NoneNear may t h other m a = elim (scan-Found may t nobody) [
    | inl same ↦ rw (sym (ap (λ (b : Best). b.distance) same)) (scan-least may t nobody other m a)
    | inr f ↦ absurd (cc (f.taken, h))
  ]

  pick-Picked :
      (want : ℤ) (t : Tracker)
      → Picked want t (pick fl x y z want (scan (right_type want) t nobody, scan in_range t nobody))
  unfolding pick
  pick-Picked want t = elim (Bool-cases (scan (right_type want) t nobody).have) [
    | inl exact ↦ rw exact (scan-IsNearest (right_type want) t exact)
    | inr no_exact ↦ elim (Bool-cases (scan in_range t nobody).have) [
      | inl any ↦
          rw (no_exact, any)
            (scan-IsNearest in_range t any, scan-NoneNear (right_type want) t no_exact)
      | inr no_any ↦ rw (no_exact, no_any) (scan-NoneNear in_range t no_any)
    ]
  ]

  -- What `nearest` picks is a tracked entity within reach: one of the wanted type and none of that
  -- type nearer; or, where none of that type is near, an entity of any type and none nearer. Where
  -- it picks none, none within reach is at a finite distance.
  pub nearest-Picked : (want : ℤ) (t : Tracker) → Picked want t (nearest fl x y z want t)
  unfolding nearest
  nearest-Picked want t = rw (search_from-scan want t nobody nobody) (pick-Picked want t)
