-- ===== src/PlayerData/Imported.antt =====
-- go/internal/playerdata/import.go: what `importedNBT` keeps of a real player's data, and what it changes.
use mcbenchmark.Prelude.{
  ℕ, ◌≡◌, ◌≢◌, if◌then◌else◌, refl, sym, ap, ◌∙◌, List, [], ◌∷◌, All, true, false, Option, none,
  some, bytes_eq, Bool-cases, Option-cases, inl, inr,
}
use mcbenchmark.Prelude.Text.{codes}
use mcbenchmark.Trace.Model.{Origin}
use mcbenchmark.Nbt.Model.{Value, float, int_array, Fields}
use mcbenchmark.PlayerData.Fields.{
  get_field, set_field, delete_field, get_field-set_field, get_field-delete_field,
}
use mcbenchmark.PlayerData.Uuid.{uuid_ints}
use mcbenchmark.PlayerData.Files.{
  doubles, floats, not_positive, as_float, revive, move_to, dimension_name, imported_nbt,
}
use mcbenchmark.PlayerData.Revived.{is_above_zero, twenty, revive_float, revive_other}

-- The names that the position of a trace is put under.
abbrev pub place_names : List (List ℕ)
place_names =
    codes "Pos" ∷ codes "Rotation" ∷ codes "Motion" ∷ codes "FallDistance" ∷ codes "Dimension" ∷ []

abbrev pub IsOther : List (List ℕ) → List ℕ → Type 0
IsOther names name = All (λ other. bytes_eq other name ≡ false) names

get_field-set_field_other :
    (name other : List ℕ) (v : Value) (fs : Fields)
    → bytes_eq name other ≡ false
    → get_field (set_field name v fs) other ≡ get_field fs other
get_field-set_field_other name other v fs h = get_field-set_field name other v fs ∙ rw h refl

get_field-delete_field_other :
    (name other : List ℕ) (fs : Fields)
    → bytes_eq name other ≡ false
    → get_field (delete_field name fs) other ≡ get_field fs other
get_field-delete_field_other name other fs h = get_field-delete_field name other fs ∙ rw h refl

get_field-move_to :
    (o : Option Origin) (fs : Fields) (name : List ℕ)
    → IsOther place_names name
    → get_field (move_to o fs) name ≡ get_field fs name
unfolding move_to
get_field-move_to none fs name h = refl
get_field-move_to (some o) fs name h = elim (Option-cases (dimension_name o.dimension)) [
  | inl e ↦ rw (move_to, e) moved
  | inr (d, e) ↦
      rw (move_to, e) (get_field-set_field_other (codes "Dimension") name _ _ h.1.1.1.1.0 ∙ moved)
]
  where
    moved :
        get_field
          (set_field (codes "FallDistance") (float 0) (
            set_field (codes "Motion") (doubles 0 0 0) (
              set_field
                (codes "Rotation")
                (floats o.place.yaw o.place.pitch)
                (set_field (codes "Pos") (doubles o.place.x o.place.y o.place.z) fs))))
          name
        ≡ get_field fs name
    moved =
        get_field-set_field_other (codes "FallDistance") name _ _ h.1.1.1.0
        ∙ get_field-set_field_other (codes "Motion") name _ _ h.1.1.0
        ∙ get_field-set_field_other (codes "Rotation") name _ _ h.1.0
        ∙ get_field-set_field_other (codes "Pos") name _ _ h.0

get_field-revive :
    (fs : Fields) (name : List ℕ)
    → bytes_eq (codes "Health") name ≡ false
    → get_field (revive fs) name ≡ get_field fs name
unfolding revive get_field
get_field-revive fs name h = elim (Option-cases (as_float (get_field fs (codes "Health")))) [
  | inl e ↦ rw (revive, e) refl
  | inr (hp, e) ↦ elim (Bool-cases (not_positive hp)) [
    | inl dead ↦ rw (revive, e, dead) (get_field-set_field_other (codes "Health") name _ fs h)
    | inr alive ↦ rw (revive, e, alive) refl
  ]
]

-- The names that a file of a real player comes out with changed, beside those of the position.
abbrev pub own_names : List (List ℕ)
own_names =
    codes "UUID"
    ∷ codes "Health"
    ∷ codes "DeathTime"
    ∷ codes "RootVehicle"
    ∷ codes "Passengers"
    ∷ []

imported_through :
    (root : Fields) (o : Option Origin) (uuid name : List ℕ)
    → IsOther (codes "DeathTime" ∷ codes "RootVehicle" ∷ codes "Passengers" ∷ []) name
    → get_field (imported_nbt root o uuid) name
      ≡ get_field
          (revive (move_to o (set_field (codes "UUID") (int_array (uuid_ints uuid)) root)))
          name
unfolding imported_nbt
imported_through root o uuid name h =
    let fs = revive (move_to o (set_field (codes "UUID") (int_array (uuid_ints uuid)) root)) in
    let a = delete_field (codes "DeathTime") fs in
    let b = delete_field (codes "RootVehicle") a in
    get_field-delete_field_other (codes "Passengers") name b h.1.1.0
    ∙ get_field-delete_field_other (codes "RootVehicle") name a h.1.0
    ∙ get_field-delete_field_other (codes "DeathTime") name fs h.0

-- What is deleted by three names is gone under each of them.
deleted :
    (a b c : List ℕ) (fs : Fields)
    → bytes_eq b a ≡ false
    → bytes_eq c a ≡ false
    → bytes_eq c b ≡ false
    → bytes_eq a a ≡ true
    → bytes_eq b b ≡ true
    → bytes_eq c c ≡ true
    → (get_field (delete_field c (delete_field b (delete_field a fs))) a ≡ none)
      × (get_field (delete_field c (delete_field b (delete_field a fs))) b ≡ none)
      × (get_field (delete_field c (delete_field b (delete_field a fs))) c ≡ none)
deleted a b c fs ba ca cb aa bb cc_same = (
  get_field-delete_field_other c a (delete_field b (delete_field a fs)) ca
      ∙ get_field-delete_field_other b a (delete_field a fs) ba
      ∙ get_field-delete_field a a fs
      ∙ rw aa refl,
  get_field-delete_field_other c b (delete_field b (delete_field a fs)) cb
      ∙ get_field-delete_field b b (delete_field a fs)
      ∙ rw bb refl,
  get_field-delete_field c c (delete_field b (delete_field a fs)) ∙ rw cc_same refl,
)

gone :
    (root : Fields) (o : Option Origin) (uuid : List ℕ)
    → (get_field (imported_nbt root o uuid) (codes "DeathTime") ≡ none)
      × (get_field (imported_nbt root o uuid) (codes "RootVehicle") ≡ none)
      × (get_field (imported_nbt root o uuid) (codes "Passengers") ≡ none)
unfolding imported_nbt bytes_eq
gone root o uuid =
    deleted (codes "DeathTime") (codes "RootVehicle") (codes "Passengers")
      (revive (move_to o (set_field (codes "UUID") (int_array (uuid_ints uuid)) root))) refl refl
      refl refl refl refl

-- A real player's data that is handed to an account keeps every field but those of the position, the
-- identity, the health and the vehicle; it has the UUID of the account, and is in no vehicle and not
-- dying.
pub imported_nbt-kept :
    (root : Fields) (o : Option Origin) (uuid name : List ℕ)
    → IsOther own_names name
    → IsOther place_names name
    → (get_field (imported_nbt root o uuid) name ≡ get_field root name)
      × (get_field (imported_nbt root o uuid) (codes "UUID") ≡ some (int_array (uuid_ints uuid)))
      × (get_field (imported_nbt root o uuid) (codes "DeathTime") ≡ none)
      × (get_field (imported_nbt root o uuid) (codes "RootVehicle") ≡ none)
      × (get_field (imported_nbt root o uuid) (codes "Passengers") ≡ none)
unfolding bytes_eq
imported_nbt-kept root o uuid name own place =
    let with_uuid = set_field (codes "UUID") (int_array (uuid_ints uuid)) root in
    (
      imported_through root o uuid name own.1.1
          ∙ get_field-revive (move_to o with_uuid) name own.1.0
          ∙ get_field-move_to o with_uuid name place
          ∙ get_field-set_field_other (codes "UUID") name (int_array (uuid_ints uuid)) root own.0,
      imported_through root o uuid (codes "UUID") (refl, (refl, (refl, tt)))
          ∙ get_field-revive (move_to o with_uuid) (codes "UUID") refl
          ∙ get_field-move_to o with_uuid (codes "UUID") (refl, (refl, (refl, (refl, (refl, tt)))))
          ∙ get_field-set_field (codes "UUID") (codes "UUID") (int_array (uuid_ints uuid)) root,
      (gone root o uuid).0,
      (gone root o uuid).1,
      (gone root o uuid).2,
    )

health_before :
    (root : Fields) (o : Option Origin) (uuid : List ℕ)
    → get_field
        (move_to o (set_field (codes "UUID") (int_array (uuid_ints uuid)) root))
        (codes "Health")
      ≡ get_field root (codes "Health")
unfolding bytes_eq
health_before root o uuid =
    get_field-move_to o _ (codes "Health") (refl, (refl, (refl, (refl, (refl, tt)))))
    ∙ get_field-set_field_other (codes "UUID") (codes "Health") (int_array (uuid_ints uuid)) root
        refl

-- An account that gets a real player's data keeps a health above 0 as it was and has 20.0 for 0,
-- for -0 and for every health below, where the health is a float32 (a NaN is kept); what stands there
-- of another type, or nothing, is left as it is.
pub imported_nbt-alive :
    (root : Fields) (o : Option Origin) (uuid : List ℕ)
    → ((u : ℕ)
        → get_field root (codes "Health") ≡ some (float u)
        → get_field (imported_nbt root o uuid) (codes "Health")
          ≡ some (float (if is_above_zero u then u else twenty)))
      × (((u : ℕ) → get_field root (codes "Health") ≢ some (float u))
          → get_field (imported_nbt root o uuid) (codes "Health") ≡ get_field root (codes "Health"))
unfolding bytes_eq
imported_nbt-alive root o uuid =
    let moved = move_to o (set_field (codes "UUID") (int_array (uuid_ints uuid)) root) in
    let through = imported_through root o uuid (codes "Health") (refl, (refl, (refl, tt))) in
    let before = health_before root o uuid in
    (
      λ u h. through ∙ revive_float moved u (before ∙ h),
      λ h.
          through
          ∙ ap (λ fs. get_field fs (codes "Health"))
              (revive_other moved (λ u e. h u (sym before ∙ e)))
          ∙ before,
    )
