-- ===== src/PlayerData/Fields.antt =====
-- go/internal/playerdata: compounds as Go maps, with `c[name] = v`, `c[name]` and `delete(c, name)`.
use mcbenchmark.Prelude.{
  ℕ, ◌^◌, ◌<◌, ◌≡◌, refl, List, [], ◌∷◌, length, ◌||◌, Option, none, some, if◌then◌else◌, bytes_eq,
  bytes_eq_iff, arith, Bool-cases, inl, inr,
}
use mcbenchmark.Nbt.Model.{Value, Fields, end, field}
use mcbenchmark.Nbt.Reading.{has_name}
use mcbenchmark.Nbt.RoundTrip.Sizes.{IsFields, IsValue}

-- A compound that is written out in the source.
unfoldable pub fields : List (List ℕ × Value) → Fields
fields [] = end
fields ((name, v) ∷ rest) = field name v (fields rest)

unfoldable pub get_field : Fields → List ℕ → Option Value
unfolding bytes_eq
get_field end name = none
get_field (field other v fs) name = if bytes_eq other name then some v else get_field fs name

unfoldable pub set_field : List ℕ → Value → Fields → Fields
unfolding bytes_eq
set_field name v end = field name v end
set_field name v (field other w fs) =
    if bytes_eq other name then field name v fs else field other w (set_field name v fs)

unfoldable pub delete_field : List ℕ → Fields → Fields
unfolding bytes_eq
delete_field name end = end
delete_field name (field other w fs) =
    if bytes_eq other name then delete_field name fs else field other w (delete_field name fs)

pub get_field-set_field :
    (name other : List ℕ) (v : Value) (fs : Fields)
    → get_field (set_field name v fs) other
      ≡ (if bytes_eq name other then some v else get_field fs other)
unfolding get_field set_field
get_field-set_field name other v end = refl
get_field-set_field name other v (field n w fs) = ground (
  arith,
  bytes_eq_iff n name,
  bytes_eq_iff n other,
  bytes_eq_iff name other,
  get_field-set_field name other v fs,
)

pub get_field-delete_field :
    (name other : List ℕ) (fs : Fields)
    → get_field (delete_field name fs) other
      ≡ (if bytes_eq name other then none else get_field fs other)
unfolding get_field delete_field
get_field-delete_field name other end = ground arith
get_field-delete_field name other (field n w fs) = ground (
  arith,
  bytes_eq_iff n name,
  bytes_eq_iff n other,
  bytes_eq_iff name other,
  get_field-delete_field name other fs,
)

has_name-set_field :
    (name other : List ℕ) (v : Value) (fs : Fields)
    → has_name (set_field name v fs) other ≡ bytes_eq name other || has_name fs other
unfolding has_name set_field
has_name-set_field name other v end = ground arith
has_name-set_field name other v (field n w fs) = ground (
  arith,
  bytes_eq_iff n name,
  bytes_eq_iff n other,
  bytes_eq_iff name other,
  has_name-set_field name other v fs,
)

-- A compound stays one that the writer can write.
pub set_field-IsFields :
    (name : List ℕ) (v : Value) (fs : Fields)
    → length name < 2 ^ 16
    → IsValue v
    → IsFields fs
    → IsFields (set_field name v fs)
unfolding set_field IsFields has_name
set_field-IsFields name v end short h k = (short, refl, h, tt)
set_field-IsFields name v (field n w fs) short h k = elim (Bool-cases (bytes_eq n name)) [
  | inl same ↦ rw same (short, rw ((bytes_eq_iff n name).0 same) at k.1, h, k.3)
  | inr other ↦ rw other (
    k.0,
    ground (arith, has_name-set_field name n v fs, bytes_eq_iff n name, bytes_eq_iff name n, k.1),
    k.2,
    set_field-IsFields name v fs short h k.3,
  )
]
