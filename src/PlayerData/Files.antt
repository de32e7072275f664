-- ===== src/PlayerData/Files.antt =====
-- go/internal/playerdata: the contents of a player data file, built from a trace or taken from the file
-- of a real player. Floats are bit patterns.
use mcbenchmark.Prelude.{
  ℕ, List, [], ◌∷◌, Bool, ◌&&◌, ◌||◌, Option, none, some, if◌then◌else◌, leb, ◌==◌,
}
use mcbenchmark.Prelude.Int.{ℤ, pos, negsuc}
use mcbenchmark.Prelude.Text.{codes}
use mcbenchmark.Trace.Model.{Origin}
use mcbenchmark.Payload.Inventory.{InventoryPayload}
use mcbenchmark.Nbt.Model.{
  Value, byte, short, int, float, double, text, list, compound, int_array, nil, cons, Fields,
}
use mcbenchmark.PlayerData.Fields.{fields, get_field, set_field, delete_field}
use mcbenchmark.PlayerData.Slots.{inventory_nbt}
use mcbenchmark.PlayerData.Uuid.{uuid_ints}

-- `dimensionNames`
unfoldable pub dimension_name : ℤ → Option (List ℕ)
dimension_name (negsuc n) = none
dimension_name (pos n) =
    if n == 0
    then some (codes "minecraft:overworld")
    else if n == 1
    then some (codes "minecraft:the_nether")
    else if n == 2
    then some (codes "minecraft:the_end")
    else none

unfoldable pub dimension_or_overworld : ℤ → List ℕ
unfolding dimension_name
dimension_or_overworld d = elim (dimension_name d) [
  | some name ↦ name
  | none ↦ codes "minecraft:overworld"
]

abbrev pub doubles : ℕ → ℕ → ℕ → Value
doubles x y z = list 6 (cons (double x) (cons (double y) (cons (double z) nil)))

abbrev pub floats : ℕ → ℕ → Value
floats x y = list 5 (cons (float x) (cons (float y) nil))

-- 20.0 and 5.0 as float32
abbrev pub full_health : ℕ
full_health = 0x41a00000

abbrev pub full_saturation : ℕ
full_saturation = 0x40a00000

-- The compound that `playerNBT` starts with.
unfoldable pub vitals : ℤ → Origin → ℤ → List ℕ → Fields
unfolding dimension_or_overworld uuid_ints fields
vitals data_version o game_mode uuid = fields (
    (codes "DataVersion", int data_version)
    ∷ (codes "Pos", doubles o.place.x o.place.y o.place.z)
    ∷ (codes "Motion", doubles 0 0 0)
    ∷ (codes "Rotation", floats o.place.yaw o.place.pitch)
    ∷ (codes "Dimension", text (dimension_or_overworld o.dimension))
    ∷ (codes "playerGameType", int game_mode)
    ∷ (codes "Health", float full_health)
    ∷ (codes "foodLevel", int (pos 20))
    ∷ (codes "foodSaturationLevel", float full_saturation)
    ∷ (codes "Air", short (pos 300))
    ∷ (codes "Fire", short (negsuc 19))
    ∷ (codes "OnGround", byte (pos 1))
    ∷ (codes "FallDistance", float 0)
    ∷ (codes "Invulnerable", byte (pos 0))
    ∷ (codes "UUID", int_array (uuid_ints uuid))
    ∷ (codes "Inventory", list 10 nil)
    ∷ (codes "EnderItems", list 10 nil)
    ∷ [])

unfoldable pub player_nbt : ℤ → Origin → Option InventoryPayload → ℤ → List ℕ → Fields
unfolding vitals inventory_nbt set_field
player_nbt data_version o none game_mode uuid = vitals data_version o game_mode uuid
player_nbt data_version o (some inv) game_mode uuid =
    set_field (codes "SelectedItemSlot") (int inv.selected_slot)
      (set_field (codes "Inventory") (inventory_nbt inv) (vitals data_version o game_mode uuid))

-- `hp <= 0` on a float32: a zero, or a number with the sign bit that is not a NaN
unfoldable pub not_positive : ℕ → Bool
not_positive u = u == 0 || leb 0x80000000 u && leb u 0xff800000

-- `v.(float32)`
unfoldable pub as_float : Option Value → Option ℕ
as_float (some (float u)) = some u
as_float _ = none

-- A player who logged off dead is revived.
unfoldable pub revive : Fields → Fields
unfolding get_field set_field not_positive as_float
revive root = elim (as_float (get_field root (codes "Health"))) [
  | none ↦ root
  | some hp ↦ if not_positive hp then set_field (codes "Health") (float full_health) root else root
]

-- The position of a trace put into a player's data.
unfoldable pub move_to : Option Origin → Fields → Fields
unfolding set_field dimension_name
move_to none root = root
move_to (some o) root =
    let root' = set_field (codes "FallDistance") (float 0) (
      set_field (codes "Motion") (doubles 0 0 0) (
        set_field (codes "Rotation") (floats o.place.yaw o.place.pitch)
          (set_field (codes "Pos") (doubles o.place.x o.place.y o.place.z) root))) in
    elim (dimension_name o.dimension) [
      | none ↦ root'
      | some name ↦ set_field (codes "Dimension") (text name) root'
    ]

-- `importedNBT`, of the data that `nbt.Read` gave
unfoldable pub imported_nbt : Fields → Option Origin → List ℕ → Fields
unfolding set_field delete_field uuid_ints move_to revive
imported_nbt root o uuid = delete_field (codes "Passengers") (
    delete_field (codes "RootVehicle") (
      delete_field (codes "DeathTime")
        (revive (move_to o (set_field (codes "UUID") (int_array (uuid_ints uuid)) root)))))

-- `nbt.Int`: the int at the end of a path of names
unfoldable pub int_at : Value → List (List ℕ) → Option ℤ
unfolding get_field
int_at (int v) [] = some v
int_at (compound fs) (name ∷ path) = elim (get_field fs name) [
  | none ↦ none
  | some v ↦ int_at v path
]
int_at _ _ = none

-- `readDataVersion`, of the data of level.dat; without a number the program ends.
unfoldable pub data_version_of : Fields → Option ℤ
unfolding int_at
data_version_of root = elim (int_at (compound root) (codes "Data" ∷ codes "DataVersion" ∷ [])) [
  | some v ↦ some v
  | none ↦ int_at (compound root) (codes "DataVersion" ∷ [])
]
