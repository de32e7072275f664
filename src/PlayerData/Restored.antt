-- ===== src/PlayerData/Restored.antt =====
-- go/internal/playerdata/playerdata.go: what a reader of a written player data file finds in it.
use mcbenchmark.Prelude.{
  ℕ, ◌^◌, ◌*◌, ◌+◌, ◌≡◌, refl, sym, ◌∙◌, ap, inl, inr, List, [], ◌∷◌, ◌++◌, length, true, false,
  Option, none, some, some_eq, if◌then◌else◌, Option-cases, Bool-cases, bytes_eq, arith,
}
use mcbenchmark.Prelude.Int.{ℤ, pos, negsuc, ltb_ℤ, ◌==ℤ◌}
use mcbenchmark.Prelude.Word.{IsI32}
use mcbenchmark.Prelude.Text.{codes}
use mcbenchmark.Wire.Reading.{ok}
use mcbenchmark.Trace.Model.{Origin, IsOrigin, Holds}
use mcbenchmark.Payload.Inventory.{ItemStack, InventoryPayload}
use mcbenchmark.Nbt.Model.{
  Value, byte, int, float, double, text, list, compound, int_array, Items, nil, cons, Fields,
}
use mcbenchmark.Nbt.Writing.{put_root}
use mcbenchmark.Nbt.Reading.{parse_root}
use mcbenchmark.PlayerData.Fields.{fields, get_field, set_field, get_field-set_field}
use mcbenchmark.PlayerData.Slots.{
  nbt_slot, to_int8, at_least_one, item_nbt, items_nbt, inventory_nbt, carried_slot, is_carried,
  restored_slot, restored_slot-eq,
}
use mcbenchmark.PlayerData.Uuid.{uuid_ints}
use mcbenchmark.PlayerData.Files.{dimension_name, dimension_or_overworld, vitals, player_nbt}
use mcbenchmark.PlayerData.Written.{IsStored, parse_root-player_nbt}

-- A stack of a player: its slot, its item and how many.
abbrev pub Stack : Type 0
Stack = ℤ × List ℕ × ℤ

abbrev stack_at : Option ℤ → List ℕ → ℤ → List Stack
stack_at none id n = []
stack_at (some slot) id n = (slot, id, n) ∷ []

abbrev stack_of : Option Value → Option Value → Option Value → List Stack
stack_of (some (byte b)) (some (text id)) (some (int n)) = stack_at (carried_slot b) id n
stack_of _ _ _ = []

unfoldable pub read_stack : Value → List Stack
read_stack (compound fs) =
    stack_of (get_field fs (codes "Slot")) (get_field fs (codes "id"))
      (get_field fs (codes "count"))
read_stack _ = []

unfoldable pub read_stacks : Items → List Stack
read_stacks nil = []
read_stacks (cons v vs) = read_stack v ++ read_stacks vs

-- The stacks in an inventory, as the game reads its tags.
unfoldable pub stacks_in : Option Value → List Stack
stacks_in (some (list element vs)) = read_stacks vs
stacks_in _ = []

-- What the player of a capture carried: the stacks in the 41 slots of a player, of one item at least.
unfoldable pub carried : List ItemStack → List Stack
carried [] = []
carried (it ∷ its) =
    if is_carried it.slot
    then (it.slot, it.id, if ltb_ℤ it.count (pos 1) then pos 1 else it.count) ∷ carried its
    else carried its

abbrev pub items_of : Option InventoryPayload → List ItemStack
items_of none = []
items_of (some inv) = inv.items

unfoldable pub world_of : ℤ → List ℕ
world_of d =
    if d ==ℤ pos 1
    then codes "minecraft:the_nether"
    else if d ==ℤ pos 2
    then codes "minecraft:the_end"
    else codes "minecraft:overworld"

stored_slot :
    (a : ℤ) {s : ℤ}
    → nbt_slot a ≡ some s
    → (is_carried a ≡ true) × (carried_slot (to_int8 s) ≡ some a)
unfolding restored_slot
stored_slot a {s} h = elim (Bool-cases (is_carried a)) [
  | inl inside ↦ (inside, rw (restored_slot, h, inside) at (restored_slot-eq a).0)
  | inr outside ↦ absurd (cc (sym ((restored_slot-eq a).1.1 outside) ∙ h))
]

read_stack-item_nbt :
    (it : ItemStack) (s : ℤ)
    → nbt_slot it.slot ≡ some s
    → read_stack (item_nbt it s) ≡ (it.slot, it.id, at_least_one it.count) ∷ []
unfolding read_stack item_nbt fields get_field bytes_eq
read_stack-item_nbt it s h =
    ap (λ slot. stack_at slot it.id (at_least_one it.count)) (stored_slot it.slot h).1

read_stacks-items_nbt : (its : List ItemStack) → read_stacks (items_nbt its) ≡ carried its
unfolding read_stacks items_nbt carried
read_stacks-items_nbt [] = refl
read_stacks-items_nbt (it ∷ its) = elim (Option-cases (nbt_slot it.slot)) [
  | inl lost ↦ rw (items_nbt, lost, (restored_slot-eq it.slot).1.0 lost) (read_stacks-items_nbt its)
  | inr (s, found) ↦
      rw (items_nbt, found, read_stack-item_nbt it s found, (stored_slot it.slot found).0)
        (ap (λ rest. (it.slot, it.id, at_least_one it.count) ∷ rest) (read_stacks-items_nbt its))
]

dimension_or_overworld-eq : (d : ℤ) → dimension_or_overworld d ≡ world_of d
unfolding dimension_or_overworld dimension_name world_of
dimension_or_overworld-eq (negsuc n) = refl
dimension_or_overworld-eq (pos n) = ground arith

-- What a reader finds in the file of an account.
pub record IsRestored (version : ℤ) (o : Origin) (inv : Option InventoryPayload) (mode : ℤ)
    (uuid : List ℕ) (fs : Fields) : Type 0 where
  pub data_version : get_field fs (codes "DataVersion") ≡ some (int version)
  pub position :
      get_field fs (codes "Pos")
      ≡ some
          (list 6 (cons (double o.place.x) (cons (double o.place.y) (cons (double o.place.z) nil))))
  pub rotation :
      get_field fs (codes "Rotation")
      ≡ some (list 5 (cons (float o.place.yaw) (cons (float o.place.pitch) nil)))
  pub dimension : get_field fs (codes "Dimension") ≡ some (text (world_of o.dimension))
  pub game_mode : get_field fs (codes "playerGameType") ≡ some (int mode)
  pub health : get_field fs (codes "Health") ≡ some (float (131 * 2 ^ 23 + 2 ^ 21))
  pub identity : get_field fs (codes "UUID") ≡ some (int_array (uuid_ints uuid))
  pub stacks : stacks_in (get_field fs (codes "Inventory")) ≡ carried (items_of inv)
  pub selected :
      (held : InventoryPayload)
      → inv ≡ some held
      → get_field fs (codes "SelectedItemSlot") ≡ some (int held.selected_slot)

vitals-IsRestored :
    (version : ℤ) (o : Origin) (mode : ℤ) (uuid : List ℕ)
    → IsRestored version o none mode uuid (vitals version o mode uuid)
unfolding vitals fields get_field bytes_eq stacks_in read_stacks carried
vitals-IsRestored version o mode uuid = record {
  data_version = refl;
  position = refl;
  rotation = refl;
  dimension = ap (λ d. some (text d)) (dimension_or_overworld-eq o.dimension);
  game_mode = refl;
  health = refl;
  identity = refl;
  stacks = refl;
  selected = λ held h. absurd (cc h);
}

module _ (inv : InventoryPayload) (fs : Fields) where
  -- The two fields that an inventory adds.
  abbrev held_fields : Fields
  held_fields =
      set_field (codes "SelectedItemSlot") (int inv.selected_slot)
        (set_field (codes "Inventory") (inventory_nbt inv) fs)

  beside_inventory :
      (name : List ℕ)
      → bytes_eq (codes "SelectedItemSlot") name ≡ false
      → bytes_eq (codes "Inventory") name ≡ false
      → get_field held_fields name ≡ get_field fs name
  beside_inventory name h k =
      get_field-set_field (codes "SelectedItemSlot") name (int inv.selected_slot) _
      ∙ rw h (get_field-set_field (codes "Inventory") name (inventory_nbt inv) fs ∙ rw k refl)

player_nbt-IsRestored :
    (version : ℤ) (o : Origin) (inv : Option InventoryPayload) (mode : ℤ) (uuid : List ℕ)
    → IsRestored version o inv mode uuid (player_nbt version o inv mode uuid)
unfolding player_nbt bytes_eq inventory_nbt stacks_in
player_nbt-IsRestored version o none mode uuid = vitals-IsRestored version o mode uuid
player_nbt-IsRestored version o (some inv) mode uuid =
    let fs = vitals version o mode uuid in
    let v = vitals-IsRestored version o mode uuid in
    let same = beside_inventory inv fs in
    record {
      data_version = same (codes "DataVersion") refl refl ∙ v.data_version;
      position = same (codes "Pos") refl refl ∙ v.position;
      rotation = same (codes "Rotation") refl refl ∙ v.rotation;
      dimension = same (codes "Dimension") refl refl ∙ v.dimension;
      game_mode = same (codes "playerGameType") refl refl ∙ v.game_mode;
      health = same (codes "Health") refl refl ∙ v.health;
      identity = same (codes "UUID") refl refl ∙ v.identity;
      stacks =
          ap stacks_in (
            get_field-set_field (codes "SelectedItemSlot") (codes "Inventory")
              (int inv.selected_slot) _
            ∙ get_field-set_field (codes "Inventory") (codes "Inventory") (inventory_nbt inv) fs)
          ∙ read_stacks-items_nbt inv.items;
      selected = λ held h.
          get_field-set_field (codes "SelectedItemSlot") (codes "SelectedItemSlot")
            (int inv.selected_slot) (set_field (codes "Inventory") (inventory_nbt inv) fs)
          ∙ ap (λ (i : InventoryPayload). some (int i.selected_slot)) (some_eq h);
    }

-- The file of an account whose position, inventory, mode and version fit their types is parsed, and
-- has the position, the rotation, the dimension, the game mode, full health and the UUID that it was
-- built for; its inventory, read as the game reads it, has every stack that the player of the capture
-- carried in one of the 41 slots of a player, each in its slot, with its item and its count, one at
-- least, and the slot that was selected.
pub parse_root-IsRestored :
    (version : ℤ) (o : Origin) (inv : Option InventoryPayload) (mode : ℤ) (uuid : List ℕ)
    → IsI32 version
    → IsOrigin o
    → Holds IsStored inv
    → IsI32 mode
    → length uuid ≡ 16
    → (fs : Fields) × (parse_root (put_root (player_nbt version o inv mode uuid)) ≡ ok fs)
      × IsRestored version o inv mode uuid fs
parse_root-IsRestored version o inv mode uuid hv ho hi hm hu = (
  player_nbt version o inv mode uuid,
  parse_root-player_nbt version o inv mode uuid hv ho hi hm hu,
  player_nbt-IsRestored version o inv mode uuid,
)
