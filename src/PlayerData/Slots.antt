-- ===== src/PlayerData/Slots.antt =====
-- go/internal/playerdata/playerdata.go: the slots of an inventory in a capture and in player data.
use mcbenchmark.Prelude.{
  ◌+◌, ◌-◌, ◌≡◌, List, [], ◌∷◌, ◌↔◌, Bool, false, Option, none, some, if◌then◌else◌, leb, ltb, ◌==◌,
  arith,
}
use mcbenchmark.Prelude.Int.{ℤ, pos, negsuc, ltb_ℤ}
use mcbenchmark.Prelude.Word.{to_word, of_word}
use mcbenchmark.Prelude.Text.{codes}
use mcbenchmark.Payload.Inventory.{ItemStack, InventoryPayload}
use mcbenchmark.Nbt.Model.{Value, byte, int, text, list, compound, Items, nil, cons}
use mcbenchmark.PlayerData.Fields.{fields}

unfoldable pub nbt_slot : ℤ → Option ℤ
nbt_slot (negsuc n) = none
nbt_slot (pos n) =
    if leb n 35
    then some (pos n)
    else if leb n 39
    then some (pos (100 + (n - 36)))
    else if n == 40
    then some (negsuc 105)
    else none

-- `int8(slot)`
abbrev pub to_int8 : ℤ → ℤ
to_int8 v = of_word 128 (to_word 256 v)

-- `if count < 1 { count = 1 }`
abbrev pub at_least_one : ℤ → ℤ
at_least_one v = if ltb_ℤ v (pos 1) then pos 1 else v

unfoldable pub item_nbt : ItemStack → ℤ → Value
unfolding fields
item_nbt it slot = compound (
    fields (
      (codes "Slot", byte (to_int8 slot))
      ∷ (codes "id", text it.id)
      ∷ (codes "count", int (at_least_one it.count))
      ∷ []))

unfoldable pub items_nbt : List ItemStack → Items
unfolding nbt_slot item_nbt
items_nbt [] = nil
items_nbt (it ∷ its) = elim (nbt_slot it.slot) [
  | none ↦ items_nbt its
  | some slot ↦ cons (item_nbt it slot) (items_nbt its)
]

unfoldable pub inventory_nbt : InventoryPayload → Value
unfolding items_nbt
inventory_nbt inv = list 10 (items_nbt inv.items)

-- How the game reads the slot byte of a stored item, as a slot of the open inventory: 0 to 35 for what
-- is carried, 100 to 103 for boots, leggings, chestplate and helmet, -106 for the off hand.
unfoldable pub carried_slot : ℤ → Option ℤ
carried_slot (pos n) =
    if ltb n 36
    then some (pos n)
    else if ltb n 100
    then none
    else if ltb n 104
    then some (pos (n - 64))
    else none
carried_slot (negsuc n) = if n == 105 then some (pos 40) else none

unfoldable pub is_carried : ℤ → Bool
is_carried (pos n) = ltb n 41
is_carried (negsuc n) = false

-- The slot that the game reads back from the byte that is stored for a slot of the capture.
unfoldable pub restored_slot : ℤ → Option ℤ
unfolding nbt_slot carried_slot
restored_slot a = elim (nbt_slot a) [ none ↦ none | some s ↦ carried_slot (to_int8 s) ]

-- Each of the 41 slots of a player comes back from the byte that is stored for it, the armour and the
-- off hand included, and no other slot of a capture is stored.
pub restored_slot-eq :
    (a : ℤ)
    → (restored_slot a ≡ (if is_carried a then some a else none))
      × ((nbt_slot a ≡ none) ↔ (is_carried a ≡ false))
unfolding restored_slot nbt_slot carried_slot is_carried
restored_slot-eq (negsuc n) = ground arith
restored_slot-eq (pos n) = ground arith
