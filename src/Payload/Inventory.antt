-- ===== src/Payload/Inventory.antt =====
-- go/internal/rawevent/rawevent.go: `ItemStack`, `InventoryPayload` and the loop over the stacks,
-- which the trace file shares.
use mcbenchmark.Prelude.{ℕ, zero, suc, ◌^◌, ◌<◌, ◌≡◌, List, [], ◌∷◌, ◌++◌, length, All}
use mcbenchmark.Prelude.Int.{ℤ, pos, negsuc}
use mcbenchmark.Prelude.Word.{i32, IsI32}
use mcbenchmark.Wire.Reading.{
  Result, ok, Reader, pure, fail, run, negative_count, ◌>>=◌, Reads, Reads-bind, Reads-last,
  Reads-pure, run-Reads,
}
use mcbenchmark.Wire.VarInt.{put_var_int, var_int}
use mcbenchmark.Wire.VarInt.RoundTrip.{var_int-Reads}
use mcbenchmark.Wire.Fixed.{put_string, string}
use mcbenchmark.Wire.Fixed.RoundTrip.{string-Reads, count-Reads}

pub record ItemStack : Type 0 where
  pub slot : ℤ
  pub id : List ℕ
  pub count : ℤ

pub record InventoryPayload : Type 0 where
  pub selected_slot : ℤ
  pub items : List ItemStack

-- The body of `for _, it := range d.Items`
unfoldable pub put_item : ItemStack → List ℕ
put_item it = put_var_int it.slot ++ (put_string it.id ++ put_var_int it.count)

unfoldable pub put_items : List ItemStack → List ℕ
put_items [] = []
put_items (it ∷ its) = put_item it ++ put_items its

unfoldable pub encode_inventory : InventoryPayload → List ℕ
encode_inventory d =
    put_var_int d.selected_slot ++ (put_var_int (i32 (length d.items)) ++ put_items d.items)

unfoldable pub read_item : Reader ItemStack
read_item = do
  slot ← var_int
  id ← string
  count ← var_int
  pure (record { slot = slot; id = id; count = count })

-- `for i := int32(0); i < n; i++`, which stops at the first stack it cannot read
unfoldable pub read_items : ℕ → Reader (List ItemStack)
read_items zero = pure []
read_items (suc n) = do it ← read_item; its ← read_items n; pure (it ∷ its)

-- `if n < 0 { return error }`, and the loop
unfoldable pub read_item_list : ℤ → Reader (List ItemStack)
read_item_list (negsuc n) = fail negative_count
read_item_list (pos n) = read_items n

unfoldable pub read_inventory : Reader InventoryPayload
read_inventory = do
  selected ← var_int
  n ← var_int
  its ← read_item_list n
  pure (record { selected_slot = selected; items = its })

unfoldable pub decode_inventory : List ℕ → Result InventoryPayload
decode_inventory p = run read_inventory p

pub record IsItem (it : ItemStack) : Type 0 where
  pub slot_fits : IsI32 it.slot
  pub id_fits : length it.id < 2 ^ 31
  pub count_fits : IsI32 it.count

pub record IsInventory (d : InventoryPayload) : Type 0 where
  pub selected_fits : IsI32 d.selected_slot
  pub size_fits : length d.items < 2 ^ 31
  pub items_fit : All IsItem d.items

pub item-Reads : (it : ItemStack) → IsItem it → Reads read_item (put_item it) it
unfolding read_item put_item
item-Reads it h = Reads-bind _ (var_int-Reads it.slot h.slot_fits) (
    Reads-bind _ (string-Reads it.id h.id_fits)
      (Reads-last _ (var_int-Reads it.count h.count_fits) Reads-pure))

pub items-Reads :
    (its : List ItemStack) → All IsItem its → Reads (read_items (length its)) (put_items its) its
unfolding read_items put_items
items-Reads [] h = Reads-pure
items-Reads (it ∷ its) h =
    Reads-bind _ (item-Reads it h.0) (Reads-last _ (items-Reads its h.1) Reads-pure)

pub item_list-Reads :
    (its : List ItemStack)
    → All IsItem its
    → Reads (read_item_list (pos (length its))) (put_items its) its
unfolding read_item_list
item_list-Reads its h = items-Reads its h

pub inventory-Reads :
    (d : InventoryPayload) → IsInventory d → Reads read_inventory (encode_inventory d) d
unfolding read_inventory encode_inventory
inventory-Reads d h = Reads-bind _ (var_int-Reads d.selected_slot h.selected_fits) (
    Reads-bind _ (count-Reads (length d.items) h.size_fits)
      (Reads-last _ (item_list-Reads d.items h.items_fit) Reads-pure))

-- An inventory of any number of stacks whose fields fit is decoded to itself.
pub decode_inventory-encode_inventory :
    (d : InventoryPayload) → IsInventory d → decode_inventory (encode_inventory d) ≡ ok d
unfolding decode_inventory
decode_inventory-encode_inventory d h = run-Reads (inventory-Reads d h)
