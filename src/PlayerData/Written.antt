-- ===== src/PlayerData/Written.antt =====
-- go/internal/playerdata/playerdata.go: a file that `playerNBT` fills can be written and read back.
use mcbenchmark.Prelude.{
  ℕ, ◌≤◌, ◌<◌, ◌^◌, ◌≡◌, refl, List, [], ◌∷◌, length, All, Option, none, some, bytes_eq, inl, inr,
  Option-cases, arith,
}
use mcbenchmark.Prelude.Int.{ℤ, pos, negsuc}
use mcbenchmark.Prelude.Word.{Fits, IsI32, i32-IsI32}
use mcbenchmark.Prelude.Text.{codes}
use mcbenchmark.Wire.Reading.{ok}
use mcbenchmark.Trace.Model.{Origin, IsOrigin, Holds}
use mcbenchmark.Payload.Inventory.{ItemStack, InventoryPayload}
use mcbenchmark.Nbt.Model.{int, count_items, tag_of}
use mcbenchmark.Nbt.Writing.{put_root}
use mcbenchmark.Nbt.Reading.{parse_root, has_name}
use mcbenchmark.Nbt.RoundTrip.Sizes.{IsValue, IsItems, IsFields}
use mcbenchmark.Nbt.RoundTrip.Trees.{parse_root-put_root}
use mcbenchmark.PlayerData.Fields.{fields, set_field, set_field-IsFields}
use mcbenchmark.PlayerData.Slots.{
  nbt_slot, item_nbt, items_nbt, inventory_nbt, at_least_one, to_int8,
}
use mcbenchmark.PlayerData.Uuid.{uuid_ints}
use mcbenchmark.PlayerData.Files.{
  dimension_name, dimension_or_overworld, vitals, player_nbt, doubles, floats,
}

-- The inventories whose texts fit the length prefix of a string tag.
pub record IsStored (inv : InventoryPayload) : Type 0 where
  pub selected_fits : IsI32 inv.selected_slot
  pub size_fits : length inv.items < 2 ^ 31
  pub items_fit : All (λ (it : ItemStack). (length it.id < 2 ^ 16) × IsI32 it.count) inv.items

to_int8-Fits : (v : ℤ) → Fits 128 (to_int8 v)
to_int8-Fits (pos n) = ground arith
to_int8-Fits (negsuc n) = ground arith

at_least_one-IsI32 : (v : ℤ) → IsI32 v → IsI32 (at_least_one v)
at_least_one-IsI32 v h = ground arith

item_nbt-IsValue :
    (it : ItemStack) (slot : ℤ)
    → length it.id < 2 ^ 16
    → IsI32 it.count
    → IsValue (item_nbt it slot)
unfolding item_nbt fields IsValue IsFields has_name bytes_eq
item_nbt-IsValue it slot h k = (
  omega arith,
  refl,
  to_int8-Fits slot,
  (omega arith, refl, h, (omega arith, refl, at_least_one-IsI32 it.count k, tt)),
)

items_nbt-IsItems :
    (its : List ItemStack)
    → All (λ (it : ItemStack). (length it.id < 2 ^ 16) × IsI32 it.count) its
    → IsItems 10 (items_nbt its) × (count_items (items_nbt its) ≤ length its)
unfolding items_nbt IsItems tag_of item_nbt
items_nbt-IsItems [] h = (tt, omega arith)
items_nbt-IsItems (it ∷ its) h = elim (Option-cases (nbt_slot it.slot)) [
  | inl lost ↦
      let (items, few) = items_nbt-IsItems its h.1 in rw (items_nbt, lost) (items, omega arith)
  | inr (slot, kept) ↦
      let (items, few) = items_nbt-IsItems its h.1 in
      rw (items_nbt, kept) ((refl, item_nbt-IsValue it slot h.0.0 h.0.1, items), omega arith)
]

inventory_nbt-IsValue : (inv : InventoryPayload) → IsStored inv → IsValue (inventory_nbt inv)
unfolding inventory_nbt IsValue
inventory_nbt-IsValue inv h =
    let (items, few) = items_nbt-IsItems inv.items h.items_fit in
    (omega arith, omega (arith, h.size_fits), items)

dimension-fits : (d : ℤ) → length (dimension_or_overworld d) < 2 ^ 16
unfolding dimension_or_overworld dimension_name
dimension-fits (negsuc n) = omega arith
dimension-fits (pos n) = ground arith

uuid_ints-fit : (u : List ℕ) → All IsI32 (uuid_ints u) × (length (uuid_ints u) ≤ length u)
unfolding uuid_ints
uuid_ints-fit (a ∷ b ∷ c ∷ d ∷ u) =
    let (fits, few) = uuid_ints-fit u in ((i32-IsI32 _, fits), omega arith)
uuid_ints-fit [] = (tt, omega arith)
uuid_ints-fit (a ∷ []) = (tt, omega arith)
uuid_ints-fit (a ∷ b ∷ []) = (tt, omega arith)
uuid_ints-fit (a ∷ b ∷ c ∷ []) = (tt, omega arith)

doubles-IsValue : (x y z : ℕ) → x < 2 ^ 64 → y < 2 ^ 64 → z < 2 ^ 64 → IsValue (doubles x y z)
unfolding IsValue IsItems tag_of
doubles-IsValue x y z hx hy hz = (omega arith, omega arith, (refl, hx, (refl, hy, (refl, hz, tt))))

floats-IsValue : (x y : ℕ) → x < 2 ^ 32 → y < 2 ^ 32 → IsValue (floats x y)
unfolding IsValue IsItems tag_of
floats-IsValue x y hx hy = (omega arith, omega arith, (refl, hx, (refl, hy, tt)))

vitals-IsFields :
    (data_version : ℤ) (o : Origin) (game_mode : ℤ) (uuid : List ℕ)
    → IsI32 data_version
    → IsOrigin o
    → IsI32 game_mode
    → length uuid ≡ 16
    → IsFields (vitals data_version o game_mode uuid)
unfolding vitals fields IsFields IsValue IsItems has_name bytes_eq tag_of
vitals-IsFields dv o gm uuid hd ho hg hu = (
  omega arith,
  refl,
  hd,
  (
    omega arith,
    refl,
    doubles-IsValue o.place.x o.place.y o.place.z ho.place_fits.x_fits ho.place_fits.y_fits
        ho.place_fits.z_fits,
    (
      omega arith,
      refl,
      doubles-IsValue 0 0 0 (omega arith) (omega arith) (omega arith),
      (
        omega arith,
        refl,
        floats-IsValue o.place.yaw o.place.pitch ho.place_fits.yaw_fits ho.place_fits.pitch_fits,
        (
          omega arith,
          refl,
          dimension-fits o.dimension,
          (
            omega arith,
            refl,
            hg,
            (
              omega arith,
              refl,
              omega arith,
              (
                omega arith,
                refl,
                omega arith,
                (
                  omega arith,
                  refl,
                  omega arith,
                  (
                    omega arith,
                    refl,
                    omega arith,
                    (
                      omega arith,
                      refl,
                      omega arith,
                      (
                        omega arith,
                        refl,
                        omega arith,
                        (
                          omega arith,
                          refl,
                          omega arith,
                          (
                            omega arith,
                            refl,
                            omega arith,
                            (
                              omega arith,
                              refl,
                              (omega (arith, (uuid_ints-fit uuid).1), (uuid_ints-fit uuid).0),
                              (
                                omega arith,
                                refl,
                                (omega arith, omega arith, tt),
                                (omega arith, refl, (omega arith, omega arith, tt), tt),
                              ),
                            ),
                          ),
                        ),
                      ),
                    ),
                  ),
                ),
              ),
            ),
          ),
        ),
      ),
    ),
  ),
)

player_nbt-IsFields :
    (data_version : ℤ) (o : Origin) (inv : Option InventoryPayload) (game_mode : ℤ) (uuid : List ℕ)
    → IsI32 data_version
    → IsOrigin o
    → Holds IsStored inv
    → IsI32 game_mode
    → length uuid ≡ 16
    → IsFields (player_nbt data_version o inv game_mode uuid)
unfolding player_nbt IsValue
player_nbt-IsFields dv o none gm uuid hd ho hi hg hu = vitals-IsFields dv o gm uuid hd ho hg hu
player_nbt-IsFields dv o (some inv) gm uuid hd ho hi hg hu =
    set_field-IsFields (codes "SelectedItemSlot") (int inv.selected_slot)
      (set_field (codes "Inventory") (inventory_nbt inv) (vitals dv o gm uuid)) (omega arith)
      hi.selected_fits
      (set_field-IsFields (codes "Inventory") (inventory_nbt inv) (vitals dv o gm uuid)
        (omega arith) (inventory_nbt-IsValue inv hi) (vitals-IsFields dv o gm uuid hd ho hg hu))

-- The file of an account whose position, inventory, mode and version fit their types is read back as
-- the data that it was filled with: position, vitals, UUID and every item that has a slot.
pub parse_root-player_nbt :
    (data_version : ℤ) (o : Origin) (inv : Option InventoryPayload) (game_mode : ℤ) (uuid : List ℕ)
    → IsI32 data_version
    → IsOrigin o
    → Holds IsStored inv
    → IsI32 game_mode
    → length uuid ≡ 16
    → parse_root (put_root (player_nbt data_version o inv game_mode uuid))
      ≡ ok (player_nbt data_version o inv game_mode uuid)
parse_root-player_nbt dv o inv gm uuid hd ho hi hg hu =
    parse_root-put_root _ (player_nbt-IsFields dv o inv gm uuid hd ho hi hg hu)
