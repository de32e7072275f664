-- ===== src/Compile/Origins.antt =====
-- go/internal/compile/compile.go: `resolveOrigin` and `resolveInventory`.
pub mod Priority
use mcbenchmark.Prelude.{
  ℕ, ◌^◌, ◌<◌, ◌≡◌, refl, ◌∙◌, ap, List, [], ◌∷◌, ◌++◌, Option, none, some, Bool, true, false,
  bytes_eq, if◌then◌else◌, length, All, arith,
}
use mcbenchmark.Prelude.Int.{ℤ, ◌==ℤ◌}
use mcbenchmark.Wire.Reading.{Result, ok, err}
use mcbenchmark.Payload.Block.{DigPayload, PlacePayload, decode_dig, decode_place}
use mcbenchmark.Payload.Position.{
  Place, IsPlaceBits, MarkerPayload, encode_marker_at, decode_marker_at,
  decode_marker_at-encode_marker_at, decode_reanchor,
}
use mcbenchmark.Payload.Inventory.{InventoryPayload, decode_inventory}
use mcbenchmark.Event.{RawEvent}
use mcbenchmark.Event.Kind
use mcbenchmark.Trace.Model.{Origin}
use mcbenchmark.Float.{Floats, half, one}

-- A loop that returns at the first event it can use; `none` is `continue`.
unfoldable pub first_some {ℓ κ} : {A : Type ℓ} {B : Type κ} → (A → Option B) → List A → Option B
first_some f [] = none
first_some f (x ∷ xs) = elim (f x) [ some b ↦ some b | none ↦ first_some f xs ]

-- "session_start"
abbrev pub session_start : List ℕ
session_start =
    0x73 ∷ 0x65 ∷ 0x73 ∷ 0x73 ∷ 0x69 ∷ 0x6f ∷ 0x6e ∷ 0x5f ∷ 0x73 ∷ 0x74 ∷ 0x61 ∷ 0x72 ∷ 0x74 ∷ []

abbrev pub exact_origin : Place → ℤ → Origin
exact_origin p dimension = record { place = p; dimension = dimension; exact = true }

-- `if err != nil || !m.HasPos || m.Marker != "session_start" { continue }`
abbrev start_position : Result MarkerPayload → Option Place
start_position (err e) = none
start_position (ok m) = if bytes_eq m.marker session_start then m.position else none

unfoldable pub marker_origin : RawEvent → Option Origin
unfolding bytes_eq
marker_origin e =
    if e.kind ==ℤ Kind.marker
    then elim (start_position (decode_marker_at e.payload)) [
      | some p ↦ some (exact_origin p e.dimension_id)
      | none ↦ none
    ]
    else none

unfoldable pub reanchor_origin : RawEvent → Option Origin
reanchor_origin e =
    if e.kind ==ℤ Kind.reanchor
    then elim (decode_reanchor e.payload) [
      | ok a ↦ some (exact_origin a.place a.dimension)
      | err x ↦ none
    ]
    else none

-- The block that a dig or a placement names; any other kind is passed over.
unfoldable pub block_of : RawEvent → Option (ℤ × ℤ × ℤ)
block_of e =
    if e.kind ==ℤ Kind.dig
    then elim (decode_dig e.payload) [ ok d ↦ some (d.x, d.y, d.z) | err x ↦ none ]
    else if e.kind ==ℤ Kind.place_block
    then elim (decode_place e.payload) [ ok p ↦ some (p.x, p.y, p.z) | err x ↦ none ]
    else none

module _ (floats : Floats) where
  open floats use {of_i32, add}

  -- The centre of the block in x and z, and standing on top of it in y.
  unfoldable pub on_block : ℤ × ℤ × ℤ → Place
  on_block (x, y, z) = record {
    x = add (of_i32 x) half;
    y = add (of_i32 y) one;
    z = add (of_i32 z) half;
    yaw = 0;
    pitch = 0;
  }

  unfoldable pub block_origin : RawEvent → Option Origin
  unfolding block_of on_block
  block_origin e = elim (block_of e) [
    | some b ↦ some (exact_origin (on_block b) e.dimension_id)
    | none ↦ none
  ]

  unfoldable pub resolve_origin : List RawEvent → Option Origin
  unfolding first_some marker_origin reanchor_origin block_origin
  resolve_origin es = elim (first_some marker_origin es) [
    | some o ↦ some o
    | none ↦ elim (first_some reanchor_origin es) [
      | some o ↦ some o
      | none ↦ first_some block_origin es
    ]
  ]

unfoldable pub inventory_of : RawEvent → Option InventoryPayload
inventory_of e =
    if e.kind ==ℤ Kind.inventory_snapshot
    then elim (decode_inventory e.payload) [ ok i ↦ some i | err x ↦ none ]
    else none

unfoldable pub resolve_inventory : List RawEvent → Option InventoryPayload
unfolding first_some inventory_of
resolve_inventory es = first_some inventory_of es
