-- ===== src/Trace/Model.antt =====
-- go/internal/tracefile/tracefile.go: `TraceEvent`, `Origin`, `Inventory` and `Trace`.
use mcbenchmark.Prelude.{ℕ, ◌^◌, ◌≤◌, ◌<◌, ◌≡◌, List, Option, none, some, Bool, length, All}
use mcbenchmark.Prelude.Int.{ℤ}
use mcbenchmark.Prelude.Word.{IsI32, IsI64, IsU32}
use mcbenchmark.Payload.Position.{Place, IsPlaceBits}
use mcbenchmark.Payload.Inventory.{InventoryPayload, IsInventory}

pub record TraceEvent : Type 0 where
  pub offset_us : ℤ
  pub kind : ℤ
  pub content : List ℕ

pub record Origin : Type 0 where
  pub place : Place
  pub dimension : ℤ
  pub exact : Bool

-- `Inventory` has the fields of `InventoryPayload`.
pub record Trace : Type 0 where
  pub schema_version : ℕ
  pub protocol_version : ℕ
  pub world_profile_id : List ℕ
  pub trace_id : List ℕ
  pub duration_us : ℤ
  pub origin : Option Origin
  pub inventory : Option InventoryPayload
  pub events : List TraceEvent

abbrev pub latest_schema : ℕ
latest_schema = 3

abbrev pub Holds {ℓ κ} : {A : Type ℓ} → (A → Type κ) → Option A → Type κ
Holds P none = Unit
Holds P (some a) = P a

pub record IsOrigin (o : Origin) : Type 0 where
  pub place_fits : IsPlaceBits o.place
  pub dimension_fits : IsI32 o.dimension

pub record IsTraceEvent (e : TraceEvent) : Type 0 where
  pub offset_fits : IsI64 e.offset_us
  pub kind_fits : IsI32 e.kind
  pub content_fits : length e.content < 2 ^ 31

-- A trace that `Write` can represent: every field fits its width, the schema is a known one, and
-- the origin and the inventory are absent where the schema has no place for them.
pub record IsTrace (t : Trace) : Type 0 where
  pub schema_from : 1 ≤ t.schema_version
  pub schema_to : t.schema_version ≤ latest_schema
  pub protocol_fits : IsU32 t.protocol_version
  pub profile_fits : length t.world_profile_id < 2 ^ 31
  pub id_fits : length t.trace_id < 2 ^ 31
  pub duration_fits : IsI64 t.duration_us
  pub origin_fits : Holds IsOrigin t.origin
  pub inventory_fits : Holds IsInventory t.inventory
  pub count_fits : length t.events < 2 ^ 31
  pub events_fit : All IsTraceEvent t.events
  pub no_origin : t.schema_version < 2 → t.origin ≡ none
  pub no_inventory : t.schema_version < 3 → t.inventory ≡ none

-- The fields of a trace fit their widths and its schema is known, whatever the schema has a place for.
pub record IsSized (t : Trace) : Type 0 where
  pub schema_from : 1 ≤ t.schema_version
  pub schema_to : t.schema_version ≤ latest_schema
  pub protocol_fits : IsU32 t.protocol_version
  pub profile_fits : length t.world_profile_id < 2 ^ 31
  pub id_fits : length t.trace_id < 2 ^ 31
  pub duration_fits : IsI64 t.duration_us
  pub origin_fits : Holds IsOrigin t.origin
  pub inventory_fits : Holds IsInventory t.inventory
  pub count_fits : length t.events < 2 ^ 31
  pub events_fit : All IsTraceEvent t.events

-- The schema has a place for the origin and for the inventory, where the trace has them.
abbrev pub IsPlaced : Trace → Type 0
IsPlaced t = (t.schema_version < 2 → t.origin ≡ none) × (t.schema_version < 3 → t.inventory ≡ none)
