-- ===== src/Trace/Origins.antt =====
-- go/internal/tracefile/tracefile.go: the optional origin and inventory blocks.
use mcbenchmark.Prelude.{
  ℕ, ◌<◌, ◌≡◌, ◌≢◌, ◌⊎◌, refl, List, [], ◌++◌, Option, none, some, Bool, true, false, ltb, lt→ltb,
  inl, inr, ltb→lt,
}
use mcbenchmark.Wire.Reading.{
  Result, ok, err, needs_schema, Reader, pure, ◌>>=◌, Reads, Reads-bind, Reads-last, Reads-pure,
}
use mcbenchmark.Wire.Bytes.{bool, put_bool, bool-Reads}
use mcbenchmark.Wire.VarInt.{put_var_int, var_int}
use mcbenchmark.Wire.VarInt.RoundTrip.{var_int-Reads}
use mcbenchmark.Payload.Position.{put_place, read_place, place-Reads}
use mcbenchmark.Payload.Inventory.{
  InventoryPayload, IsInventory, encode_inventory, read_inventory, inventory-Reads,
}
use mcbenchmark.Trace.Model.{Origin, IsOrigin, Holds}

unfoldable pub put_origin_fields : Origin → List ℕ
put_origin_fields o = put_place o.place ++ (put_var_int o.dimension ++ put_bool o.exact)

unfoldable pub read_origin_fields : Reader Origin
read_origin_fields = do
  p ← read_place
  dimension ← var_int
  exact ← bool
  pure (record { place = p; dimension = dimension; exact = exact })

-- A block that is there has the flag `true` in front.
unfoldable pub put_optional {ℓ} : {A : Type ℓ} → (A → List ℕ) → Option A → List ℕ
put_optional put none = put_bool false
put_optional put (some a) = put_bool true ++ put a

unfoldable pub read_present {ℓ} : {A : Type ℓ} → Reader A → Bool → Reader (Option A)
read_present m true = do a ← m; pure (some a)
read_present m false = pure none

unfoldable pub read_optional {ℓ} : {A : Type ℓ} → Reader A → Reader (Option A)
read_optional m = do has ← bool; read_present m has

-- Before the schema that brought the block, the file has no flag, and a value is refused.
unfoldable pub write_block {ℓ} : {A : Type ℓ} → Bool → (A → List ℕ) → Option A → Result (List ℕ)
write_block true put none = ok []
write_block true put (some a) = err needs_schema
write_block false put o = ok (put_optional put o)

unfoldable pub write_origin : ℕ → Option Origin → Result (List ℕ)
unfolding write_block
write_origin schema o = write_block (ltb schema 2) put_origin_fields o

-- `if t.SchemaVersion >= 3 { … } else if t.Inventory != nil { return error }`
unfoldable pub write_inventory : ℕ → Option InventoryPayload → Result (List ℕ)
unfolding write_block
write_inventory schema i = write_block (ltb schema 3) encode_inventory i

unfoldable pub read_block {ℓ} : {A : Type ℓ} → Bool → Reader A → Reader (Option A)
read_block true m = pure none
read_block false m = read_optional m

unfoldable pub read_origin : ℕ → Reader (Option Origin)
unfolding read_block
read_origin schema = read_block (ltb schema 2) read_origin_fields

unfoldable pub read_trace_inventory : ℕ → Reader (Option InventoryPayload)
unfolding read_block
read_trace_inventory schema = read_block (ltb schema 3) read_inventory

origin_fields-Reads : (o : Origin) → IsOrigin o → Reads read_origin_fields (put_origin_fields o) o
unfolding read_origin_fields put_origin_fields
origin_fields-Reads o h = Reads-bind _ (place-Reads o.place h.place_fits) (
    Reads-bind _ (var_int-Reads o.dimension h.dimension_fits)
      (Reads-last _ (bool-Reads o.exact) Reads-pure))

module _ {ℓ} {A : Type ℓ} (put : A → List ℕ) where
  block_refused :
      (early : Bool) (o : Option A)
      → early ≡ true
      → o ≢ none
      → write_block early put o ≡ err needs_schema
  unfolding write_block
  block_refused true none e h = absurd (h refl)
  block_refused true (some a) e h = refl
  block_refused false o e h = cc

  block-cases :
      (early : Bool) (o : Option A)
      → ((bs : List ℕ) × (write_block early put o ≡ ok bs))
        ⊎ (write_block early put o ≡ err needs_schema)
  unfolding write_block
  block-cases true none = inl ([], refl)
  block-cases true (some a) = inr refl
  block-cases false o = inl (put_optional put o, refl)

pub origin_refused :
    (schema : ℕ) (o : Option Origin)
    → schema < 2
    → o ≢ none
    → write_origin schema o ≡ err needs_schema
unfolding write_origin
origin_refused schema o h k = block_refused _ _ o (lt→ltb schema 2 h) k

pub inventory_refused :
    (schema : ℕ) (i : Option InventoryPayload)
    → schema < 3
    → i ≢ none
    → write_inventory schema i ≡ err needs_schema
unfolding write_inventory
inventory_refused schema i h k = block_refused _ _ i (lt→ltb schema 3 h) k

pub origin-cases :
    (schema : ℕ) (o : Option Origin)
    → ((bs : List ℕ) × (write_origin schema o ≡ ok bs)) ⊎ (write_origin schema o ≡ err needs_schema)
unfolding write_origin
origin-cases schema o = block-cases _ (ltb schema 2) o

module _ {ℓ κ} {A : Type ℓ} {P : A → Type κ} (m : Reader A) (put : A → List ℕ)
    (reads : (a : A) → P a → Reads m (put a) a) where
  optional-Reads : (o : Option A) → Holds P o → Reads (read_optional m) (put_optional put o) o
  unfolding read_optional put_optional
  optional-Reads none h = Reads-last _ (bool-Reads false) (unfold read_present in Reads-pure)
  optional-Reads (some a) h =
      Reads-bind _ (bool-Reads true) (unfold read_present in Reads-last _ (reads a h) Reads-pure)

  -- Whatever the schema, a block that is written is read back.
  block-Reads :
      (early : Bool) (o : Option A)
      → Holds P o
      → (early ≡ true → o ≡ none)
      → (bs : List ℕ) × (write_block early put o ≡ ok bs) × Reads (read_block early m) bs o
  unfolding write_block read_block
  block-Reads true none h absent = ([], refl, Reads-pure)
  block-Reads true (some a) h absent = cc (absent refl)
  block-Reads false o h absent = (put_optional put o, refl, optional-Reads o h)

pub origin-Reads :
    (schema : ℕ) (o : Option Origin)
    → Holds IsOrigin o
    → (schema < 2 → o ≡ none)
    → (bs : List ℕ) × (write_origin schema o ≡ ok bs) × Reads (read_origin schema) bs o
unfolding write_origin read_origin
origin-Reads schema o h absent =
    block-Reads _ _ origin_fields-Reads (ltb schema 2) o h (λ e. absent (ltb→lt schema 2 e))

pub trace_inventory-Reads :
    (schema : ℕ) (i : Option InventoryPayload)
    → Holds IsInventory i
    → (schema < 3 → i ≡ none)
    → (bs : List ℕ) × (write_inventory schema i ≡ ok bs) × Reads (read_trace_inventory schema) bs i
unfolding write_inventory read_trace_inventory
trace_inventory-Reads schema i h absent =
    block-Reads _ _ inventory-Reads (ltb schema 3) i h (λ e. absent (ltb→lt schema 3 e))
