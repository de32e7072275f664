-- ===== src/Nbt/RoundTrip/Trees.antt =====
-- go/internal/nbt/nbt.go: lists and compounds, however deep, are read back.
use mcbenchmark.Prelude.{
  ℕ, zero, suc, ◌≤◌, ◌<◌, ◌^◌, ◌≡◌, ◌==◌, refl, List, [], false, length, arith,
}
use mcbenchmark.Prelude.Int.{pos}
use mcbenchmark.Wire.Reading.{
  ok, ◌>>=◌, Reads, ◌>>◌, Reads-bind, Reads-last, Reads-then, Reads-pure, run-Reads,
}
use mcbenchmark.Nbt.Model.{
  Value, byte, short, int, long, float, double, byte_array, text, list, compound, int_array,
  long_array, Items, nil, cons, Fields, end, field, count_items, tag_of,
}
use mcbenchmark.Nbt.Writing.{
  put_u8, put_u16, put_text, element_type, put_value, put_items, put_fields, put_root,
}
use mcbenchmark.Nbt.Reading.{
  read_value, read_items, read_fields, shape_of, has_name, keep_field, read_root, parse_root,
}
use mcbenchmark.Nbt.RoundTrip.Sizes.{
  IsValue, IsItems, IsFields, size_value, size_items, size_fields, size_fields_le,
}
use mcbenchmark.Nbt.RoundTrip.Numbers.{be_number-Reads, be_int-Reads, read_text-Reads}
use mcbenchmark.Nbt.RoundTrip.Scalars.{
  scalar-Reads, byte-Reads, short-Reads, int-Reads, long-Reads, float-Reads, double-Reads,
  byte_array-Reads, text-Reads, int_array-Reads, long_array-Reads,
}

-- The tag that the writer computes is the one that the list declares.
element_type_lem : (et : ℕ) (items : Items) → IsItems et items → element_type et items ≡ et
unfolding element_type IsItems
element_type_lem et nil h = refl
element_type_lem et (cons v items) h = h.0

tag_lem : (v : Value) → (tag_of v < 256) × ((tag_of v == 0) ≡ false)
unfolding tag_of
tag_lem (byte v) = (omega arith, refl)
tag_lem (short v) = (omega arith, refl)
tag_lem (int v) = (omega arith, refl)
tag_lem (long v) = (omega arith, refl)
tag_lem (float u) = (omega arith, refl)
tag_lem (double u) = (omega arith, refl)
tag_lem (byte_array bs) = (omega arith, refl)
tag_lem (text s) = (omega arith, refl)
tag_lem (list et items) = (omega arith, refl)
tag_lem (compound fs) = (omega arith, refl)
tag_lem (int_array vs) = (omega arith, refl)
tag_lem (long_array vs) = (omega arith, refl)

-- One round of each reader, with what its calls are known to read.
list-Reads :
    (et : ℕ) (items : Items) (fuel : ℕ)
    → IsValue (list et items)
    → Reads (read_items fuel et (count_items items)) (put_items items) items
    → Reads (read_value (suc fuel) 9) (put_value (list et items)) (list et items)
unfolding read_value put_value IsValue put_u8 ◌>>=◌ shape_of
list-Reads et items fuel h r = rw (element_type_lem et items h.2) (
    Reads-bind _ (be_number-Reads 1 et (omega (arith, h.0)))
      (Reads-bind _ (be_int-Reads (pos (count_items items)) h.1) (Reads-last _ r Reads-pure)))

compound-Reads :
    (fs : Fields) (fuel : ℕ)
    → Reads (read_fields fuel) (put_fields fs) fs
    → Reads (read_value (suc fuel) 10) (put_value (compound fs)) (compound fs)
unfolding read_value put_value ◌>>=◌ shape_of
compound-Reads fs fuel r = Reads-last _ r Reads-pure

cons-Reads :
    (et : ℕ) (v : Value) (items : Items) (fuel : ℕ)
    → Reads (read_value fuel et) (put_value v) v
    → Reads (read_items fuel et (count_items items)) (put_items items) items
    → Reads
        (read_items (suc fuel) et (count_items (cons v items)))
        (put_items (cons v items))
        (cons v items)
unfolding read_items put_items
cons-Reads et v items fuel rv ri = Reads-bind _ rv (Reads-last _ ri Reads-pure)

end-Reads : (fuel : ℕ) → Reads (read_fields (suc fuel)) (put_fields end) end
unfolding read_fields put_fields put_u8
end-Reads fuel = Reads-last _ (be_number-Reads 1 0 (omega arith)) Reads-pure

field-Reads :
    (name : List ℕ) (v : Value) (fs : Fields) (fuel : ℕ)
    → length name < 2 ^ 16
    → has_name fs name ≡ false
    → Reads (read_value fuel (tag_of v)) (put_value v) v
    → Reads (read_fields fuel) (put_fields fs) fs
    → Reads (read_fields (suc fuel)) (put_fields (field name v fs)) (field name v fs)
unfolding read_fields put_fields put_u8 keep_field
field-Reads name v fs fuel short_name fresh rv rf =
    Reads-bind _ (be_number-Reads 1 (tag_of v) (omega (arith, (tag_lem v).0))) (
      rw (tag_lem v).1 (
        Reads-bind _ (read_text-Reads name short_name)
          (Reads-bind _ rv (Reads-last _ rf (rw (keep_field, fresh) Reads-pure)))))

-- With the rounds that a value takes, reading gives it back.
mutual
  unfolding IsValue size_value tag_of read_items put_items read_value put_value ◌>>=◌ shape_of

  value-Reads :
      (v : Value) (fuel : ℕ)
      → IsValue v
      → size_value v ≤ fuel
      → Reads (read_value fuel (tag_of v)) (put_value v) v
  value-Reads (byte v) fuel h le = scalar-Reads 1 refl (byte-Reads v h) fuel le
  value-Reads (short v) fuel h le = scalar-Reads 2 refl (short-Reads v h) fuel le
  value-Reads (int v) fuel h le = scalar-Reads 3 refl (int-Reads v h) fuel le
  value-Reads (long v) fuel h le = scalar-Reads 4 refl (long-Reads v h) fuel le
  value-Reads (float u) fuel h le = scalar-Reads 5 refl (float-Reads u h) fuel le
  value-Reads (double u) fuel h le = scalar-Reads 6 refl (double-Reads u h) fuel le
  value-Reads (byte_array bs) fuel h le = scalar-Reads 7 refl (byte_array-Reads bs h) fuel le
  value-Reads (text s) fuel h le = scalar-Reads 8 refl (text-Reads s h) fuel le
  value-Reads (int_array vs) fuel h le = scalar-Reads 11 refl (int_array-Reads vs h.0 h.1) fuel le
  value-Reads (long_array vs) fuel h le = scalar-Reads 12 refl (long_array-Reads vs h.0 h.1) fuel le
  value-Reads (list et items) zero h le = ground arith
  value-Reads (list et items) (suc fuel) h le =
      list-Reads et items fuel h (items-Reads et items fuel h.2 (omega arith))
  value-Reads (compound fs) zero h le = ground arith
  value-Reads (compound fs) (suc fuel) h le =
      compound-Reads fs fuel (fields-Reads fs fuel h (omega arith))

  items-Reads :
      (et : ℕ) (items : Items) (fuel : ℕ)
      → IsItems et items
      → size_items items ≤ fuel
      → Reads (read_items fuel et (count_items items)) (put_items items) items
  items-Reads et nil zero h le = ground arith
  items-Reads et nil (suc fuel) h le = Reads-pure
  items-Reads et (cons v items) zero h le = ground arith
  items-Reads et (cons v items) (suc fuel) h le =
      cons-Reads et v items fuel (rw h.0 at (value-Reads v fuel h.1 (omega arith)))
        (items-Reads et items fuel h.2 (omega arith))

  fields-Reads :
      (fs : Fields) (fuel : ℕ)
      → IsFields fs
      → size_fields fs ≤ fuel
      → Reads (read_fields fuel) (put_fields fs) fs
  fields-Reads end zero h le = ground arith
  fields-Reads end (suc fuel) h le = end-Reads fuel
  fields-Reads (field name v fs) zero h le = ground arith
  fields-Reads (field name v fs) (suc fuel) h le =
      field-Reads name v fs fuel h.0 h.1 (value-Reads v fuel h.2 (omega arith))
        (fields-Reads fs fuel h.3 (omega arith))

read_root-Reads :
    (fs : Fields) (fuel : ℕ)
    → IsFields fs
    → size_fields fs ≤ fuel
    → Reads (read_root fuel) (put_root fs) fs
unfolding read_root put_root put_u8 ◌>>◌
read_root-Reads fs fuel h le =
    Reads-bind _ (be_number-Reads 1 10 (omega arith))
      (Reads-then _ (read_text-Reads [] (omega arith)) (fields-Reads fs fuel h le))

-- A compound whose values fit Go's types, and whose lists hold items of the type they declare, is
-- parsed back from what the writer hands to gzip; three rounds for each byte are enough.
pub parse_root-put_root : (fs : Fields) → IsFields fs → parse_root (put_root fs) ≡ ok fs
unfolding parse_root put_root size_fields put_u8 put_text put_u16
parse_root-put_root fs h = run-Reads (read_root-Reads fs _ h (omega (arith, size_fields_le fs)))
