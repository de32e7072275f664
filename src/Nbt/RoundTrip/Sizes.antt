-- ===== src/Nbt/RoundTrip/Sizes.antt =====
-- go/internal/nbt/nbt.go: the values of Go's types, and how many rounds reading them takes.
use mcbenchmark.Prelude.{
  ℕ, suc, ◌+◌, ◌*◌, ◌≤◌, ◌<◌, ◌^◌, ◌≡◌, ◌++◌, All, false, length, length-append, arith,
}
use mcbenchmark.Prelude.Word.{IsI32, IsI64, Fits}
use mcbenchmark.Wire.Fixed.{be}
use mcbenchmark.Nbt.Model.{
  Value, byte, short, int, long, float, double, byte_array, text, list, compound, int_array,
  long_array, Items, nil, cons, Fields, end, field, count_items, tag_of,
}
use mcbenchmark.Nbt.Writing.{
  put_u8, put_u16, put_i32, put_i64, put_text, put_value, put_items, put_fields,
}
use mcbenchmark.Nbt.Reading.{has_name}

-- The values of Go's types: each number fits its width, each length its prefix, the items of a list
-- have the type that the list declares, and no name stands twice in a compound.
unfoldable mutual
  pub IsValue : Value → Type 0
  IsValue (byte v) = Fits 128 v
  IsValue (short v) = Fits 32768 v
  IsValue (int v) = IsI32 v
  IsValue (long v) = IsI64 v
  IsValue (float u) = u < 2 ^ 32
  IsValue (double u) = u < 2 ^ 64
  IsValue (byte_array bs) = length bs < 2 ^ 31
  IsValue (text s) = length s < 2 ^ 16
  IsValue (list et items) = (et < 256) × (count_items items < 2 ^ 31) × IsItems et items
  IsValue (compound fs) = IsFields fs
  IsValue (int_array vs) = (length vs < 2 ^ 31) × All IsI32 vs
  IsValue (long_array vs) = (length vs < 2 ^ 31) × All IsI64 vs

  pub IsItems : ℕ → Items → Type 0
  IsItems et nil = Unit {0}
  IsItems et (cons v items) = (tag_of v ≡ et) × IsValue v × IsItems et items

  pub IsFields : Fields → Type 0
  IsFields end = Unit {0}
  IsFields (field name v fs) =
      (length name < 2 ^ 16) × (has_name fs name ≡ false) × IsValue v × IsFields fs

-- The rounds that reading takes.
unfoldable mutual
  pub size_value : Value → ℕ
  size_value (byte v) = 1
  size_value (short v) = 1
  size_value (int v) = 1
  size_value (long v) = 1
  size_value (float u) = 1
  size_value (double u) = 1
  size_value (byte_array bs) = 1
  size_value (text s) = 1
  size_value (list et items) = suc (size_items items)
  size_value (compound fs) = suc (size_fields fs)
  size_value (int_array vs) = 1
  size_value (long_array vs) = 1

  pub size_items : Items → ℕ
  size_items nil = 1
  size_items (cons v items) = suc (size_value v + size_items items)

  pub size_fields : Fields → ℕ
  size_fields end = 1
  size_fields (field name v fs) = suc (size_value v + size_fields fs)

-- The written bytes outnumber the rounds, three for a byte.
mutual
  unfolding size_value put_value put_u8 put_u16 put_i32 put_i64 put_text be

  pub size_value_le : (v : Value) → size_value v + 1 ≤ 3 * length (put_value v)
  size_value_le (byte v) = omega arith
  size_value_le (short v) = omega arith
  size_value_le (int v) = omega arith
  size_value_le (long v) = omega arith
  size_value_le (float u) = omega arith
  size_value_le (double u) = omega arith
  size_value_le (byte_array bs) = omega arith
  size_value_le (text s) = omega arith
  size_value_le (int_array vs) = omega arith
  size_value_le (long_array vs) = omega arith
  size_value_le (list et items) = omega (arith, size_items_le items)
  size_value_le (compound fs) = omega (arith, size_fields_le fs)

  pub size_items_le : (items : Items) → size_items items ≤ 3 * length (put_items items) + 1
  size_items_le nil = omega arith
  size_items_le (cons v items) =
      omega
        (arith, length-append (put_value v) (put_items items), size_value_le v, size_items_le items)

  pub size_fields_le : (fs : Fields) → size_fields fs + 2 ≤ 3 * length (put_fields fs)
  size_fields_le end = omega arith
  size_fields_le (field name v fs) = omega (
    arith,
    length-append (put_text name) (put_value v ++ put_fields fs),
    length-append (put_value v) (put_fields fs),
    size_value_le v,
    size_fields_le fs,
  )
