-- ===== src/Nbt/Reading.antt =====
-- go/internal/nbt/nbt.go: the reader. Its recursion has fuel, three rounds for each byte of the file.
use mcbenchmark.Prelude.{
  ℕ, zero, suc, ◌*◌, ◌==◌, List, [], ◌∷◌, length, Bool, true, false, bytes_eq, if◌then◌else◌,
}
use mcbenchmark.Prelude.Int.{ℤ, pos, negsuc}
use mcbenchmark.Prelude.Word.{of_word, i32, i64}
use mcbenchmark.Wire.Reading.{
  Result, short as too_short, unknown_tag, panics, out_of_fuel, Reader, pure, fail, ◌>>=◌, ◌>>◌,
  run,
}
use mcbenchmark.Wire.Bytes.{bytes}
use mcbenchmark.Wire.Fixed.{of_be}
use mcbenchmark.Nbt.Model.{
  Value, byte, short, int, long, float, double, byte_array, text, list, compound, int_array,
  long_array, Items, nil, cons, Fields, end, field,
}

-- `take`
unfoldable pub take_bytes : ℤ → Reader (List ℕ)
take_bytes (negsuc n) = fail too_short
take_bytes (pos n) = bytes (pos n)

-- A big-endian number of `k` bytes.
unfoldable pub be_number : ℕ → Reader ℕ
be_number k = do b ← take_bytes (pos k); pure (of_be b)

unfoldable pub be_int : Reader ℤ
be_int = do u ← be_number 4; pure (i32 u)

unfoldable pub be_long : Reader ℤ
be_long = do u ← be_number 8; pure (i64 u)

unfoldable pub read_text : Reader (List ℕ)
read_text = do n ← be_number 2; take_bytes (pos n)

unfoldable pub read_ints : ℕ → Reader (List ℤ)
read_ints zero = pure []
read_ints (suc n) = do v ← be_int; vs ← read_ints n; pure (v ∷ vs)

unfoldable pub read_longs : ℕ → Reader (List ℤ)
read_longs zero = pure []
read_longs (suc n) = do v ← be_long; vs ← read_longs n; pure (v ∷ vs)

-- `make([]T, 0, min(int(n), 1024))`, which panics for a negative count, and the loop
unfoldable pub read_array : (ℕ → Reader (List ℤ)) → ℤ → Reader (List ℤ)
read_array items (negsuc n) = fail panics
read_array items (pos n) = items n

-- `if n < 0 { n = 0 }`
abbrev pub at_least_zero : ℤ → ℕ
at_least_zero (pos n) = n
at_least_zero (negsuc n) = 0

-- The tags that hold no other tag.
unfoldable pub read_scalar : ℕ → Reader Value
read_scalar id =
    if id == 1
    then (be_number 1 >>= λ u. pure (byte (of_word 128 u)))
    else if id == 2
    then (be_number 2 >>= λ u. pure (short (of_word 32768 u)))
    else if id == 3
    then (be_int >>= λ v. pure (int v))
    else if id == 4
    then (be_long >>= λ v. pure (long v))
    else if id == 5
    then (be_number 4 >>= λ u. pure (float u))
    else if id == 6
    then (be_number 8 >>= λ u. pure (double u))
    else if id == 7
    then (be_int >>= λ n. take_bytes n >>= λ bs. pure (byte_array bs))
    else if id == 8
    then (read_text >>= λ s. pure (text s))
    else if id == 11
    then (be_int >>= λ n. read_array read_ints n >>= λ vs. pure (int_array vs))
    else if id == 12
    then (be_int >>= λ n. read_array read_longs n >>= λ vs. pure (long_array vs))
    else fail unknown_tag

-- How a tag is read: as a list, as a compound, or alone.
pub data Shape : Type 0 where
  a_list a_compound a_scalar : Shape

unfoldable pub shape_of : ℕ → Shape
shape_of id = if id == 9 then a_list else if id == 10 then a_compound else a_scalar

-- `c[name] = v` where the entries that come later win
unfoldable pub has_name : Fields → List ℕ → Bool
has_name end name = false
has_name (field other v fs) name = if bytes_eq other name then true else has_name fs name

unfoldable pub keep_field : List ℕ → Value → Fields → Fields
keep_field name v fs = if has_name fs name then fs else field name v fs

unfoldable mutual
  pub read_value : ℕ → ℕ → Reader Value
  read_value zero id = fail out_of_fuel
  read_value (suc fuel) id = elim (shape_of id) [
    | a_list ↦ do
      et ← be_number 1
      n ← be_int
      items ← read_items fuel et (at_least_zero n)
      pure (list et items)
    | a_compound ↦ do fs ← read_fields fuel; pure (compound fs)
    | a_scalar ↦ read_scalar id
  ]

  pub read_items : ℕ → ℕ → ℕ → Reader Items
  read_items zero et n = fail out_of_fuel
  read_items (suc fuel) et zero = pure nil
  read_items (suc fuel) et (suc n) = do
    v ← read_value fuel et
    items ← read_items fuel et n
    pure (cons v items)

  pub read_fields : ℕ → Reader Fields
  read_fields zero = fail out_of_fuel
  read_fields (suc fuel) = be_number 1 >>= λ id. elim (id == 0) [
    | true ↦ pure end
    | false ↦ do
      name ← read_text
      v ← read_value fuel id
      fs ← read_fields fuel
      pure (keep_field name v fs)
  ]

-- `Read`, of the bytes that gzip gave: the root is a compound, and its name is left.
unfoldable pub read_root : ℕ → Reader Fields
read_root fuel = be_number 1 >>= λ id. elim (id == 10) [
  | true ↦ do read_text; read_fields fuel
  | false ↦ fail unknown_tag
]

unfoldable pub parse_root : List ℕ → Result Fields
parse_root bs = run (read_root (3 * length bs)) bs
