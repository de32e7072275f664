-- ===== src/Nbt/Writing.antt =====
-- go/internal/nbt/nbt.go: the writer. Each value of the model has a tag, so that it never fails.
use mcbenchmark.Prelude.{ℕ, ◌^◌, List, [], ◌∷◌, ◌++◌, length}
use mcbenchmark.Prelude.Int.{ℤ, pos}
use mcbenchmark.Prelude.Word.{to_word}
use mcbenchmark.Wire.Fixed.{be}
use mcbenchmark.Nbt.Model.{
  Value, byte, short, int, long, float, double, byte_array, text, list, compound, int_array,
  long_array, Items, nil, cons, Fields, end, field, count_items, tag_of,
}

unfoldable pub put_u8 : ℕ → List ℕ
unfolding be
put_u8 v = be 1 v

unfoldable pub put_u16 : ℕ → List ℕ
unfolding be
put_u16 v = be 2 v

unfoldable pub put_i32 : ℤ → List ℕ
unfolding be
put_i32 v = be 4 (to_word (2 ^ 32) v)

unfoldable pub put_i64 : ℤ → List ℕ
unfolding be
put_i64 v = be 8 (to_word (2 ^ 64) v)

unfoldable pub put_text : List ℕ → List ℕ
put_text s = put_u16 (length s) ++ s

unfoldable pub put_ints : List ℤ → List ℕ
put_ints [] = []
put_ints (v ∷ vs) = put_i32 v ++ put_ints vs

unfoldable pub put_longs : List ℤ → List ℕ
put_longs [] = []
put_longs (v ∷ vs) = put_i64 v ++ put_longs vs

-- The type that is written: that of the first item, where there is one.
unfoldable pub element_type : ℕ → Items → ℕ
element_type et nil = et
element_type et (cons v items) = tag_of v

unfoldable mutual
  pub put_value : Value → List ℕ
  put_value (byte v) = put_u8 (to_word 256 v)
  put_value (short v) = put_u16 (to_word 65536 v)
  put_value (int v) = put_i32 v
  put_value (long v) = put_i64 v
  put_value (float u) = be 4 u
  put_value (double u) = be 8 u
  put_value (byte_array bs) = put_i32 (pos (length bs)) ++ bs
  put_value (text s) = put_text s
  put_value (list et items) =
      put_u8 (element_type et items) ++ (put_i32 (pos (count_items items)) ++ put_items items)
  put_value (compound fs) = put_fields fs
  put_value (int_array vs) = put_i32 (pos (length vs)) ++ put_ints vs
  put_value (long_array vs) = put_i32 (pos (length vs)) ++ put_longs vs

  pub put_items : Items → List ℕ
  put_items nil = []
  put_items (cons v items) = put_value v ++ put_items items

  pub put_fields : Fields → List ℕ
  put_fields end = put_u8 0
  put_fields (field name v fs) =
      put_u8 (tag_of v) ++ (put_text name ++ (put_value v ++ put_fields fs))

-- What `Write` hands to gzip: the root compound, with an empty name.
unfoldable pub put_root : Fields → List ℕ
put_root fs = put_u8 10 ++ (put_text [] ++ put_fields fs)
