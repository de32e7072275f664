-- ===== src/Nbt/Model.antt =====
-- go/internal/nbt/nbt.go: the values that the package reads and writes. A compound, a Go map, is the list
-- of its entries in the order that it ranges in.
use mcbenchmark.Prelude.{ℕ, zero, suc, List}
use mcbenchmark.Prelude.Int.{ℤ}

mutual
  pub data Value : Type 0 where
    byte : ℤ → Value
    short : ℤ → Value
    int : ℤ → Value
    long : ℤ → Value
    float : ℕ → Value
    double : ℕ → Value
    byte_array : List ℕ → Value
    text : List ℕ → Value
    -- `List`: the element type it declares, and its items
    list : ℕ → Items → Value
    compound : Fields → Value
    int_array : List ℤ → Value
    long_array : List ℤ → Value

  pub data Items : Type 0 where
    nil : Items
    cons : Value → Items → Items

  pub data Fields : Type 0 where
    end : Fields
    field : List ℕ → Value → Fields → Fields

abbrev pub count_items : Items → ℕ
count_items nil = zero
count_items (cons v items) = suc (count_items items)

-- `tagID`
unfoldable pub tag_of : Value → ℕ
tag_of (byte v) = 1
tag_of (short v) = 2
tag_of (int v) = 3
tag_of (long v) = 4
tag_of (float u) = 5
tag_of (double u) = 6
tag_of (byte_array bs) = 7
tag_of (text s) = 8
tag_of (list et items) = 9
tag_of (compound fs) = 10
tag_of (int_array vs) = 11
tag_of (long_array vs) = 12
