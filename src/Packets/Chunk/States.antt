-- ===== src/Packets/Chunk/States.antt =====
-- go/internal/mcproto/chunk.go: `readStates`.
use mcbenchmark.Prelude.{
  ℕ, zero, suc, ◌+◌, ◌-◌, ◌*◌, ◌/◌, ◌%◌, ◌^◌, ◌==◌, if◌then◌else◌, Bool, true, false, List, [], ◌∷◌,
  Option, none, some, take, drop, bit_and,
}
use mcbenchmark.Prelude.Int.{ℤ, pos, negsuc}
use mcbenchmark.Prelude.Word.{i32}
use mcbenchmark.Wire.Reading.{Result, ok, err, bad_palette_index, panics, Reader, ◌>>=◌}
use mcbenchmark.Wire.Bytes.{byte}
use mcbenchmark.Wire.Fixed.{of_be}
use mcbenchmark.Replay.Ledger.{Position}
use mcbenchmark.Packets.Chunk.{Corner, un_index, section_entries, max_indirect_states}
use mcbenchmark.Packets.Chunk.Containers.{lift, read_palette, read_longs}

-- `v = v<<8 | uint64(raw[li*8+b])`, for eight bytes
unfoldable pub long_at : List ℕ → ℕ → ℕ
unfolding of_be
long_at raw li = of_be (take 8 (drop (li * 8) raw))

-- `(v >> off) & mask`
unfoldable pub entry_bits : List ℕ → ℕ → ℕ → ℕ
unfolding long_at
entry_bits raw bpe i =
    let per_long = 64 / bpe in
    bit_and (long_at raw (i / per_long) / 2 ^ (i % per_long * bpe)) (2 ^ bpe - 1)

unfoldable pub palette_entry : List ℤ → ℕ → Result ℤ
palette_entry [] n = err bad_palette_index
palette_entry (v ∷ vs) zero = ok v
palette_entry (v ∷ vs) (suc n) = palette_entry vs n

-- `idx` once the palette is consulted, where there is one; a negative index panics.
unfoldable pub state_of : Option (List ℤ) → ℤ → Result ℤ
unfolding palette_entry
state_of none idx = ok idx
state_of (some palette) (pos n) = palette_entry palette n
state_of (some palette) (negsuc n) = err panics

abbrev pub Writes : Type 0
Writes = List (Position × ℤ)

-- `into[p] = state`, in front of what later entries write
abbrev pub and_write : Position → ℤ → Result Writes → Result Writes
and_write p state (ok ws) = ok ((p, state) ∷ ws)
and_write p state (err e) = err e

-- An entry that is not wanted is passed over; one that is wanted may be out of its palette.
unfoldable pub keep_state : Bool → Position → Result ℤ → Result Writes → Result Writes
keep_state false p r rest = rest
keep_state true p (ok state) rest = and_write p state rest
keep_state true p (err e) rest = err e

module _ (want : Position → Bool) (corner : Corner) where
  -- A section of one state.
  unfoldable pub fill : ℤ → ℕ → ℕ → Writes
  unfolding un_index
  fill state zero i = []
  fill state (suc left) i =
      let rest = fill state left (i + 1) in
      if want (un_index i corner) then (un_index i corner, state) ∷ rest else rest

  -- `for i := 0; i < sectionEntries; i++`, from entry `i` with `left` to come
  unfoldable pub unpack : List ℕ → ℕ → Option (List ℤ) → ℕ → ℕ → Result Writes
  unfolding un_index entry_bits state_of
  unpack raw bpe palette zero i = ok []
  unpack raw bpe palette (suc left) i =
      keep_state (want (un_index i corner)) (un_index i corner)
        (state_of palette (i32 (entry_bits raw bpe i))) (unpack raw bpe palette left (i + 1))

  -- `palette[0]`, of the palette that a width of 0 reads
  unfoldable pub single : Option (List ℤ) → Result Writes
  single (some (v ∷ vs)) = ok (fill v section_entries 0)
  single (some []) = err panics
  single none = err panics

  unfoldable pub packed_states : ℕ → Option (List ℤ) → Reader Writes
  packed_states bpe palette = do
    raw ← read_longs bpe section_entries
    lift (unpack raw bpe palette section_entries 0)

  unfoldable pub read_states : Reader Writes
  read_states = do
    bpe ← byte
    palette ← read_palette bpe max_indirect_states
    if bpe == 0 then lift (single palette) else packed_states bpe palette
