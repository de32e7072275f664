-- ===== src/Tests/Columns.antt =====
-- Chunk columns: a section of one state in five-bit words, and a body that is cut short.
use mcbenchmark.Prelude.{
  ℕ, zero, suc, ◌/◌, ◌<◌, ◌^◌, ◌≡◌, ◌≢◌, refl, ap, List, [], ◌∷◌, Bool, Option, some, length, All,
  arith,
}
use mcbenchmark.Prelude.Int.{ℤ, pos, negsuc}
use mcbenchmark.Wire.Reading.{ok, err, out_of_fuel, panics, Reads}
use mcbenchmark.Replay.Ledger.{Position, position_eq}
use mcbenchmark.Packets.Chunk.{Corner, un_index, longs_for}
use mcbenchmark.Packets.Chunk.States.{Writes, packed_states, read_states, state_of, keep_state}
use mcbenchmark.Packets.Chunk.Walk.{parse_chunk_blocks}
use mcbenchmark.Packets.Chunk.Rounds.{parse_chunk_blocks-ends}
use mcbenchmark.Packets.Chunk.Widths.{read_states_wide}
use mcbenchmark.Packets.Chunk.Words.{put_longs}
use mcbenchmark.Packets.Chunk.Packed.{blocks_of, packed_states-put_longs}

abbrev replicate : ℕ → ℕ → List ℕ
replicate zero v = []
replicate (suc n) v = v ∷ replicate n v

length-replicate : (n v : ℕ) → length (replicate n v) ≡ n
length-replicate zero v = refl
length-replicate (suc n) v = ap suc (length-replicate n v)

replicate-All : (P : ℕ → Type 0) (n v : ℕ) → P v → All P (replicate n v)
replicate-All P zero v h = tt
replicate-All P (suc n) v h = (h, replicate-All P n v h)

abbrev origin_corner : Corner
origin_corner = record { base_x = pos 0; lowest_y = pos 0; base_z = pos 0 }

abbrev first_block : Position → Bool
first_block p = position_eq p (pos 0, pos 0, pos 0)

abbrev two_states : Option (List ℤ)
two_states = some (pos 0 ∷ pos 9 ∷ [])

abbrev first_written : Writes
first_written = ((pos 0, pos 0, pos 0), pos 9) ∷ []

five_bits : longs_for 5 4096 ≡ ok 342
unfolding longs_for
five_bits = refl

first_seen : blocks_of first_block origin_corner two_states (replicate 4096 1) 0 ≡ ok first_written
unfolding blocks_of keep_state state_of un_index position_eq
first_seen = refl

packed_states-put_longs_example :
    Reads
      (packed_states first_block origin_corner 5 two_states)
      (put_longs 5 (64 / 5) 342 (replicate 4096 1))
      first_written
packed_states-put_longs_example =
    packed_states-put_longs first_block origin_corner two_states 5 (replicate 4096 1) 342
      first_written (replicate-All (λ v. v < 2 ^ 5) 4096 1 (omega arith)) (length-replicate 4096 1)
      five_bits first_seen

-- One heightmap is announced, and the body ends.
abbrev short_column : List ℕ
short_column = 0 ∷ 0 ∷ 0 ∷ 1 ∷ 0 ∷ 0 ∷ 0 ∷ 2 ∷ 1 ∷ []

parse_chunk_blocks-ends_example :
    parse_chunk_blocks (negsuc 3) first_block short_column ≢ err out_of_fuel
parse_chunk_blocks-ends_example = parse_chunk_blocks-ends first_block (negsuc 3) short_column

read_states_wide_example : read_states first_block origin_corner (65 ∷ 1 ∷ []) ≡ err panics
read_states_wide_example = read_states_wide first_block origin_corner 65 (1 ∷ []) (omega arith)
