-- ===== src/Packets/Chunk/Walk.antt =====
-- go/internal/mcproto/chunk.go: `ParseChunkBlocks`, `CountChunkSections` and
-- `ParseSectionBlocksUpdate`.
use mcbenchmark.Prelude.{ℕ, zero, suc, ◌+◌, ◌/◌, Bool, false, List, [], ◌∷◌, ◌++◌, length, bit_and}
use mcbenchmark.Prelude.Int.{ℤ, pos}
use mcbenchmark.Prelude.Word.{i32, u64, add_i32}
use mcbenchmark.Wire.Reading.{Result, ok, err, out_of_fuel, Reader, pure, run, ◌>>=◌, ◌>>◌}
use mcbenchmark.Wire.Bytes.{bytes}
use mcbenchmark.Wire.VarInt.{var_int, var_long}
use mcbenchmark.Wire.Fixed.{int32_be, int64_be}
use mcbenchmark.Replay.Ledger.{Position}
use mcbenchmark.Packets.Position.{shift_left, shift_right, sign_extend, to_i32}
use mcbenchmark.Packets.Chunk.{Corner, times_16, max_indirect_biomes}
use mcbenchmark.Packets.Chunk.Containers.{skip_container, skip_heightmaps, counted, lift}
use mcbenchmark.Packets.Chunk.States.{Writes, read_states}

pub record ChunkBlocks : Type 0 where
  pub x : ℤ
  pub z : ℤ
  pub states : Writes
  pub sections : ℕ

-- The blocks of a section in front of those of the sections above it.
unfoldable pub and_sections : Writes → Result (Writes × ℕ) → Result (Writes × ℕ)
and_sections ws (ok (more, total)) = ok (ws ++ more, total)
and_sections ws (err e) = err e

module _ (want : Position → Bool) (min_section_y base_x base_z : ℤ) where
  -- The corner of the n-th section.
  unfoldable pub corner_of : ℕ → Corner
  unfolding times_16 add_i32 i32
  corner_of section = record {
    base_x = base_x;
    lowest_y = times_16 (add_i32 min_section_y (i32 section));
    base_z = base_z;
  }

  unfoldable pub read_section : ℕ → Reader Writes
  unfolding corner_of
  read_section section = do
    bytes (pos 4)
    ws ← read_states want (corner_of section)
    skip_container 64 max_indirect_biomes
    pure ws

  -- `for ; sr.Remaining() > 0; section++`, with rounds to spare
  unfoldable pub read_sections : ℕ → ℕ → List ℕ → Result (Writes × ℕ)
  unfolding read_section
  read_sections fuel section [] = ok ([], section)
  read_sections zero section (b ∷ bs) = err out_of_fuel
  read_sections (suc fuel) section (b ∷ bs) = elim (read_section section (b ∷ bs)) [
    | ok (ws, rest) ↦ and_sections ws (read_sections fuel (section + 1) rest)
    | err e ↦ err e
  ]

module _ (min_section_y : ℤ) (want : Position → Bool) where
  -- The sections of the buffer; each takes a byte at least, so its length is rounds enough.
  unfoldable pub chunk_of : ℤ → ℤ → List ℕ → Result ChunkBlocks
  unfolding read_sections
  chunk_of x z buf =
      elim (read_sections want min_section_y (times_16 x) (times_16 z) (length buf) 0 buf) [
        | ok (ws, n) ↦ ok (record { x = x; z = z; states = ws; sections = n })
        | err e ↦ err e
      ]

  unfoldable pub read_chunk_blocks : Reader ChunkBlocks
  unfolding chunk_of lift
  read_chunk_blocks = do
    x ← int32_be
    z ← int32_be
    skip_heightmaps
    len ← var_int
    buf ← counted 1 len (λ n. bytes (pos n))
    lift (chunk_of x z buf)

  unfoldable pub parse_chunk_blocks : List ℕ → Result ChunkBlocks
  unfolding read_chunk_blocks
  parse_chunk_blocks body = run read_chunk_blocks body

unfoldable pub count_chunk_sections : List ℕ → Result ℕ
unfolding parse_chunk_blocks
count_chunk_sections body = elim (parse_chunk_blocks (pos 0) (λ p. false) body) [
  | ok c ↦ ok c.sections
  | err e ↦ err e
]

-- `sx*16 + int32((local>>8)&15)` and so on
unfoldable pub local_position : ℤ → ℤ → ℤ → ℕ → Position
unfolding times_16 add_i32 i32
local_position sx sy sz low = (
  add_i32 (times_16 sx) (i32 (bit_and (low / 256) 15)),
  add_i32 (times_16 sy) (i32 (bit_and low 15)),
  add_i32 (times_16 sz) (i32 (bit_and (low / 16) 15)),
)

-- One block of the update: its state above twelve bits of local position.
unfoldable pub changed_block : ℤ → ℤ → ℤ → ℤ → Position × ℤ
unfolding local_position u64 i32
changed_block sx sy sz v = (local_position sx sy sz (bit_and (u64 v) 0xfff), i32 (u64 v / 4096))

unfoldable pub read_changes : ℤ → ℤ → ℤ → ℕ → Reader Writes
unfolding changed_block
read_changes sx sy sz zero = pure []
read_changes sx sy sz (suc n) = do
  v ← var_long
  ws ← read_changes sx sy sz n
  pure (changed_block sx sy sz v ∷ ws)

unfoldable pub read_section_blocks_update : Reader Writes
unfolding read_changes shift_left shift_right sign_extend to_i32
read_section_blocks_update = do
  at ← int64_be
  n ← var_int
  let sx = to_i32 (sign_extend (shift_right at 42) 22)
  let sy = to_i32 (sign_extend (shift_right (shift_left at 44) 44) 20)
  let sz = to_i32 (sign_extend (shift_right (shift_left at 22) 42) 22)
  counted 1 n (read_changes sx sy sz)

unfoldable pub parse_section_blocks_update : List ℕ → Result Writes
unfolding read_section_blocks_update
parse_section_blocks_update body = run read_section_blocks_update body
