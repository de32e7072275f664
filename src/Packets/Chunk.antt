-- ===== src/Packets/Chunk.antt =====
-- go/internal/mcproto/chunk.go: a chunk column is walked byte by byte, and the states of the blocks
-- that the caller wants are kept. A map that is only ranged over is the list of its writes in order.
pub mod States
pub mod Containers
pub mod Walk
pub mod Rounds
pub mod Words
pub mod Packed
pub mod Widths
use mcbenchmark.Prelude.{ℕ, ◌+◌, ◌-◌, ◌*◌, ◌/◌, ◌==◌, Bool, if◌then◌else◌, ◌||◌, bit_and}
use mcbenchmark.Prelude.Int.{ℤ, pos, ◌==ℤ◌}
use mcbenchmark.Prelude.Word.{u32, i32, add_i32}
use mcbenchmark.Wire.Reading.{Result, ok, err, panics}
use mcbenchmark.Replay.Ledger.{Position}

-- `AirStateID`, `VoidAirStateID`, `CaveAirStateID`
abbrev pub air : ℤ
air = pos 0

abbrev pub void_air : ℤ
void_air = pos 15292

abbrev pub cave_air : ℤ
cave_air = pos 15293

unfoldable pub is_air : ℤ → Bool
is_air state = state ==ℤ air || (state ==ℤ void_air || state ==ℤ cave_air)

-- The corner of a section: `baseX`, `sectionMinY`, `baseZ`.
pub record Corner : Type 0 where
  pub base_x : ℤ
  pub lowest_y : ℤ
  pub base_z : ℤ

-- `i & 15` along x, `i >> 8` along y, `(i >> 4) & 15` along z, each as an int32
unfoldable pub un_index : ℕ → Corner → Position
unfolding add_i32 i32
un_index i c = (
  add_i32 c.base_x (i32 (bit_and i 15)),
  add_i32 c.lowest_y (i32 (i / 256)),
  add_i32 c.base_z (i32 (bit_and (i / 16) 15)),
)

-- `v * 16` on int32
unfoldable pub times_16 : ℤ → ℤ
unfolding i32 u32
times_16 v = i32 (u32 v * 16)

-- A width above 64 leaves no entry in a word, and Go's division by zero panics.
unfoldable pub longs_for : ℕ → ℕ → Result ℕ
longs_for bpe entries =
    let per_long = 64 / bpe in
    if per_long == 0 then err panics else ok ((entries + per_long - 1) / per_long)

abbrev pub section_entries : ℕ
section_entries = 4096

abbrev pub max_indirect_states : ℕ
max_indirect_states = 8

abbrev pub max_indirect_biomes : ℕ
max_indirect_biomes = 3
