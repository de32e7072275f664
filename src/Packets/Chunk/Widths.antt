-- ===== src/Packets/Chunk/Widths.antt =====
-- go/internal/mcproto/chunk.go: the widths that a container may claim.
use native.Mathlib.Nat.{div-eq_of_lt}
use mcbenchmark.Prelude.{ℕ, ◌<◌, ◌≡◌, refl, ◌∙◌, List, ◌∷◌, Bool, false, ◌==◌, leb, none, arith}
use mcbenchmark.Wire.Reading.{ok, err, panics, pure, fail, ◌>>=◌, >>=-ok, >>=-err}
use mcbenchmark.Wire.Bytes.{byte, byte_lem}
use mcbenchmark.Replay.Ledger.{Position}
use mcbenchmark.Packets.Chunk.{Corner, longs_for, section_entries}
use mcbenchmark.Packets.Chunk.Containers.{lift, read_palette, read_longs}
use mcbenchmark.Packets.Chunk.States.{packed_states, read_states}

longs_for_wide : (bpe entries : ℕ) → 64 < bpe → longs_for bpe entries ≡ err panics
unfolding longs_for
longs_for_wide bpe entries h = ground (arith, div-eq_of_lt {n = 64} {m = bpe} h)

read_palette_direct : (bpe : ℕ) (bs : List ℕ) → 8 < bpe → read_palette bpe 8 bs ≡ ok (none, bs)
unfolding read_palette pure
read_palette_direct bpe bs h =
    let positive : (bpe == 0) ≡ false = ground arith in
    let above : leb bpe 8 ≡ false = ground arith in rw (positive, above) refl

module _ (want : Position → Bool) (corner : Corner) where
  packed_states_wide :
      (bpe : ℕ) (bs : List ℕ) → 64 < bpe → packed_states want corner bpe none bs ≡ err panics
  unfolding packed_states
  packed_states_wide bpe bs h =
      >>=-err _ _ (longs_fail bpe bs (longs_for_wide bpe section_entries h))
    where
      longs_fail :
          (bpe : ℕ) (bs : List ℕ)
          → longs_for bpe section_entries ≡ err panics
          → read_longs bpe section_entries bs ≡ err panics
      longs_fail bpe bs e = unfold read_longs lift fail ◌>>=◌ in rw e refl

  -- A container that claims more than 64 bits for an entry makes the program panic, whatever follows:
  -- no entry fits a word, and the number of words is a division by zero.
  pub read_states_wide :
      (bpe : ℕ) (bs : List ℕ) → 64 < bpe → read_states want corner (bpe ∷ bs) ≡ err panics
  unfolding read_states
  read_states_wide bpe bs h =
      let positive : (bpe == 0) ≡ false = ground arith in
      >>=-ok byte _ (byte_lem bpe bs)
      ∙ >>=-ok (read_palette bpe 8) _ (read_palette_direct bpe bs (omega arith))
      ∙ rw positive (packed_states_wide bpe bs h)
