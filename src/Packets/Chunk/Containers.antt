-- ===== src/Packets/Chunk/Containers.antt =====
-- go/internal/mcproto/chunk.go: `readPalette`, `skipContainer` and `skipHeightmaps`.
use mcbenchmark.Prelude.{
  ℕ, zero, suc, ◌*◌, ◌==◌, ltb, leb, if◌then◌else◌, List, [], ◌∷◌, length, Option, none, some,
}
use mcbenchmark.Prelude.Int.{ℤ, pos, negsuc}
use mcbenchmark.Wire.Reading.{Result, ok, err, implausible_count, Reader, pure, fail, ◌>>=◌, ◌>>◌}
use mcbenchmark.Wire.Bytes.{byte, bytes}
use mcbenchmark.Wire.VarInt.{var_int}
use mcbenchmark.Packets.Chunk.{longs_for}

-- A result that reads nothing.
unfoldable pub lift {ℓ} : {A : Type ℓ} → Result A → Reader A
lift (ok a) = pure a
lift (err e) = fail e

-- `n < 0 || int(n)*unit > r.Remaining()`, the test of each count before it is believed
unfoldable pub counted {ℓ} : {A : Type ℓ} → ℕ → ℤ → (ℕ → Reader A) → Reader A
counted unit (negsuc n) f = fail implausible_count
counted unit (pos n) f = λ bs. if ltb (length bs) (n * unit) then err implausible_count else f n bs

unfoldable pub read_entries : ℕ → Reader (List ℤ)
read_entries zero = pure []
read_entries (suc n) = do v ← var_int; vs ← read_entries n; pure (v ∷ vs)

unfoldable pub single_id : Reader (Option (List ℤ))
single_id = do v ← var_int; pure (some (v ∷ []))

unfoldable pub id_table : Reader (Option (List ℤ))
unfolding read_entries
id_table = do n ← var_int; vs ← counted 1 n read_entries; pure (some vs)

-- The table of ids, or none where the entries are ids themselves.
unfoldable pub read_palette : ℕ → ℕ → Reader (Option (List ℤ))
unfolding single_id id_table
read_palette bpe max_indirect =
    if bpe == 0 then single_id else if leb bpe max_indirect then id_table else pure none

-- `r.Bytes(longsFor(int(bpe), entries) * 8)`
unfoldable pub read_longs : ℕ → ℕ → Reader (List ℕ)
unfolding lift
read_longs bpe entries = do longs ← lift (longs_for bpe entries); bytes (pos (longs * 8))

unfoldable pub skip_longs : ℕ → ℕ → Reader (Unit {0})
unfolding read_longs
skip_longs bpe entries = do read_longs bpe entries; pure tt

unfoldable pub skip_container : ℕ → ℕ → Reader (Unit {0})
unfolding read_palette skip_longs
skip_container entries max_indirect = do
  bpe ← byte
  read_palette bpe max_indirect
  if bpe == 0 then pure tt else skip_longs bpe entries

unfoldable pub skip_map : Reader (Unit {0})
skip_map = do var_int; size ← var_int; counted 8 size (λ n. bytes (pos (n * 8))); pure tt

unfoldable pub skip_maps : ℕ → Reader (Unit {0})
unfolding skip_map
skip_maps zero = pure tt
skip_maps (suc n) = do skip_map; skip_maps n

unfoldable pub skip_heightmaps : Reader (Unit {0})
unfolding skip_maps
skip_heightmaps = do n ← var_int; counted 1 n skip_maps
