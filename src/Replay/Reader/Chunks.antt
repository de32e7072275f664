-- ===== src/Replay/Reader/Chunks.antt =====
-- go/internal/replay/protocol_flow.go: `readChunk`, and the section updates, folded into the ledger of
-- blocks.
use mcbenchmark.Prelude.{
  ℕ, ◌+◌, List, [], ◌∷◌, Bool, true, false, Option, none, some, if◌then◌else◌,
}
use mcbenchmark.Replay.Ledger.{Ledger, wants, min_y, set_min_section_y, apply_chunk}
use mcbenchmark.Replay.Session.{Session, learn}
use mcbenchmark.Packets.Chunk.States.{Writes}
use mcbenchmark.Packets.Chunk.Walk.{count_chunk_sections, parse_chunk_blocks}
use mcbenchmark.Replay.Reader.{parsed}

-- The ledger after a column, and whether it could be read.
unfoldable pub apply_column : Ledger → List ℕ → Ledger × Bool
apply_column l body =
    parsed (parse_chunk_blocks (min_y l).0 (wants l) body) (l, false)
      (λ c. (apply_chunk l c.states, true))

-- The height of the world is taken from the first column that shows one.
unfoldable pub column_of_count : Ledger → List ℕ → ℕ → Ledger × Bool
column_of_count l body sections =
    let (l', known) = set_min_section_y l sections in
    if known then apply_column l' body else (l', false)

unfoldable pub fold_column : Ledger → List ℕ → Ledger × Bool
fold_column l body =
    if (min_y l).1
    then apply_column l body
    else parsed (count_chunk_sections body) (l, false) (λ n. column_of_count l body n)

-- `s.blocks.noteUnparsed()` where the column was not read
unfoldable pub keep_column : Ledger × Bool → Session → Session
keep_column (l, read) s =
    let agg = record s.agg { chunks_unparsed = s.agg.chunks_unparsed + 1 } in
    if read then record s { blocks = some l } else record s { blocks = some l; agg = agg }

unfoldable pub read_chunk_of : Option Ledger → List ℕ → Session → Session
read_chunk_of none body s = s
read_chunk_of (some l) body s = keep_column (fold_column l body) s

unfoldable pub read_chunk : List ℕ → Session → Session
read_chunk body s = read_chunk_of s.blocks body s

-- `for p, st := range changes { s.blocks.set(p[0], p[1], p[2], st) }`
unfoldable pub learn_all : Writes → Option Ledger → Option Ledger
learn_all [] blocks = blocks
learn_all ((p, state) ∷ ws) blocks = learn_all ws (learn p state blocks)
