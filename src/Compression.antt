-- ===== src/Compression.antt =====
-- The compression libraries (github.com/pierrec/lz4 for traces, compress/zlib for capture logs) are
-- not part of the repository: the code relies on this much of them. `none` is an error.
use mcbenchmark.Prelude.{ℕ, ◌≡◌, refl, List, Option, some}

pub record Compression : Type 0 where
  pub compress : List ℕ → Option (List ℕ)
  pub decompress : List ℕ → Option (List ℕ)
  -- Writing to a buffer in memory succeeds, and the reader gives back what was written.
  pub inverse : (b : List ℕ) → (c : List ℕ) × (compress b ≡ some c) × (decompress c ≡ some b)

-- The format that stores the bytes as they are.
abbrev pub stored : Compression
stored = record { compress = λ b. some b; decompress = λ b. some b; inverse = λ b. (b, refl, refl) }
