-- ===== src/Wire.antt =====
-- go/internal/mcwire/wire.go: the primitive encodings of the capture log, the trace file and the
-- protocol. A byte slice, and a Go string, is the list of its bytes. A `Reader` is the list
-- `data[off:]` that it has still to read, and a `Writer` method is the list of bytes that it
-- appends to `buf`.
pub mod Tame
pub mod Reading
pub mod Outcome
pub mod Bytes
pub mod VarInt
pub mod Fixed
use mcbenchmark.Prelude.{
  ℕ, ◌%◌, ◌^◌, ◌≡◌, List, [], ◌∷◌, ◌++◌, Bool, true, false, not, length, ◌==◌, if◌then◌else◌,
}
use mcbenchmark.Prelude.Int.{ℤ}
