-- ===== src/Trace.antt =====
-- go/internal/tracefile/tracefile.go: the trace file, `Write` and `Read`.
pub mod Model
pub mod Origins
pub mod Events
pub mod File
pub mod RoundTrip
