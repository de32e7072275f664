-- ===== src/Compile.antt =====
-- go/internal/compile/compile.go: the two-pass compiler from capture logs to traces.
pub mod Sessions
pub mod Spill
pub mod Origins
pub mod Tags
pub mod Session
pub mod Sorting
pub mod Schedule
pub mod Run
