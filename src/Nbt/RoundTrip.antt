-- ===== src/Nbt/RoundTrip.antt =====
-- go/internal/nbt/nbt.go: what `Write` hands to gzip is what `Read` parses.
pub mod Numbers
pub mod Sizes
pub mod Scalars
pub mod Trees
