-- ===== src/Memory.antt =====
-- cyarg/memory.c: the collector, which marks what the roots reach and frees the rest.
pub mod Objects
pub mod Collect
pub mod Tests
