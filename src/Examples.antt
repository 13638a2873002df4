-- ===== src/Examples.antt =====
-- The programs of examples that compute something with the library.
pub mod Integrity
pub mod Latency
mod Tests
