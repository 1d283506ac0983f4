-- ===== src/Testing.antt =====
-- src/cogindex/testing.py: the in-memory Cognee emulator with fault injection. Operations run
-- without interleaving here, so the lock that they hold is never contended.
pub mod Documents
pub mod Faults
pub mod Fake
pub mod Inspection
pub mod Effects
