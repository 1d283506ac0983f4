-- ===== src/Testing/Effects.antt =====
-- What each operation of the emulator does to each document, whether it returns or raises.
pub mod Pointwise
pub mod Adding
pub mod Outcome
pub mod Operations
pub mod Writes
pub mod Tame
