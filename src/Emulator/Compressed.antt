-- ===== src/Emulator/Compressed.antt =====
-- The compressed instructions of kernel/src/emulator.rs: fields and immediates.
pub mod Fields
pub mod Immediates
