-- ===== src/Emulator.antt =====
-- kernel/src/emulator.rs: the RISC-V 64 emulator.
pub mod Sign
pub mod PackedStruct
pub mod Opcode
pub mod Format
pub mod Compressed
pub mod Expand
pub mod Memory
pub mod Cpu
pub mod Alu
pub mod Execute
pub mod Tick
mod Tests
