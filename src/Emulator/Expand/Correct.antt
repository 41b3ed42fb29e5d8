-- ===== src/Emulator/Expand/Correct.antt =====
-- Every compressed instruction of the RISC-V manual becomes the instruction that it stands for, by
-- `tick` of kernel/src/emulator.rs.
pub mod Quadrant0
pub mod Quadrant1
pub mod Quadrant2
use ron.Emulator.PackedStruct.{PackedStruct}
