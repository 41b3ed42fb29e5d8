-- ===== src/Emulator/Tick/Compressed.antt =====
-- A compressed instruction in `tick` of kernel/src/emulator.rs.
use ron.Base.Run.{Run}
use ron.Emulator.PackedStruct.{PackedStruct}
