-- ===== src/Emulator/Tick/Faults.antt =====
-- Where `tick` of kernel/src/emulator.rs panics, over the memory of kernel/src/virtmem.rs.
use ron.Base.{ℕ, ◌+◌, ◌<◌, ◌≡◌, some, length, get_elem?}
use ron.Base.Run.{Run, panic}
use ron.Emulator.PackedStruct.{PackedStruct}
use ron.Emulator.Cpu.{CpuAction, Riscv64Cpu}
use ron.Emulator.Tick.{tick}
use ron.VirtMem.{VirtRegion, LittleEndianVirtualMemory, little_endian}
use ron.VirtMem.Regions.{IsWellFormed}
use ron.VirtMem.Mapping.{Covers}
use ron.VirtMem.Panics.{read_ne-past_end}

-- Over a well-formed memory, `tick` panics with the program counter on the last three bytes of a
-- region, also where the two bytes of a compressed instruction are there.
pub tick-fetch_past_end :
    {P : Type 0} ⦃ps : PackedStruct⦄
    (syscall : Riscv64Cpu LittleEndianVirtualMemory
      → P
      → Run (CpuAction × Riscv64Cpu LittleEndianVirtualMemory × P))
    (cpu : Riscv64Cpu LittleEndianVirtualMemory) (prog : P) (k : ℕ) {r : VirtRegion}
    → IsWellFormed cpu.memory
    → get_elem? cpu.memory.map k ≡ some r
    → Covers r cpu.program_counter
    → r.virtual_start + length r.backing_storage < cpu.program_counter + 4
    → tick syscall cpu prog ≡ panic
unfolding tick
tick-fetch_past_end syscall cpu prog k wf e c past =
    rw (read_ne-past_end k cpu.program_counter 4 wf e c past)
