-- ===== src/Emulator/Tests.antt =====
-- Instructions and CPUs on which the laws of kernel/src/emulator.rs are tried out.
use ron.Base.{ℕ, ◌^◌, ◌<◌, ◌≡◌, refl, some, [], ◌∷◌, replicate, set, arith, ◌==◌}
use ron.Base.Int.{negsuc, to_signed}
use ron.Base.Lists.{All-replicate}
use ron.Base.Run.{Run, panic, ran, ◌>>=◌}
use ron.Emulator.PackedStruct.{PackedStruct, lsb0}
use ron.Emulator.Sign.{sign_extend, widened}
use ron.Emulator.Sign.Signed.{u8_u64, sign_extend-signed}
use ron.Emulator.Opcode.{op, opimm, store, branch, lui, jal, to_primitive, get_type}
use ron.Emulator.Format.{
  RiscvRTypeInstruction, RiscvITypeInstruction, RiscvSTypeInstruction, RiscvBTypeInstruction,
  RiscvUTypeInstruction, RiscvJTypeInstruction, new_stype, new_btype, new_jtype, new_utype,
  parse_stype_imm, parse_btype_imm, parse_jtype_imm, parse_utype_imm, pack_rtype, pack_itype,
  pack_stype, pack_btype, pack_utype, pack_jtype, unpack_rtype, unpack_itype, unpack_stype,
  unpack_btype, unpack_utype, unpack_jtype,
}
use ron.Emulator.Format.RoundTrip.{FitsRType, unpack-pack, r_instruction}
use ron.Emulator.Format.Immediates.{parse-new}
use ron.Emulator.Expand.{expand}
use ron.Emulator.Cpu.{CpuAction, no_action, repeat_instruction, Riscv64Cpu, read_reg, write_reg}
use ron.Emulator.Cpu.Registers.{IsValid, IsWord}
use ron.Emulator.Execute.{
  branch_test, execute_rtype_inst, execute_itype_inst, execute_stype_inst, execute_btype_inst,
  execute_utype_inst, execute_jtype_inst, link_and_jump,
}
use ron.Emulator.Execute.RType.{execute_rtype_inst-Executes}
use ron.Emulator.Tick.{finish, tick}
use ron.Emulator.Tick.Control.{branch-finish, jump-finish}
use ron.Emulator.Tick.Decode.{tick-instruction}
use ron.Emulator.Tick.Faults.{tick-fetch_past_end}
use ron.VirtMem.{LittleEndianVirtualMemory, little_endian, read_ne, to_le_bytes}
use ron.VirtMem.Regions.{region}
use ron.VirtMem.Tests.{two_regions, code_region, two_regions-IsWellFormed}

instance abbrev packed : PackedStruct
packed = lsb0

abbrev Cpu : Type 0
Cpu = Riscv64Cpu LittleEndianVirtualMemory

-- The program counter, the value of x1 and the memory.
abbrev cpu_at : ℕ → ℕ → LittleEndianVirtualMemory → Cpu
cpu_at counter x1 memory = record {
  program_counter = counter;
  registers = set (replicate 31 0) 0 x1;
  memory = memory;
}

abbrev no_syscall : Cpu → ℕ → Run (CpuAction × Cpu × ℕ)
no_syscall cpu p = ran (repeat_instruction, cpu, p)

cpu_at-IsValid :
    (counter x1 : ℕ) (memory : LittleEndianVirtualMemory)
    → IsWord counter
    → IsWord x1
    → IsValid (cpu_at counter x1 memory)
cpu_at-IsValid counter x1 memory h k = record {
  count = refl;
  words = (k, All-replicate IsWord 30 0 (omega arith));
  counter = h;
}

-- addi x1, x0, 5
first_step :
    tick no_syscall (cpu_at 0x1000 0 two_regions) 0 ≡ ran (some tt, cpu_at 0x1004 5 two_regions, 0)
unfolding tick ron.VirtMem.read_ne ron.Emulator.Expand.expand ron.Emulator.Opcode.from_primitive
    ron.Emulator.Opcode.get_type ron.Emulator.Format.unpack_itype
    ron.Emulator.Execute.execute_itype_inst ron.Emulator.Cpu.read_reg ron.Emulator.Cpu.write_reg
    ron.Emulator.Format.parse_itype_imm ron.Emulator.Sign.sign_fill
first_step = refl

abbrev an_rtype : RiscvRTypeInstruction
an_rtype = record { opcode = op; rd = 2; funct3 = 0b100; rs1 = 1; rs2 = 0; funct7 = 1 }

an_rtype-Fits : FitsRType an_rtype
an_rtype-Fits = record {
  rd = omega arith;
  funct3 = omega arith;
  rs1 = omega arith;
  rs2 = omega arith;
  funct7 = omega arith;
}

abbrev an_itype : RiscvITypeInstruction
an_itype = record { opcode = opimm; rd = 1; funct3 = 0; rs1 = 0; imm = 5 }

abbrev an_stype : RiscvSTypeInstruction
an_stype = record { opcode = store; imm_low5 = 4; funct3 = 3; rs1 = 2; rs2 = 1; imm_hi7 = 1 }

abbrev a_btype : RiscvBTypeInstruction
a_btype = record {
  opcode = branch;
  imm_bit11 = 0;
  imm_bits_4_1 = 4;
  funct3 = 0;
  rs1 = 0;
  rs2 = 0;
  imm_bits_10_5 = 0;
  imm_bit12 = 0;
}

abbrev a_utype : RiscvUTypeInstruction
a_utype = record { opcode = lui; rd = 3; imm = 0x12345 }

abbrev a_jtype : RiscvJTypeInstruction
a_jtype = record {
  opcode = jal;
  rd = 1;
  imm_bits_19_12 = 0;
  imm_bit11 = 0;
  imm_bits_10_1 = 8;
  imm_bit20 = 0;
}

-- A memory that holds the word at 0x1000.
abbrev memory_with : ℕ → LittleEndianVirtualMemory
memory_with w = record { map = region 0x1000 (to_le_bytes 4 w) ∷ [] }

fetched_rtype : read_ne 4 (memory_with (pack_rtype an_rtype)) 0x1000 ≡ ran (pack_rtype an_rtype)
unfolding read_ne to_le_bytes pack_rtype to_primitive
fetched_rtype = refl

unpack-pack_example : unpack_rtype (pack_rtype an_rtype) ≡ some an_rtype
unpack-pack_example = unpack-pack ⦃ps = lsb0⦄ (r_instruction an_rtype) an_rtype-Fits

tick-instruction_example :
    tick no_syscall (cpu_at 0x1000 7 (memory_with (pack_rtype an_rtype))) 0 ≡ (do
      cpu' ← execute_rtype_inst (cpu_at 0x1000 7 (memory_with (pack_rtype an_rtype))) an_rtype
      finish 4 (no_action, cpu', 0))
unfolding get_type
tick-instruction_example =
    tick-instruction ⦃ps = lsb0⦄ no_syscall (cpu_at 0x1000 7 (memory_with (pack_rtype an_rtype))) 0
      (r_instruction an_rtype) fetched_rtype an_rtype-Fits refl

sign_extend-signed_example :
    (to_signed 64 (sign_extend 8 64 0xff) ≡ negsuc 0) × (sign_extend 8 64 0xff < 2 ^ 64)
sign_extend-signed_example = sign_extend-signed u8_u64 0xff (omega arith)

parse-new_example :
    (parse_stype_imm (new_stype branch 0 1 2 0x1ffe) ≡ 0xfffffffe)
    × (parse_btype_imm (new_btype branch 0 1 2 0x1ffe) ≡ 0xfffffffe)
    × (parse_jtype_imm (new_jtype branch 1 0x1ffe) ≡ 0x1ffe)
    × (parse_utype_imm (new_utype branch 1 0x1ffe) ≡ 0x1000)
parse-new_example = parse-new branch 0x1ffe 0 1 2 1 (omega arith)

tick-fetch_past_end_example : tick no_syscall (cpu_at 0x100c 0 two_regions) 0 ≡ panic
tick-fetch_past_end_example =
    tick-fetch_past_end ⦃ps = lsb0⦄ no_syscall (cpu_at 0x100c 0 two_regions) 0 0 {r = code_region}
      two_regions-IsWellFormed refl (omega arith, omega arith) (omega arith)

-- div x2, x1, x0
read_x0 : read_reg (cpu_at 0x1006 2 two_regions) 0 ≡ ran 0
unfolding read_reg
read_x0 = refl

execute_rtype_inst-Executes_example :
    execute_rtype_inst (cpu_at 0x1006 2 two_regions) an_rtype ≡ panic
execute_rtype_inst-Executes_example =
    execute_rtype_inst-Executes (cpu_at 0x1006 2 two_regions) an_rtype
      (cpu_at-IsValid 0x1006 2 two_regions (omega arith) (omega arith)) an_rtype-Fits 0 read_x0

-- beq x0, x0, 8
branch-finish_example :
    (execute_btype_inst (cpu_at 0x1000 2 two_regions) a_btype 4 >>= λ c.
    finish {P = ℕ} 4 (no_action, c, 0))
    ≡ ran (some tt, cpu_at 0x1008 2 two_regions, 0)
unfolding branch_test read_reg sign_extend ron.Emulator.Format.parse_btype_imm
    ron.Emulator.Sign.sign_fill
branch-finish_example =
    branch-finish (cpu_at 0x1000 2 two_regions) a_btype 4 0 0 0 {test = λ a b. a == b} refl refl
      refl refl (omega arith) (omega arith)

jump-finish_example :
    (link_and_jump (cpu_at 0x1000 2 two_regions) 1 0x1010 4 >>= λ (action, c).
    finish {P = ℕ} 4 (action, c, 0))
    ≡ ran (some tt, cpu_at 0x1010 0x1004 two_regions, 0)
unfolding write_reg
jump-finish_example =
    jump-finish (cpu_at 0x1000 2 two_regions) 1 0x1010 4 0
      {linked = cpu_at 0x1000 0x1004 two_regions} (omega arith) (omega arith) (omega arith)
      (omega arith) refl
