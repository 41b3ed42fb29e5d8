-- ===== src/Emulator/Cpu/Registers.antt =====
-- The register file of kernel/src/emulator.rs.
use ron.Base.{
  ℕ, zero, suc, ◌-◌, ◌^◌, ◌<◌, ◌≡◌, refl, sym, arith, ◌==◌, if◌then◌else◌, length, set, length-set,
  length-replicate, get_elem?-some, get_elem?-set_self, get_elem?-set_ne,
}
use native.Mathlib.Decide.{ℕ_discrete}
use ron.Base.Lists.{All, All-set, All-replicate, All-get_elem?}
use ron.Base.Run.{ran, ◌>>=◌}
use ron.Emulator.Cpu.{Riscv64Cpu, new_cpu, write_reg, read_reg}

abbrev pub IsWord : ℕ → Type 0
IsWord x = x < 2 ^ 64

module _ {M : Type 0} where
  -- 31 registers of 64 bits, and a 64-bit program counter.
  pub record IsValid (cpu : Riscv64Cpu M) : Type 0 where
    pub count : length cpu.registers ≡ 31
    pub words : All IsWord cpu.registers
    pub counter : IsWord cpu.program_counter

  pub new_cpu-IsValid : (mem : M) (start : ℕ) → IsWord start → IsValid (new_cpu mem start)
  unfolding new_cpu
  new_cpu-IsValid mem start h = record {
    count = length-replicate {A = ℕ} 31 0;
    words = All-replicate IsWord 31 0 (omega arith);
    counter = h;
  }

  -- Every register that an instruction can name is read without a panic, as a 64-bit word.
  pub read_reg-IsWord :
      (cpu : Riscv64Cpu M) (n : ℕ)
      → IsValid cpu
      → n < 32
      → (a : ℕ) × (read_reg cpu n ≡ ran a) × IsWord a
  unfolding read_reg
  read_reg-IsWord cpu zero v h = (0, refl, omega arith)
  read_reg-IsWord cpu (suc n) v h =
      let (a, e) = get_elem?-some cpu.registers n (omega (arith, v.count)) in
      (a, ground (arith, e), All-get_elem? IsWord cpu.registers n v.words e)

  -- A write to a register ends, and leaves the CPU valid, its memory and its counter as they were.
  pub write_reg-IsValid :
      (cpu : Riscv64Cpu M) (n val : ℕ)
      → IsValid cpu
      → n < 32
      → IsWord val
      → (c : Riscv64Cpu M) × (write_reg cpu n val ≡ ran c)
        × IsValid c
        × (c.memory ≡ cpu.memory)
        × (c.program_counter ≡ cpu.program_counter)
  unfolding write_reg
  write_reg-IsValid cpu zero val v h w = (cpu, refl, v, refl, refl)
  write_reg-IsValid cpu (suc n) val v h w =
      let at : suc n - 1 ≡ n = omega arith in
      (
        record cpu { registers = set cpu.registers n val },
        rw at (ground (arith, v.count)),
        record {
          count = omega (arith, length-set cpu.registers n val, v.count);
          words = All-set IsWord cpu.registers n val v.words w;
          counter = v.counter;
        },
        refl,
        refl,
      )

  -- On a valid CPU, after a write of a register below 32, that register holds the value written,
  -- every other gives what it gave before, a panic included, and x0 reads as 0.
  pub read-write_reg :
      (cpu : Riscv64Cpu M) (n m val : ℕ)
      → IsValid cpu
      → n < 32
      → (write_reg cpu n val >>= λ c. read_reg c m)
        ≡ (if m == 0 then ran 0 else if m == n then ran val else read_reg cpu m)
  unfolding write_reg read_reg
  read-write_reg cpu zero zero val v h = refl
  read-write_reg cpu zero (suc m) val v h = ground arith
  read-write_reg cpu (suc n) zero val v h = ground (arith, v.count)
  read-write_reg cpu (suc n) (suc m) val v h = elim (ℕ_discrete m n) [
    | yes same ↦
        ground (arith, v.count, get_elem?-set_self cpu.registers n val (omega (arith, v.count)))
    | no ne ↦
        ground
          (arith, v.count, get_elem?-set_ne cpu.registers {i = n} {j = m} val (λ e. ne (sym e)))
  ]
