-- ===== src/Lib.antt =====
-- Verification of ron, a kernel that runs user programs in a RISC-V 64 emulator.
--
-- The emulator (kernel/src/emulator.rs) executes one instruction per call of `tick`. It reads and
-- writes memory through the trait `EmulatorMemory`, which the virtual memory of a process
-- (kernel/src/virtmem.rs) implements, and hands ECALL to a function pointer.
--
--   Emulator.Opcode, Format      opcodes and the six 32-bit formats: unpack, pack, from, parse_imm
--   Emulator.Sign                sign_extend, and the end of each parse_imm (sign_fill)
--   Emulator.Compressed          the nine compressed formats and their immediates
--   Emulator.Expand              the first half of `tick`: from a compressed instruction to a full one;
--                                Expand.Manual is the RISC-V manual's own table
--   Emulator.Memory, Cpu         the trait EmulatorMemory as an interface; Riscv64Cpu
--   Emulator.Alu, Execute        execute_rtype_inst to execute_jtype_inst, by tables of operations
--   Emulator.Tick                the second half of `tick`, and all of it
--   VirtMem                      VirtRegion and LittleEndianVirtualMemory
--   Process                      process.rs: descriptors, nodes, pipes, states of a process
--   Syscall                      syscall.rs: exit, close, dup, dup2, pipe, fork, waitpid, the drop of
--                                a process, and read and write on pipes;
--                                Syscall.Counted is the invariant of the counts
--   Tasks, Scheduler             scheduler.rs: new_task, kill_task and the arms of tick; tick itself.
--                                Scheduler.Invariant keeps pids, tasks and signal queues together
--   Rlibc.Mem, Rlibc.Cstr        rlibc/src/mem.rs and cstr.rs over a memory of bytes
--   Rlibc.Specifier              rlibc/src/specifier_parsing.rs: one character of a specification of
--                                printf (Printf) and scanf (Scanf); Text is how they are written
--   Ext2, Ext2.Fs, Ext2.Mount    kernel/src/ext2.rs: the structures, Ext2FS and `new`
--   Ext2.Alloc                   the allocation of blocks and inodes by the bitmaps of the groups
--   Ext2.Pointer, Structure      the tree of blocks of an inode: addressing, and growth
--   Ext2.Inode                   the bytes of a file: read, write and resize
--   Base                         numbers, lists, bit operations, and runs that may panic
--
-- A machine word is a natural number with its wrap-around written out. make_iso.sh puts a debug build
-- on the image, so `+`, `-` and `*` of the source are checked: an overflow is `panic`, as are an
-- index out of range, an unmapped address and a division by zero. `Run` is a computation that may
-- panic, and an Option is the source's own. Every function is total. Only strlen, whose loop ends at
-- a zero byte, and the search through the block groups take fuel. More than the length of the string
-- is enough for the one, and the number of groups plus two for the other; the other loops run over
-- lists or count up to a bound. The search for a free bit takes the eight bits of a byte, as the
-- shift by eight panics.
--
-- The crate packed_struct is an interface (Emulator.PackedStruct) with two laws: a field is read from,
-- and put at, the bits of its attribute. The function pointer `syscall` is an argument of `tick`.
-- The two reads and writes of native and little-endian words are the same on the little-endian target.
--
-- The kernel (kernel/src/scheduler.rs) ticks each process in turn. A process reaches the global pipes,
-- signal queues and new tasks while it runs, and the task list is locked meanwhile: `Shared` and
-- `World`. The tick of a process is an argument of the scheduler, with a law on pids and new tasks.
-- A system call takes the data of its process and the pipes, and gives both back. The node of the
-- file system, the path, the environment and the machine of a process are types that stay abstract.
-- The file system works on an interface of a device (Ext2.Disk) and of the packed structures. The laws
-- are that a device is an array of bytes, and that a structure unpacks as it was packed (Ext2.Device,
-- Ext2.Layout); Ext2.Image is a device for which they hold. The operations are actions on the
-- file system that may panic, or fail and keep what they have done so far (Ext2.Monad). The check
-- of a debug build that a write is read back is a part of `write`.
--
-- `dup2` takes the number of descriptors that the heap has room for, since a program chooses how far
-- it grows them; other allocations are taken to succeed.
--
-- In rlibc a char is signed, as on the x86_64 target of the kernel, a pointer is an address, and the
-- eight bytes of a word are read before they are written. memcpy, memmove and memset return their
-- destination, which the model leaves out; strncpy, strcpy and strcat give their pointer.
--
-- Not modelled: KernPointer, UserPointer, the system calls on files, memory and exec, the folders of
-- ext2.rs, the text that goes to the serial port, and all other files of the kernel and of rlibc, of which
-- the drivers, the boot tables and the locks are I/O, atomics and unsafe memory.
pub mod Base
pub mod Emulator
pub mod VirtMem
pub mod Process
pub mod Syscall
pub mod Tasks
pub mod Scheduler
pub mod Ext2
pub mod Rlibc
