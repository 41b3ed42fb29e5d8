-- ===== src/VirtMem.antt =====
-- The virtual memory of a process in kernel/src/virtmem.rs: `VirtRegion`,
-- `LittleEndianVirtualMemory` and its `EmulatorMemory` operations. Arithmetic is that of the debug
-- build, which panics on an overflow. A byte is a number below 256.
pub mod Regions
pub mod Mapping
pub mod Storage
pub mod Access
pub mod Panics
pub mod Reverse
pub mod Removal
pub mod Tests
use ron.Base.{
  ℕ, zero, suc, ◌+◌, ◌-◌, ◌*◌, ◌/◌, ◌%◌, ◌^◌, Bool, true, false, ◌&&◌, Option, none, some, List, [],
  ◌∷◌, ◌++◌, ltb, leb, ◌==◌, if◌then◌else◌, length, set,
}
use ron.Base.Run.{Run, panic, ran, ◌>>=◌}
use ron.Emulator.Memory.{EmulatorMemory}

pub record VirtRegion : Type 0 where
  pub virtual_start : ℕ
  pub backing_storage : List ℕ

-- `virtual_start - 1 + len`, each step checked.
unfoldable pub get_virtual_end_inclusive : VirtRegion → Run ℕ
get_virtual_end_inclusive r =
    if r.virtual_start == 0
    then panic
    else if ltb (r.virtual_start - 1 + length r.backing_storage) (2 ^ 64)
    then ran (r.virtual_start - 1 + length r.backing_storage)
    else panic

-- `VirtRegion::try_map`: the offset into the region.
unfoldable pub try_map_region : VirtRegion → ℕ → Run (Option ℕ)
unfolding get_virtual_end_inclusive
try_map_region r virt_addr = do
  end ← get_virtual_end_inclusive r
  ran (
      if leb r.virtual_start virt_addr && leb virt_addr end
      then some (virt_addr - r.virtual_start)
      else none)

-- `None`, or the virtual address of an offset, where the addition is checked.
unfoldable pub try_reverse_map : VirtRegion → ℕ → Run (Option ℕ)
try_reverse_map r offset_in_region =
    if ltb (length r.backing_storage) offset_in_region
    then ran none
    else if ltb (offset_in_region + r.virtual_start) (2 ^ 64)
    then ran (some (offset_in_region + r.virtual_start))
    else panic

unfoldable pub overlaps_virtually_with : VirtRegion → VirtRegion → Run Bool
unfolding get_virtual_end_inclusive
overlaps_virtually_with self other = do
  other_end ← get_virtual_end_inclusive other
  if ltb other_end self.virtual_start then ran false else do
    self_end ← get_virtual_end_inclusive self
    ran (if ltb self_end other.virtual_start then false else true)

pub record MappingInfo : Type 0 where
  pub offset_in_region : ℕ
  pub region_index : ℕ

pub record LittleEndianVirtualMemory : Type 0 where
  pub map : List VirtRegion

unfoldable pub new_memory : LittleEndianVirtualMemory
new_memory = record { map = [] }

unfoldable pub get_number_of_regions : LittleEndianVirtualMemory → ℕ
get_number_of_regions m = length m.map

-- The `find_map` of `try_map` and `try_map_mut`, from the region at `index` on.
unfoldable pub find_region : List VirtRegion → ℕ → ℕ → Run (Option (VirtRegion × MappingInfo))
unfolding try_map_region
find_region [] index virt_addr = ran none
find_region (r ∷ rs) index virt_addr = try_map_region r virt_addr >>= λ offset. elim offset [
  | some o ↦ ran (some (r, record { offset_in_region = o; region_index = index }))
  | none ↦ find_region rs (suc index) virt_addr
]

unfoldable pub try_map : LittleEndianVirtualMemory → ℕ → Run (Option (VirtRegion × MappingInfo))
unfolding find_region
try_map m virt_addr = find_region m.map 0 virt_addr

-- The `any` of `add_region`, which stops at the first overlap.
unfoldable pub any_overlap : List VirtRegion → VirtRegion → Run Bool
unfolding overlaps_virtually_with
any_overlap [] new_range = ran false
any_overlap (r ∷ rs) new_range = overlaps_virtually_with r new_range >>= λ overlap. elim overlap [
  | true ↦ ran true
  | false ↦ any_overlap rs new_range
]

unfoldable pub add_region :
    LittleEndianVirtualMemory → ℕ → List ℕ → Run (Option (Unit {0}) × LittleEndianVirtualMemory)
unfolding any_overlap
add_region m virt_addr bytes =
    let new_range : VirtRegion = record { virtual_start = virt_addr; backing_storage = bytes } in
    any_overlap m.map new_range >>= λ overlap. elim overlap [
      | true ↦ ran (none, m)
      | false ↦ ran (some tt, record { map = m.map ++ (new_range ∷ []) })
    ]

remove_at : List VirtRegion → ℕ → Run (List VirtRegion)
remove_at [] i = panic
remove_at (r ∷ rs) zero = ran rs
remove_at (r ∷ rs) (suc i) = do rest ← remove_at rs i; ran (r ∷ rest)

unfoldable pub remove_region : LittleEndianVirtualMemory → ℕ → Run LittleEndianVirtualMemory
unfolding remove_at
remove_region m region_index = do rest ← remove_at m.map region_index; ran (record { map = rest })

unfoldable pub clear_regions : LittleEndianVirtualMemory → LittleEndianVirtualMemory
clear_regions m = record { map = [] }

-- `uN::from_le_bytes` and `to_le_bytes`, for `n` bytes.
unfoldable pub from_le_bytes : List ℕ → ℕ
from_le_bytes [] = 0
from_le_bytes (b ∷ bs) = b + 256 * from_le_bytes bs

unfoldable pub to_le_bytes : ℕ → ℕ → List ℕ
to_le_bytes zero v = []
to_le_bytes (suc n) v = v % 256 ∷ to_le_bytes n (v / 256)

-- The slice `storage[offset..offset + n]`, which panics out of range.
unfoldable pub slice : List ℕ → ℕ → ℕ → Run (List ℕ)
slice storage offset zero = if leb offset (length storage) then ran [] else panic
slice [] offset (suc n) = panic
slice (b ∷ bs) zero (suc n) = do rest ← slice bs 0 n; ran (b ∷ rest)
slice (b ∷ bs) (suc offset) (suc n) = slice bs offset (suc n)

-- The loop of a write, byte by byte; an index out of range panics.
unfoldable pub write_bytes : List ℕ → ℕ → List ℕ → Run (List ℕ)
write_bytes storage offset [] = ran storage
write_bytes storage offset (b ∷ bs) =
    let rest = write_bytes (set storage offset b) (suc offset) bs in
    if ltb offset (length storage) then rest else panic

-- `read_u8_ne` to `read_u64_ne` and `read_u32_le`, of `n` bytes.
unfoldable pub read_ne : ℕ → LittleEndianVirtualMemory → ℕ → Run ℕ
unfolding try_map from_le_bytes slice
read_ne n m addr = try_map m addr >>= λ found. elim found [
  | none ↦ panic
  | some (region, info) ↦ do
    bytes ← slice region.backing_storage info.offset_in_region n
    ran (from_le_bytes bytes)
]

-- `write_u8_ne` to `write_u64_ne`, of `n` bytes. `try_map_mut` finds the region as `try_map` does.
unfoldable pub write_ne : ℕ → LittleEndianVirtualMemory → ℕ → ℕ → Run LittleEndianVirtualMemory
unfolding try_map to_le_bytes write_bytes
write_ne n m addr val = try_map m addr >>= λ found. elim found [
  | none ↦ panic
  | some (region, info) ↦ do
    bytes ← write_bytes region.backing_storage info.offset_in_region (to_le_bytes n val)
    ran (record { map = set m.map info.region_index (record region { backing_storage = bytes }) })
]

instance abbrev pub little_endian : EmulatorMemory LittleEndianVirtualMemory
little_endian = record {
  read_u8_ne = read_ne 1;
  write_u8_ne = write_ne 1;
  read_u16_ne = read_ne 2;
  write_u16_ne = write_ne 2;
  read_u32_ne = read_ne 4;
  write_u32_ne = write_ne 4;
  read_u64_ne = read_ne 8;
  write_u64_ne = write_ne 8;
  read_u32_le = read_ne 4;
}
