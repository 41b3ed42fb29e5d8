-- ===== src/VirtMem/Tests.antt =====
-- A memory of two regions, and what the laws of kernel/src/virtmem.rs say of it.
use ron.Base.{
  get_elem?, ltb, if◌then◌else◌, suc, ℕ, ◌≡◌, refl, ◌⊎◌, inl, some, none, List, [], ◌∷◌, arith,
}
use ron.Base.Run.{panic, ran}
use ron.VirtMem.{
  remove_region, VirtRegion, LittleEndianVirtualMemory, try_map_region, try_reverse_map, try_map,
  read_ne, write_ne,
}
use ron.VirtMem.Regions.{IsWellFormed, region, Added, Refused, add_region_lem}
use ron.VirtMem.Access.{Holds, read-write, read-write_apart}
use ron.VirtMem.Reverse.{try_map-try_reverse_map, try_reverse_map-past_end}
use ron.VirtMem.Removal.{remove_region_lem}
use ron.VirtMem.Panics.{try_map-zero_start}

-- addi x1, x0, 5; c.addi x1, -3; div x2, x1, x0; c.nop; c.nop
abbrev pub code : List ℕ
code =
    0x93 ∷ 0x00 ∷ 0x50 ∷ 0x00 ∷ 0xf5 ∷ 0x10 ∷ 0x33 ∷ 0xc1 ∷ 0x00 ∷ 0x02 ∷ 0x01 ∷ 0x00 ∷ 0x01 ∷ 0x00
    ∷ []

abbrev pub code_region : VirtRegion
code_region = region 0x1000 code

abbrev pub data_region : VirtRegion
data_region = region 0x2000 (0 ∷ 0 ∷ 0 ∷ 0 ∷ 0 ∷ 0 ∷ 0 ∷ 0 ∷ [])

abbrev pub two_regions : LittleEndianVirtualMemory
two_regions = record { map = code_region ∷ data_region ∷ [] }

pub two_regions-IsWellFormed : IsWellFormed two_regions
two_regions-IsWellFormed = record {
  placed = (
    record { start = omega arith; end = omega arith },
    (record { start = omega arith; end = omega arith }, tt),
  );
  apart = ((inl (omega arith), tt), (tt, tt));
}

add_region_example :
    Added two_regions (region 0x3000 (1 ∷ [])) ⊎ Refused two_regions (region 0x3000 (1 ∷ []))
add_region_example =
    add_region_lem {m = two_regions} {s = region 0x3000 (1 ∷ [])} two_regions-IsWellFormed
      (record { start = omega arith; end = omega arith })

data-Holds : Holds two_regions 1 data_region 0x2002 4
data-Holds = record { at = refl; from = omega arith; to = omega arith }

read-write_example :
    (m' : LittleEndianVirtualMemory) × (write_ne 4 two_regions 0x2002 0xdeadbeef ≡ ran m')
    × IsWellFormed m'
    × (read_ne 4 m' 0x2002 ≡ ran 0xdeadbeef)
read-write_example =
    read-write {m = two_regions} {k = 1} {a = 0x2002} {r = data_region} 4 0xdeadbeef
      two_regions-IsWellFormed data-Holds (omega arith) (omega arith)

abbrev written : LittleEndianVirtualMemory
written = record {
  map = code_region ∷ region 0x2000 (0 ∷ 0 ∷ 0xef ∷ 0xbe ∷ 0xad ∷ 0xde ∷ 0 ∷ 0 ∷ []) ∷ [];
}

write_lem : write_ne 4 two_regions 0x2002 0xdeadbeef ≡ ran written
unfolding write_ne
write_lem = refl

read-write_apart_example : read_ne 4 written 0x1004 ≡ read_ne 4 two_regions 0x1004
read-write_apart_example =
    read-write_apart {m = two_regions} {k = 1} {a = 0x2002} {r = data_region} 4 0xdeadbeef
      two_regions-IsWellFormed data-Holds (omega arith) 0x1004 4 {m' = written} write_lem
      (inl (omega arith))

abbrev from_zero : LittleEndianVirtualMemory
from_zero = record { map = region 0 (7 ∷ 8 ∷ []) ∷ code_region ∷ [] }

try_map-zero_start_example : try_map from_zero 1 ≡ panic
try_map-zero_start_example =
    try_map-zero_start [] (code_region ∷ []) (region 0 (7 ∷ 8 ∷ [])) 1 {m = from_zero} refl tt tt
      refl

try_map-try_reverse_map_example :
    (try_reverse_map data_region 5 ≡ ran (some 0x2005))
    × (try_map_region data_region 0x2005 ≡ ran (some 5))
try_map-try_reverse_map_example =
    try_map-try_reverse_map data_region 5 (record { start = omega arith; end = omega arith })
      (omega arith)

try_reverse_map-past_end_example :
    (try_reverse_map data_region 8 ≡ ran (some 0x2008))
    × (try_map_region data_region 0x2008 ≡ ran none)
try_reverse_map-past_end_example =
    try_reverse_map-past_end data_region (record { start = omega arith; end = omega arith })
      (omega arith)

remove_region_example :
    (m' : LittleEndianVirtualMemory) × (remove_region two_regions 0 ≡ ran m')
    × IsWellFormed m'
    × ((j : ℕ)
        → get_elem? m'.map j
          ≡ (if ltb j 0 then get_elem? two_regions.map j else get_elem? two_regions.map (suc j)))
remove_region_example = remove_region_lem two_regions 0 two_regions-IsWellFormed (omega arith)
