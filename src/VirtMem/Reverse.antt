-- ===== src/VirtMem/Reverse.antt =====
-- `try_reverse_map` of kernel/src/virtmem.rs, against `VirtRegion::try_map`.
use ron.Base.{ℕ, ◌+◌, ◌^◌, ◌<◌, ◌≡◌, none, some, arith, length}
use ron.Base.Run.{ran}
use ron.VirtMem.{VirtRegion, try_map_region, try_reverse_map, get_virtual_end_inclusive}
use ron.VirtMem.Regions.{IsPlaced}

-- Every offset of a byte of a placed region has an address, and that address maps back to the
-- offset.
pub try_map-try_reverse_map :
    (r : VirtRegion) (offset : ℕ)
    → IsPlaced r
    → offset < length r.backing_storage
    → (try_reverse_map r offset ≡ ran (some (offset + r.virtual_start)))
      × (try_map_region r (offset + r.virtual_start) ≡ ran (some offset))
unfolding try_reverse_map try_map_region get_virtual_end_inclusive
try_map-try_reverse_map r offset p h = (ground arith, ground arith)

-- In a placed region that ends below 2 ^ 64, the offset one past the last byte also has an address,
-- which does not map back.
pub try_reverse_map-past_end :
    (r : VirtRegion)
    → IsPlaced r
    → length r.backing_storage + r.virtual_start < 2 ^ 64
    → (try_reverse_map r (length r.backing_storage)
        ≡ ran (some (length r.backing_storage + r.virtual_start)))
      × (try_map_region r (length r.backing_storage + r.virtual_start) ≡ ran none)
unfolding try_reverse_map try_map_region get_virtual_end_inclusive
try_reverse_map-past_end r p h = (ground arith, ground arith)
