-- ===== src/VirtMem/Panics.antt =====
-- Where the virtual memory of kernel/src/virtmem.rs panics.
use ron.Base.{
  ℕ, zero, suc, ◌+◌, ◌-◌, ◌<◌, ◌≡◌, refl, some, List, [], ◌∷◌, ◌++◌, arith, length, get_elem?,
}
use ron.Base.Lists.{All}
use ron.Base.Run.{panic}
use ron.VirtMem.{
  VirtRegion, LittleEndianVirtualMemory, get_virtual_end_inclusive, try_map_region, find_region,
  try_map, slice, read_ne,
}
use ron.VirtMem.Regions.{IsPlaced, IsWellFormed}
use ron.VirtMem.Mapping.{Covers, try_map_lem, try_map_region-out}

find_region-zero_start :
    (rs ts : List VirtRegion) (r : VirtRegion) (index a : ℕ)
    → All IsPlaced rs
    → All (λ s. ¬ (Covers s a)) rs
    → r.virtual_start ≡ 0
    → find_region (rs ++ (r ∷ ts)) index a ≡ panic
unfolding find_region try_map_region get_virtual_end_inclusive
find_region-zero_start [] ts r index a p out zero_start = rw zero_start
find_region-zero_start (s ∷ rs) ts r index a p out zero_start =
    let miss = try_map_region-out {r = s} a p.0 out.0 in
    rw miss (find_region-zero_start rs ts r (suc index) a p.1 out.1 zero_start)

-- A region that starts at address 0 makes `try_map` panic for every address that no region before
-- it covers, where those are placed, its own addresses included.
pub try_map-zero_start :
    (rs ts : List VirtRegion) (r : VirtRegion) (a : ℕ) {m : LittleEndianVirtualMemory}
    → m.map ≡ rs ++ (r ∷ ts)
    → All IsPlaced rs
    → All (λ s. ¬ (Covers s a)) rs
    → r.virtual_start ≡ 0
    → try_map m a ≡ panic
unfolding try_map
try_map-zero_start rs ts r a e p out zero_start =
    rw e (find_region-zero_start rs ts r 0 a p out zero_start)

slice-short : (s : List ℕ) (o n : ℕ) → length s < o + n → 0 < n → slice s o n ≡ panic
unfolding slice
slice-short s o zero h pos = absurd (omega arith)
slice-short [] o (suc n) h pos = refl
slice-short (b ∷ s) zero (suc zero) h pos = absurd (omega arith)
slice-short (b ∷ s) zero (suc (suc n)) h pos =
    rw (slice-short s 0 (suc n) (omega arith) (omega arith))
slice-short (b ∷ s) (suc o) (suc n) h pos = slice-short s o (suc n) (omega arith) pos

-- In a well-formed memory, a read that starts in a region and reaches past its end panics, also
-- where another region holds the bytes that follow.
pub read_ne-past_end :
    {m : LittleEndianVirtualMemory} (k a n : ℕ) {r : VirtRegion}
    → IsWellFormed m
    → get_elem? m.map k ≡ some r
    → Covers r a
    → r.virtual_start + length r.backing_storage < a + n
    → read_ne n m a ≡ panic
unfolding read_ne
read_ne-past_end k a n {r} v e c past = rw (
  try_map_lem k a v e c,
  slice-short r.backing_storage (a - r.virtual_start) n (omega (arith, c)) (omega (arith, c)),
)
