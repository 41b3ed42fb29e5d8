-- ===== src/VirtMem/Removal.antt =====
-- `remove_region` of kernel/src/virtmem.rs keeps the other regions, in their order.
use ron.Base.{
  ℕ, zero, suc, ◌<◌, ◌≡◌, refl, List, [], ◌∷◌, arith, length, get_elem?, ltb, if◌then◌else◌,
}
use ron.Base.Lists.{All}
use ron.Base.Run.{ran}
use ron.VirtMem.{VirtRegion, LittleEndianVirtualMemory, remove_at, remove_region}
use ron.VirtMem.Regions.{IsPlaced, Apart, AllApart, IsWellFormed}

without : List VirtRegion → ℕ → List VirtRegion
without [] i = []
without (r ∷ rs) zero = rs
without (r ∷ rs) (suc i) = r ∷ without rs i

remove_at-without :
    (rs : List VirtRegion) (i : ℕ) → i < length rs → remove_at rs i ≡ ran (without rs i)
unfolding remove_at without
remove_at-without [] i h = absurd (omega arith)
remove_at-without (r ∷ rs) zero h = refl
remove_at-without (r ∷ rs) (suc i) h = rw (remove_at-without rs i (omega arith))

All-without :
    (P : VirtRegion → Type 0) (rs : List VirtRegion) (i : ℕ) → All P rs → All P (without rs i)
unfolding without
All-without P [] i h = tt
All-without P (r ∷ rs) zero h = h.1
All-without P (r ∷ rs) (suc i) h = (h.0, All-without P rs i h.1)

AllApart-without : (rs : List VirtRegion) (i : ℕ) → AllApart rs → AllApart (without rs i)
unfolding without
AllApart-without [] i h = tt
AllApart-without (r ∷ rs) zero h = h.1
AllApart-without (r ∷ rs) (suc i) h = (All-without (Apart r) rs i h.0, AllApart-without rs i h.1)

get_elem?-without :
    (rs : List VirtRegion) (i j : ℕ)
    → i < length rs
    → get_elem? (without rs i) j ≡ (if ltb j i then get_elem? rs j else get_elem? rs (suc j))
unfolding without
get_elem?-without [] i j h = absurd (omega arith)
get_elem?-without (r ∷ rs) zero j h = ground arith
get_elem?-without (r ∷ rs) (suc i) zero h = ground arith
get_elem?-without (r ∷ rs) (suc i) (suc j) h =
    ground (arith, get_elem?-without rs i j (omega arith))

-- On a well-formed memory, `remove_region` of an index in range succeeds and keeps the memory well-
-- formed; the regions before the index keep their places, and those after it move down by one.
pub remove_region_lem :
    (m : LittleEndianVirtualMemory) (i : ℕ)
    → IsWellFormed m
    → i < length m.map
    → (m' : LittleEndianVirtualMemory) × (remove_region m i ≡ ran m')
      × IsWellFormed m'
      × ((j : ℕ)
          → get_elem? m'.map j ≡ (if ltb j i then get_elem? m.map j else get_elem? m.map (suc j)))
unfolding remove_region
remove_region_lem m i v h = (
  record { map = without m.map i },
  rw (remove_at-without m.map i h),
  record {
    placed = All-without IsPlaced m.map i v.placed;
    apart = AllApart-without m.map i v.apart;
  },
  λ j. get_elem?-without m.map i j h,
)
