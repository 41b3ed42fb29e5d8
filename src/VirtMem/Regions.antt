-- ===== src/VirtMem/Regions.antt =====
-- Regions that lie apart: `overlaps_virtually_with` and `add_region` of kernel/src/virtmem.rs.
use ron.Base.{
  ℕ, ◌+◌, ◌-◌, ◌^◌, ◌≤◌, ◌≡◌, refl, ◌⊎◌, inl, inr, true, false, none, some, List, [], ◌∷◌, ◌++◌,
  arith, length,
}
use native.Mathlib.Decide.{dec_le}
use ron.Base.Lists.{All}
use ron.Base.Run.{ran}
use ron.VirtMem.{
  VirtRegion, LittleEndianVirtualMemory, get_virtual_end_inclusive, overlaps_virtually_with,
  any_overlap, add_region,
}

-- The addresses of the region are u64 numbers, and it does not start at address 0.
pub record IsPlaced (r : VirtRegion) : Type 0 where
  pub start : 1 ≤ r.virtual_start
  pub end : r.virtual_start + length r.backing_storage ≤ 2 ^ 64

-- One region ends before the other starts.
abbrev pub Apart : VirtRegion → VirtRegion → Type 0
Apart r s =
    (r.virtual_start + length r.backing_storage ≤ s.virtual_start)
    ⊎ (s.virtual_start + length s.backing_storage ≤ r.virtual_start)

abbrev pub AllApart : List VirtRegion → Type 0
AllApart [] = Unit
AllApart (r ∷ rs) = All (Apart r) rs × AllApart rs

pub record IsWellFormed (m : LittleEndianVirtualMemory) : Type 0 where
  pub placed : All IsPlaced m.map
  pub apart : AllApart m.map

abbrev pub region : ℕ → List ℕ → VirtRegion
region start bytes = record { virtual_start = start; backing_storage = bytes }

pub end_lem :
    {r : VirtRegion}
    → IsPlaced r
    → get_virtual_end_inclusive r ≡ ran (r.virtual_start + length r.backing_storage - 1)
unfolding get_virtual_end_inclusive
end_lem p = ground arith

overlaps_lem :
    (r s : VirtRegion)
    → IsPlaced r
    → IsPlaced s
    → ((overlaps_virtually_with r s ≡ ran false) × Apart r s)
      ⊎ ((overlaps_virtually_with r s ≡ ran true) × ¬ (Apart r s))
unfolding overlaps_virtually_with get_virtual_end_inclusive
overlaps_lem r s p q = elim (dec_le (r.virtual_start + length r.backing_storage) s.virtual_start) [
  | yes before ↦ inl (ground arith, inl before)
  | no reaches ↦ elim (dec_le (s.virtual_start + length s.backing_storage) r.virtual_start) [
    | yes after ↦ inl (ground arith, inr after)
    | no meets ↦ inr (ground arith, omega arith)
  ]
]

any_overlap_lem :
    (rs : List VirtRegion) (s : VirtRegion)
    → All IsPlaced rs
    → IsPlaced s
    → ((any_overlap rs s ≡ ran false) × All (λ r. Apart r s) rs)
      ⊎ ((any_overlap rs s ≡ ran true) × ¬ (All (λ r. Apart r s) rs))
unfolding any_overlap
any_overlap_lem [] s p q = inl (refl, tt)
any_overlap_lem (r ∷ rs) s p q = elim (overlaps_lem r s p.0 q) [
  | inl (e, apart) ↦ elim (any_overlap_lem rs s p.1 q) [
    | inl (e', rest) ↦ inl (rw e e', (apart, rest))
    | inr (e', hit) ↦ inr (rw e e', λ all. hit all.1)
  ]
  | inr (e, hit) ↦ inr (rw e, λ all. hit all.0)
]

All-snoc :
    (P : VirtRegion → Type 0) (rs : List VirtRegion) {s : VirtRegion}
    → All P rs
    → P s
    → All P (rs ++ (s ∷ []))
All-snoc P [] h p = (p, tt)
All-snoc P (r ∷ rs) h p = (h.0, All-snoc P rs h.1 p)

AllApart-snoc :
    (rs : List VirtRegion) (s : VirtRegion)
    → AllApart rs
    → All (λ r. Apart r s) rs
    → AllApart (rs ++ (s ∷ []))
AllApart-snoc [] s h p = (tt, tt)
AllApart-snoc (r ∷ rs) s h p = (All-snoc (Apart r) rs h.0 p.0, AllApart-snoc rs s h.1 p.1)

-- What `add_region` does with a region that lies apart from all others, and with one that does not.
abbrev pub Added : LittleEndianVirtualMemory → VirtRegion → Type 0
Added m s =
    (added : LittleEndianVirtualMemory) × (add_region m s.virtual_start s.backing_storage
      ≡ ran (some tt, added))
    × (added.map ≡ m.map ++ (s ∷ []))
    × All (λ r. Apart r s) m.map
    × IsWellFormed added

abbrev pub Refused : LittleEndianVirtualMemory → VirtRegion → Type 0
Refused m s =
    (add_region m s.virtual_start s.backing_storage ≡ ran (none, m))
    × ¬ (All (λ r. Apart r s) m.map)

-- On a well-formed memory `add_region` of a placed region never panics. It appends a region that
-- lies apart from all others, which keeps the memory well-formed; it refuses any other, and changes
-- nothing.
pub add_region_lem :
    {m : LittleEndianVirtualMemory} {s : VirtRegion}
    → IsWellFormed m
    → IsPlaced s
    → Added m s ⊎ Refused m s
unfolding add_region
add_region_lem {m} {s} v p = elim (any_overlap_lem m.map s v.placed p) [
  | inl (e, apart) ↦ inl (
    record { map = m.map ++ (s ∷ []) },
    rw e,
    refl,
    apart,
    record {
      placed = All-snoc IsPlaced m.map v.placed p;
      apart = AllApart-snoc m.map s v.apart apart;
    },
  )
  | inr (e, hit) ↦ inr (rw e, hit)
]
