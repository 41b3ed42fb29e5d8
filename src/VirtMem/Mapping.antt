-- ===== src/VirtMem/Mapping.antt =====
-- `try_map` of kernel/src/virtmem.rs finds the one region that covers an address.
use ron.Base.{
  ℕ, zero, suc, ◌+◌, ◌-◌, ◌≤◌, ◌<◌, ◌≡◌, refl, sym, ◌⊎◌, inl, inr, none, some, List, [], ◌∷◌, arith,
  length, get_elem?,
}
use native.Mathlib.Decide.{dec_le, dec_lt}
use mathlib.Core.Path.{subst}
use ron.Base.Lists.{All, All-get_elem?}
use ron.Base.Run.{ran}
use ron.VirtMem.{
  VirtRegion, LittleEndianVirtualMemory, get_virtual_end_inclusive, try_map_region, find_region,
  try_map,
}
use ron.VirtMem.Regions.{IsPlaced, Apart, AllApart, IsWellFormed}

abbrev pub Covers : VirtRegion → ℕ → Type 0
Covers r a = (r.virtual_start ≤ a) × (a < r.virtual_start + length r.backing_storage)

module _ {r : VirtRegion} (a : ℕ) (p : IsPlaced r) where
  pub try_map_region-in : Covers r a → try_map_region r a ≡ ran (some (a - r.virtual_start))
  unfolding try_map_region get_virtual_end_inclusive
  try_map_region-in c = ground arith

  pub try_map_region-out : ¬ (Covers r a) → try_map_region r a ≡ ran none
  unfolding try_map_region get_virtual_end_inclusive
  try_map_region-out out = ground arith

  dec-Covers : (Covers r a) ⊎ (¬ (Covers r a))
  dec-Covers = elim (dec_le r.virtual_start a) [
    | no before ↦ inr (λ c. before c.0)
    | yes from ↦ elim (dec_lt a (r.virtual_start + length r.backing_storage)) [
      | yes below ↦ inl (from, below)
      | no beyond ↦ inr (λ c. beyond c.1)
    ]
  ]

-- Two regions that lie apart do not cover one address.
Apart-Covers : (r s : VirtRegion) (a : ℕ) → Apart r s → Covers r a → ¬ (Covers s a)
Apart-Covers r s a (inl h) c d = omega arith
Apart-Covers r s a (inr h) c d = omega arith

abbrev pub Found : List VirtRegion → ℕ → VirtRegion → ℕ → ℕ → Type 0
Found rs k r index a =
    find_region rs index a
    ≡ ran (some (r, record { offset_in_region = a - r.virtual_start; region_index = index + k }))

find_region_lem :
    (rs : List VirtRegion) (k index a : ℕ) {r : VirtRegion}
    → All IsPlaced rs
    → AllApart rs
    → get_elem? rs k ≡ some r
    → Covers r a
    → Found rs k r index a
unfolding find_region
find_region_lem [] k index a p d e c = absurd (cc)
find_region_lem (s ∷ rs) zero index a {r} p d e c =
    let same : s ≡ r = cc in
    rw (try_map_region-in a p.0 (subst (λ x. Covers x a) (sym same) c)) (ground arith)
find_region_lem (s ∷ rs) (suc k) index a {r} p d e c =
    let apart : Apart s r = All-get_elem? (Apart s) rs k d.0 e in
    rw (try_map_region-out a p.0 (λ c'. Apart-Covers s r a apart c' c))
      (ground (arith, find_region_lem rs k (suc index) a p.1 d.1 e c))

find_region-none :
    (rs : List VirtRegion) (index a : ℕ)
    → All IsPlaced rs
    → All (λ r. ¬ (Covers r a)) rs
    → find_region rs index a ≡ ran none
unfolding find_region
find_region-none [] index a p out = refl
find_region-none (r ∷ rs) index a p out =
    rw (try_map_region-out a p.0 out.0) (find_region-none rs (suc index) a p.1 out.1)

-- In a well-formed memory, an address that region `k` covers maps to that region, at its distance
-- from the region's start.
pub try_map_lem :
    {m : LittleEndianVirtualMemory} (k a : ℕ) {r : VirtRegion}
    → IsWellFormed m
    → get_elem? m.map k ≡ some r
    → Covers r a
    → try_map m a
      ≡ ran (some (r, record { offset_in_region = a - r.virtual_start; region_index = k }))
unfolding try_map
try_map_lem {m} k a {r} v e c = ground (arith, find_region_lem m.map k 0 a v.placed v.apart e c)

-- An address that no region covers does not map.
pub try_map-none :
    {m : LittleEndianVirtualMemory} (a : ℕ)
    → IsWellFormed m
    → All (λ r. ¬ (Covers r a)) m.map
    → try_map m a ≡ ran none
unfolding try_map
try_map-none {m} a v out = find_region-none m.map 0 a v.placed out

-- Either one region covers the address, or none does.
pub find_cover :
    (rs : List VirtRegion) (a : ℕ)
    → All IsPlaced rs
    → ((k : ℕ) × (r : VirtRegion) × (get_elem? rs k ≡ some r) × Covers r a)
      ⊎ All (λ r. ¬ (Covers r a)) rs
find_cover [] a p = inr tt
find_cover (r ∷ rs) a p = elim (dec-Covers a p.0) [
  | inl c ↦ inl (0, r, refl, c)
  | inr out ↦ elim (find_cover rs a p.1) [
    | inl (k, s, e, c) ↦ inl (suc k, s, e, c)
    | inr none_of ↦ inr (out, none_of)
  ]
]
