-- ===== src/VirtMem/Access.antt =====
-- The `EmulatorMemory` reads and writes of kernel/src/virtmem.rs: a write is read back, and leaves
-- every other address alone.
use ron.Base.{
  ℕ, zero, suc, ◌+◌, ◌-◌, ◌^◌, ◌≤◌, ◌<◌, ◌≡◌, ◌∙◌, ◌⊎◌, inl, inr, some, List, [], ◌∷◌, arith,
  length, get_elem?, set, get_elem?-set_self, get_elem?-set_ne,
}
use mathlib.Core.Path.{subst}
use native.Mathlib.Decide.{ℕ_discrete}
use ron.Base.Lists.{All, All-set, All-get_elem?}
use ron.Base.Run.{ran}
use ron.VirtMem.{VirtRegion, LittleEndianVirtualMemory, slice, to_le_bytes, read_ne, write_ne}
use ron.VirtMem.Regions.{IsPlaced, Apart, AllApart, IsWellFormed}
use ron.VirtMem.Mapping.{Covers, try_map_lem, try_map-none, find_cover}
use ron.VirtMem.Storage.{
  Written, write_bytes_lem, slice_congr, length-to_le_bytes, from-to_le_bytes,
}

-- Region `k` holds the `n` bytes from address `a` on.
pub record Holds (m : LittleEndianVirtualMemory) (k : ℕ) (r : VirtRegion) (a n : ℕ) : Type 0 where
  pub at : get_elem? m.map k ≡ some r
  pub from : r.virtual_start ≤ a
  pub to : a + n ≤ r.virtual_start + length r.backing_storage

-- The same region over other bytes.
abbrev pub refilled : VirtRegion → List ℕ → VirtRegion
refilled r bytes = record r { backing_storage = bytes }

get_elem?-lt :
    (rs : List VirtRegion) (k : ℕ) {r : VirtRegion} → get_elem? rs k ≡ some r → k < length rs
get_elem?-lt [] k e = absurd (cc)
get_elem?-lt (s ∷ rs) zero e = omega arith
get_elem?-lt (s ∷ rs) (suc k) e = omega (arith, get_elem?-lt rs k e)

module _ (r : VirtRegion) (bytes : List ℕ) (size : length bytes ≡ length r.backing_storage) where
  All-Apart-refilled :
      (s : VirtRegion) (rs : List VirtRegion) (k : ℕ)
      → get_elem? rs k ≡ some r
      → All (Apart s) rs
      → All (Apart s) (set rs k (refilled r bytes))
  All-Apart-refilled s rs k e all =
      All-set (Apart s) rs k (refilled r bytes) all
        (let apart : Apart s r = All-get_elem? (Apart s) rs k all e in omega arith)

  All-refilled-Apart : (rs : List VirtRegion) → All (Apart r) rs → All (Apart (refilled r bytes)) rs
  All-refilled-Apart [] h = tt
  All-refilled-Apart (s ∷ rs) h = (omega arith, All-refilled-Apart rs h.1)

  AllApart-refilled :
      (rs : List VirtRegion) (k : ℕ)
      → get_elem? rs k ≡ some r
      → AllApart rs
      → AllApart (set rs k (refilled r bytes))
  AllApart-refilled [] k e h = tt
  AllApart-refilled (s ∷ rs) zero e h =
      let same : s ≡ r = cc in (All-refilled-Apart rs (subst (λ x. All (Apart x) rs) same h.0), h.1)
  AllApart-refilled (s ∷ rs) (suc k) e h =
      (All-Apart-refilled s rs k e h.0, AllApart-refilled rs k e h.1)

-- The memory after a write of the bytes `s'` into region `k`.
abbrev stored : LittleEndianVirtualMemory → ℕ → VirtRegion → List ℕ → LittleEndianVirtualMemory
stored m k r s' = record { map = set m.map k (refilled r s') }

module _ {m : LittleEndianVirtualMemory} {k a : ℕ} {r : VirtRegion} (n v : ℕ) (wf : IsWellFormed m)
    (holds : Holds m k r a n) (some_bytes : 0 < n) where
  covered : Covers r a
  covered = (holds.from, omega (arith, holds.to))

  stored_bytes :
      (s' : List ℕ) × Written r.backing_storage (a - r.virtual_start) (to_le_bytes n v) s'
  stored_bytes =
      write_bytes_lem r.backing_storage (a - r.virtual_start) (to_le_bytes n v)
        (omega (arith, length-to_le_bytes n v, holds.from, holds.to))

  write_ne-stored : write_ne n m a v ≡ ran (stored m k r stored_bytes.0)
  unfolding write_ne
  write_ne-stored = rw (try_map_lem k a wf holds.at covered, stored_bytes.1.wrote)

  stored-IsWellFormed : IsWellFormed (stored m k r stored_bytes.0)
  stored-IsWellFormed =
      let p : IsPlaced r = All-get_elem? IsPlaced m.map k wf.placed holds.at in
      let size = stored_bytes.1.size in
      record {
        placed =
            All-set IsPlaced m.map k (refilled r stored_bytes.0) wf.placed
              (record { start = p.start; end = omega (arith, p.end, size) });
        apart = AllApart-refilled r stored_bytes.0 size m.map k holds.at wf.apart;
      }

  stored-at : get_elem? (stored m k r stored_bytes.0).map k ≡ some (refilled r stored_bytes.0)
  stored-at = get_elem?-set_self m.map k _ (get_elem?-lt m.map k holds.at)

  read_ne-stored : v < 256 ^ n → read_ne n (stored m k r stored_bytes.0) a ≡ ran v
  unfolding read_ne
  read_ne-stored fits =
      let (s', w) = stored_bytes in
      let back : slice s' (a - r.virtual_start) n ≡ ran (to_le_bytes n v) =
        rw (length-to_le_bytes n v) at w.back in
      rw (
        try_map_lem k a stored-IsWellFormed stored-at (holds.from, omega (arith, covered, w.size)),
        back,
        from-to_le_bytes n v fits,
      )

  -- A write of `n` bytes, at least one, within a region of a well-formed memory succeeds, keeps the
  -- memory well-formed, and a value below 256 ^ n is read back.
  pub read-write :
      v < 256 ^ n
      → (m' : LittleEndianVirtualMemory) × (write_ne n m a v ≡ ran m')
        × IsWellFormed m'
        × (read_ne n m' a ≡ ran v)
  read-write fits =
      (stored m k r stored_bytes.0, write_ne-stored, stored-IsWellFormed, read_ne-stored fits)

  -- The bytes that a write leaves alone.
  kept :
      (b j x : ℕ)
      → r.virtual_start ≤ b
      → (b + j ≤ a) ⊎ (a + n ≤ b)
      → b - r.virtual_start ≤ x
      → x < b - r.virtual_start + j
      → get_elem? stored_bytes.0 x ≡ get_elem? r.backing_storage x
  kept b j x from (inl before) l h = stored_bytes.1.before x (omega arith)
  kept b j x from (inr after) l h =
      stored_bytes.1.after x (omega (arith, length-to_le_bytes n v, holds.from))

  read_ne-other_region :
      (b j i : ℕ) {s : VirtRegion}
      → (k ≡ i → ⊥)
      → get_elem? m.map i ≡ some s
      → Covers s b
      → read_ne j (stored m k r stored_bytes.0) b ≡ read_ne j m b
  unfolding read_ne
  read_ne-other_region b j i ne e c = rw (
    try_map_lem i b wf e c,
    try_map_lem i b stored-IsWellFormed (get_elem?-set_ne m.map _ ne ∙ e) c,
  )

  read_ne-same_region :
      (b j : ℕ)
      → (b + j ≤ a) ⊎ (a + n ≤ b)
      → Covers r b
      → read_ne j (stored m k r stored_bytes.0) b ≡ read_ne j m b
  unfolding read_ne
  read_ne-same_region b j apart c =
      let (s', w) = stored_bytes in
      rw (
        try_map_lem k b wf holds.at c,
        try_map_lem k b stored-IsWellFormed stored-at (c.0, omega (arith, c, w.size)),
        slice_congr s' r.backing_storage (b - r.virtual_start) j w.size
            (λ x l h. kept b j x c.0 apart l h),
      )

  read_ne-unmapped :
      (b j : ℕ)
      → All (λ s. ¬ (Covers s b)) m.map
      → read_ne j (stored m k r stored_bytes.0) b ≡ read_ne j m b
  unfolding read_ne
  read_ne-unmapped b j out =
      let not_here : ¬ (Covers r b) = All-get_elem? (λ s. ¬ (Covers s b)) m.map k out holds.at in
      let still_out : ¬ (Covers (refilled r stored_bytes.0) b) =
        λ c. not_here (c.0, omega (arith, c, stored_bytes.1.size)) in
      rw (
        try_map-none b wf out,
        try_map-none b stored-IsWellFormed (All-set (λ s. ¬ (Covers s b)) m.map k _ out still_out),
      )

  read_ne-stored_apart :
      (b j : ℕ)
      → (b + j ≤ a) ⊎ (a + n ≤ b)
      → read_ne j (stored m k r stored_bytes.0) b ≡ read_ne j m b
  read_ne-stored_apart b j apart = elim (find_cover m.map b wf.placed) [
    | inr out ↦ read_ne-unmapped b j out
    | inl (i, s, e, c) ↦ elim (ℕ_discrete k i) [
      | no ne ↦ read_ne-other_region b j i ne e c
      | yes same ↦
          let r_is : s ≡ r = cc (holds.at) in
          read_ne-same_region b j apart (subst (λ x. Covers x b) r_is c)
    ]
  ]

  -- After a successful write of `n` bytes, at least one, within a region of a well-formed memory, a
  -- read of `j` bytes at an address that lies wholly before or after the written bytes gives what
  -- it gave before, a panic included.
  pub read-write_apart :
      (b j : ℕ) {m' : LittleEndianVirtualMemory}
      → write_ne n m a v ≡ ran m'
      → (b + j ≤ a) ⊎ (a + n ≤ b)
      → read_ne j m' b ≡ read_ne j m b
  read-write_apart b j {m'} e apart =
      let is : stored m k r stored_bytes.0 ≡ m' = cc (write_ne-stored) in
      subst (λ x. read_ne j x b ≡ read_ne j m b) is (read_ne-stored_apart b j apart)
