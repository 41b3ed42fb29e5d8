-- ===== src/Ext2/Inode/Reads.antt =====
-- `read_bytes` gives the bytes of the file from the offset on, but too few where the read reaches
-- into one more block than its length has.
use native.Mathlib.Nat.{div-add-mod', mod-lt, one-le-pow, add-zero}
use ron.Base.Division.{two_digits}
use ron.Base.{
  ℕ, zero, suc, ◌+◌, ◌-◌, ◌*◌, ◌/◌, ◌%◌, ◌^◌, ◌≤◌, ◌<◌, ◌≡◌, ◌∙◌, refl, sym, ap, false, ltb, lt→ltb,
  min, Bool-cases, inl, inr, Option, some, List, [], ◌∷◌, ◌++◌, length, get_elem?, length-append,
  subst, arith,
}
use ron.Base.Run.{ran}
use ron.Ext2.{Ext2RawInode, Disk, get_size}
use ron.Ext2.Fs.{Fs, round_up}
use ron.Ext2.Device.{block_size_of, get_block_size_lem}
use ron.Ext2.Pointer.{read_data_block}
use ron.Ext2.Inode.{take, drop, read_blocks, read_bytes}

not_ltb : (a b : ℕ) → b ≤ a → ltb a b ≡ false
not_ltb a b h = ground arith

length-take : (n : ℕ) (xs : List ℕ) → length (take n xs) ≡ min n (length xs)
length-take zero xs = ground arith
length-take (suc n) [] = ground arith
length-take (suc n) (x ∷ xs) = omega (arith, length-take n xs)

length-drop : (n : ℕ) (xs : List ℕ) → length (drop n xs) ≡ length xs - n
length-drop zero xs = omega arith
length-drop (suc n) [] = omega arith
length-drop (suc n) (x ∷ xs) = omega (arith, length-drop n xs)

get_elem?-take : (n : ℕ) (xs : List ℕ) (k : ℕ) → k < n → get_elem? (take n xs) k ≡ get_elem? xs k
get_elem?-take zero xs k h = absurd (omega arith)
get_elem?-take (suc n) [] k h = refl
get_elem?-take (suc n) (x ∷ xs) zero h = refl
get_elem?-take (suc n) (x ∷ xs) (suc k) h = get_elem?-take n xs k (omega arith)

-- A list of which the first `n` elements are dropped, before another list.
get_elem?-drop-append :
    (n : ℕ) (xs ys : List ℕ) (k : ℕ)
    → n ≤ length xs
    → get_elem? (drop n xs ++ ys) k ≡ get_elem? (xs ++ ys) (n + k)
get_elem?-drop-append zero xs ys k h = ap (get_elem? (xs ++ ys)) (omega arith)
get_elem?-drop-append (suc n) [] ys k h = absurd (omega arith)
get_elem?-drop-append (suc n) (x ∷ xs) ys k h =
    let e : suc n + k ≡ suc (n + k) = omega arith in
    rw e (get_elem?-drop-append n xs ys k (omega arith))

get_elem?-append_left :
    (xs ys : List ℕ) (k : ℕ) → k < length xs → get_elem? (xs ++ ys) k ≡ get_elem? xs k
get_elem?-append_left [] ys k h = absurd (omega arith)
get_elem?-append_left (x ∷ xs) ys zero h = refl
get_elem?-append_left (x ∷ xs) ys (suc k) h = get_elem?-append_left xs ys k (omega arith)

get_elem?-append_right :
    (xs ys : List ℕ) (k : ℕ) → get_elem? (xs ++ ys) (length xs + k) ≡ get_elem? ys k
get_elem?-append_right [] ys k = ap (get_elem? ys) (omega arith)
get_elem?-append_right (x ∷ xs) ys k =
    let e : suc (length xs) + k ≡ suc (length xs + k) = omega arith in
    rw e (get_elem?-append_right xs ys k)

-- The blocks `i`, `i + 1`, ..., `n` of them.
abbrev pub joined : (ℕ → List ℕ) → ℕ → ℕ → List ℕ
joined block zero i = []
joined block (suc n) i = block i ++ joined block n (suc i)

-- Byte `k` of the file with these blocks, of `bs` bytes each.
abbrev pub file_byte : (ℕ → List ℕ) → ℕ → ℕ → Option ℕ
file_byte block bs k = get_elem? (block (k / bs)) (k % bs)

module _ (block : ℕ → List ℕ) (bs : ℕ) (pos : 0 < bs)
    (sized : (i : ℕ) → length (block i) ≡ bs) where
  length-joined : (n i : ℕ) → length (joined block n i) ≡ n * bs
  length-joined zero i = omega arith
  length-joined (suc n) i =
      grind
        (arith, length-append (block i) (joined block n (suc i)), sized i, length-joined n (suc i))

  joined-file_byte :
      (n i k : ℕ) → k < n * bs → get_elem? (joined block n i) k ≡ file_byte block bs (i * bs + k)
  joined-file_byte zero i k h = absurd (omega arith)
  joined-file_byte (suc n) i k h = elim (Bool-cases (ltb k bs)) [
    | inl first ↦
        let lt : k < bs = ground arith in
        get_elem?-append_left (block i) (joined block n (suc i)) k (omega (arith, sized i))
        ∙ rw ((two_digits i k bs lt).0, (two_digits i k bs lt).1) refl
    | inr later ↦
        let j : ℕ = k - bs in
        let e : k ≡ length (block i) + j = ground (arith, sized i) in
        let e' : i * bs + k ≡ suc i * bs + j = grind (arith, sized i) in
        ap (get_elem? (block i ++ joined block n (suc i))) e
        ∙ (get_elem?-append_right (block i) (joined block n (suc i)) j
            ∙ (joined-file_byte n (suc i) j (grind arith) ∙ ap (file_byte block bs) (sym e')))
  ]

  -- What is left of `n + 1` blocks from block `q` on without the first `r` bytes.
  abbrev pub kept : (q r n : ℕ) → List ℕ
  kept q r n = drop r (block q) ++ joined block n (suc q)

  pub length-kept : (q r n : ℕ) → r < bs → length (kept q r n) ≡ suc n * bs - r
  length-kept q r n h =
      let e : suc n * bs ≡ bs + n * bs = grind arith in
      omega (
        arith,
        e,
        length-append (drop r (block q)) (joined block n (suc q)),
        length-drop r (block q),
        sized q,
        length-joined n (suc q),
      )

  pub kept-file_byte :
      (q r n k : ℕ)
      → r < bs
      → k < suc n * bs - r
      → get_elem? (kept q r n) k ≡ file_byte block bs (q * bs + (r + k))
  kept-file_byte q r n k h lt =
      get_elem?-drop-append r (block q) (joined block n (suc q)) k (omega (arith, sized q))
      ∙ joined-file_byte (suc n) q (r + k) (omega arith)

abbrev pub block_count : (len bs : ℕ) → ℕ
block_count len bs = suc (round_up len bs - 1)

module _ (disk : Disk) (fs : Fs disk) (inode : Ext2RawInode) (block : ℕ → List ℕ) where
  -- The blocks `i`, `i + 1`, ..., `n` of them can be read.
  abbrev pub Readable : (n i : ℕ) → Type 0
  Readable n i =
      (j : ℕ) → j < n → read_data_block disk inode (i + j) fs ≡ ran (some (block (i + j)), fs)

  read_first :
      (n i : ℕ) → Readable (suc n) i → read_data_block disk inode i fs ≡ ran (some (block i), fs)
  read_first n i reads =
      subst (λ (t : ℕ). read_data_block disk inode t fs ≡ ran (some (block t), fs)) (add-zero i)
        (reads 0 (omega arith))

  read_later : (n i : ℕ) → Readable (suc n) i → Readable n (suc i)
  read_later n i reads j h =
      subst (λ (t : ℕ). read_data_block disk inode t fs ≡ ran (some (block t), fs)) (omega arith)
        (reads (suc j) (omega arith))

  read_blocks_lem :
      (n i : ℕ) → Readable n i → read_blocks disk n i inode fs ≡ ran (some (joined block n i), fs)
  unfolding read_blocks
  read_blocks_lem zero i reads = refl
  read_blocks_lem (suc n) i reads =
      rw (read_first n i reads) (rw (read_blocks_lem n (suc i) (read_later n i reads)) refl)

  -- Where the range lies in the file, whose size is below 2 ^ 64, and each data block that is read
  -- can be read and has the block size, below 2 ^ 32, `read_bytes` of `len` bytes succeeds. It
  -- gives the bytes of the file from `offset` on, but no more than are left, after the offset in
  -- the first block, of max(1, ceil(len / block size)) blocks.
  pub read_bytes_lem :
      (offset len : ℕ)
      → fs.sb.block_size_log2_minus_10 < 22
      → offset + len ≤ get_size inode
      → get_size inode < 2 ^ 64
      → Readable (block_count len (block_size_of disk fs)) (offset / block_size_of disk fs)
      → ((i : ℕ) → length (block i) ≡ block_size_of disk fs)
      → (bytes : List ℕ) × (read_bytes disk inode offset len fs ≡ ran (some bytes, fs))
        × (length bytes
            ≡ min len (
                block_count len (block_size_of disk fs) * block_size_of disk fs
                - offset % block_size_of disk fs))
        × ((k : ℕ)
            → k < length bytes
            → get_elem? bytes k ≡ file_byte block (block_size_of disk fs) (offset + k))
  unfolding read_bytes
  read_bytes_lem offset len small inside word reads sized =
      let bs : ℕ = block_size_of disk fs in
      let pos : 0 < bs = one-le-pow (fs.sb.block_size_log2_minus_10 + 10) 2 (omega arith) in
      let r : ℕ = offset % bs in
      let r_lt : r < bs = mod-lt offset pos in
      let rest : List ℕ = joined block (round_up len bs - 1) (suc (offset / bs)) in
      (
        take len (drop r (block (offset / bs)) ++ rest),
        rw (lt→ltb (offset + len) (2 ^ 64) (omega arith)) (
            rw (not_ltb (get_size inode) (offset + len) inside) (
              rw (get_block_size_lem disk fs small) (
                rw (read_first (round_up len bs - 1) (offset / bs) reads) (
                  rw (not_ltb (length (block (offset / bs))) r (omega (arith, sized (offset / bs))))
                    (rw
                      (read_blocks_lem (round_up len bs - 1) (suc (offset / bs))
                        (read_later (round_up len bs - 1) (offset / bs) reads))
                      refl))))),
        length-take len (kept block bs pos sized (offset / bs) r (round_up len bs - 1))
            ∙ ap (min len)
                (length-kept block bs pos sized (offset / bs) r (round_up len bs - 1) r_lt),
        λ k h.
            let short : k
                < min len (length (kept block bs pos sized (offset / bs) r (round_up len bs - 1))) =
              omega (
                arith,
                length-take len (kept block bs pos sized (offset / bs) r (round_up len bs - 1)),
              ) in
            let e : offset + k ≡ offset / bs * bs + (r + k) =
              omega (arith, div-add-mod' offset bs) in
            get_elem?-take len (kept block bs pos sized (offset / bs) r (round_up len bs - 1)) k
              (omega arith)
            ∙ (kept-file_byte block bs pos sized (offset / bs) r (round_up len bs - 1) k r_lt (
                  omega (
                    arith,
                    length-kept block bs pos sized (offset / bs) r (round_up len bs - 1) r_lt,
                  ))
                ∙ ap (file_byte block bs) (sym e)),
      )
