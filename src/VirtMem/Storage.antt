-- ===== src/VirtMem/Storage.antt =====
-- The byte storage of a region in kernel/src/virtmem.rs: slices, byte-by-byte writes and the
-- little-endian bytes of a word.
use ron.Base.{
  ℕ, zero, suc, ◌+◌, ◌/◌, ◌^◌, ◌≤◌, ◌<◌, ◌≡◌, refl, ap, ◌∙◌, some, List, [], ◌∷◌, arith, length,
  get_elem?, set, length-set, get_elem?-set_self, get_elem?-set_ne,
}
use native.Mathlib.Nat.{pow-suc}
use ron.Base.Run.{ran}
use ron.VirtMem.{slice, write_bytes, from_le_bytes, to_le_bytes}

pub length-to_le_bytes : (n v : ℕ) → length (to_le_bytes n v) ≡ n
unfolding to_le_bytes
length-to_le_bytes zero v = refl
length-to_le_bytes (suc n) v = ap suc (length-to_le_bytes n (v / 256))

-- The little-endian bytes of a word stand for it.
pub from-to_le_bytes : (n v : ℕ) → v < 256 ^ n → from_le_bytes (to_le_bytes n v) ≡ v
unfolding from_le_bytes to_le_bytes
from-to_le_bytes zero v h = omega arith
from-to_le_bytes (suc n) v h =
    omega (arith, from-to_le_bytes n (v / 256) (omega (arith, pow-suc 256 n)))

slice-cons :
    (s : List ℕ) (o n : ℕ) {b : ℕ} {bs : List ℕ}
    → get_elem? s o ≡ some b
    → slice s (suc o) n ≡ ran bs
    → slice s o (suc n) ≡ ran (b ∷ bs)
unfolding slice
slice-cons [] o n e h = absurd (cc)
slice-cons (c ∷ s) zero zero e h = ground arith
slice-cons (c ∷ s) zero (suc n) e h = ground arith
slice-cons (c ∷ s) (suc o) zero e h = slice-cons s o zero e (ground arith)
slice-cons (c ∷ s) (suc o) (suc n) e h = slice-cons s o (suc n) e h

-- A write within the storage succeeds; what it wrote is read back, and all else stays.
pub record Written (s : List ℕ) (o : ℕ) (bs : List ℕ) (s' : List ℕ) : Type 0 where
  pub wrote : write_bytes s o bs ≡ ran s'
  pub size : length s' ≡ length s
  pub back : slice s' o (length bs) ≡ ran bs
  pub before : (j : ℕ) → j < o → get_elem? s' j ≡ get_elem? s j
  pub after : (j : ℕ) → o + length bs ≤ j → get_elem? s' j ≡ get_elem? s j

pub write_bytes_lem :
    (s : List ℕ) (o : ℕ) (bs : List ℕ)
    → o + length bs ≤ length s
    → (s' : List ℕ) × Written s o bs s'
unfolding write_bytes slice
write_bytes_lem s o [] h = (
  s,
  record {
    wrote = refl;
    size = refl;
    back = ground arith;
    before = λ j b. refl;
    after = λ j b. refl;
  },
)
write_bytes_lem s o (b ∷ bs) h =
    let (s', w) = write_bytes_lem (set s o b) (suc o) bs (omega (arith, length-set s o b)) in
    (
      s',
      record {
        wrote = ground (arith, w.wrote);
        size = w.size ∙ length-set s o b;
        back =
            slice-cons s' o (length bs)
              (w.before o (omega arith) ∙ get_elem?-set_self s o b (omega arith)) w.back;
        before = λ j l. w.before j (omega arith) ∙ get_elem?-set_ne s b (omega arith);
        after = λ j l. w.after j (omega arith) ∙ get_elem?-set_ne s b (omega arith);
      },
    )

-- A slice depends on the bytes within it alone.
pub slice_congr :
    (s t : List ℕ) (o n : ℕ)
    → length s ≡ length t
    → ((j : ℕ) → o ≤ j → j < o + n → get_elem? s j ≡ get_elem? t j)
    → slice s o n ≡ slice t o n
unfolding slice
slice_congr s t o zero e same = ground arith
slice_congr [] [] o (suc n) e same = refl
slice_congr [] (c ∷ t) o (suc n) e same = absurd (omega arith)
slice_congr (b ∷ s) [] o (suc n) e same = absurd (omega arith)
slice_congr (b ∷ s) (c ∷ t) zero (suc n) e same = ground (
  arith,
  same 0 (omega arith) (omega arith),
  slice_congr s t 0 n (omega arith) (λ j l h. same (suc j) (omega arith) (omega arith)),
)
slice_congr (b ∷ s) (c ∷ t) (suc o) (suc n) e same =
    slice_congr s t o (suc n) (omega arith) (λ j l h. same (suc j) (omega arith) (omega arith))
