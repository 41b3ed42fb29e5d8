-- ===== src/Emulator/PackedStruct.antt =====
-- What kernel/src/emulator.rs relies on in the crate `packed_struct`, which derives `pack` and
-- `unpack` from the `bits = "lo..=hi"` attributes of a struct (bit 0 is the lowest). The crate is
-- not part of the repository.
use ron.Base.{ℕ, ◌*◌, ◌/◌, ◌%◌, ◌^◌, ◌≡◌, refl}

pub record PackedStruct : Type 0 where
  -- `get lo width word`: what `unpack` puts into the field at bits lo..=lo+width-1.
  pub get : ℕ → ℕ → ℕ → ℕ
  -- `put lo width value`: what the field adds to the packed word.
  pub put : ℕ → ℕ → ℕ → ℕ
  pub get_bits : (lo width word : ℕ) → get lo width word ≡ word / 2 ^ lo % 2 ^ width
  -- A value too wide for its field is truncated.
  pub put_bits : (lo width value : ℕ) → put lo width value ≡ value % 2 ^ width * 2 ^ lo

-- The interface can be met.
abbrev pub lsb0 : PackedStruct
lsb0 = record {
  get = λ lo width word. word / 2 ^ lo % 2 ^ width;
  put = λ lo width value. value % 2 ^ width * 2 ^ lo;
  get_bits = λ lo width word. refl;
  put_bits = λ lo width value. refl;
}
