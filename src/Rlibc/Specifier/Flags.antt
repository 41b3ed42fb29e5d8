-- ===== src/Rlibc/Specifier/Flags.antt =====
-- The flags of a specification are collected in its set of bits.
use ron.Base.{
  ℕ, ◌+◌, ◌*◌, ◌^◌, ◌<◌, ◌≤◌, ◌≡◌, refl, ◌∙◌, ◌==◌, Bool, true, false, if◌then◌else◌, List, ◌∷◌,
  some, bit_or, arith, ==_neq,
}
use native.Mathlib.Nat.{add-zero}
use ron.Base.Bits.{bit_or_fields}
use ron.Rlibc.Specifier.{PrintfConversionWidth, no_precision, no_length, flag_of, all_flags}
use ron.Rlibc.Specifier.Printf.{
  Unfinished, unfinished, add_char_to_printf_specification, parse_printf, start_flag,
}
use ron.Rlibc.Specifier.Text.{FlagsText, flags_text, flags_value, bit}
use ron.Rlibc.Specifier.Phases.{between}

abbrev flags_only : ℕ → Unfinished
flags_only f = between f PrintfConversionWidth.no_width no_precision no_length

-- A flag above those that are set is added to them, if it is written.
flag_step :
    (k f c : ℕ) (r : List ℕ)
    → flag_of c ≡ some (1 * 2 ^ k)
    → f < 2 ^ k
    → 2 ^ k ≤ 16
    → parse_printf (flags_only f) (c ∷ r) ≡ parse_printf (flags_only (f + 2 ^ k)) r
unfolding parse_printf add_char_to_printf_specification start_flag
flag_step k f c r e below le =
    let not_all : (f == all_flags) ≡ false = ==_neq f all_flags (λ e. omega arith) in
    let set : bit_or f (1 * 2 ^ k) ≡ f + 2 ^ k = omega (arith, bit_or_fields k 1 f below) in
    rw not_all (rw e (rw set refl))

flag_if :
    (b : Bool) (k f c : ℕ) (r : List ℕ)
    → flag_of c ≡ some (1 * 2 ^ k)
    → f < 2 ^ k
    → 2 ^ k ≤ 16
    → parse_printf (flags_only f) (if b then c ∷ r else r)
      ≡ parse_printf (flags_only (f + bit b (2 ^ k))) r
flag_if true k f c r e below le = flag_step k f c r e below le
flag_if false k f c r e below le = rw (add-zero f) refl

bit_bound : (b : Bool) (n : ℕ) → bit b n ≤ n
bit_bound true n = omega arith
bit_bound false n = omega arith

-- Flags written in any selection are the bits that are set.
pub parse-flags_text :
    (t : FlagsText) (r : List ℕ)
    → parse_printf unfinished (flags_text t r)
      ≡ parse_printf
          (between (flags_value t) PrintfConversionWidth.no_width no_precision no_length)
          r
unfolding flag_of
parse-flags_text t r =
    flag_if t.left 0 0 b'-' _ refl (omega arith) (omega arith)
    ∙ (flag_if t.sign 1 _ b'+' _ refl (omega (arith, bit_bound t.left 1)) (omega arith)
        ∙ (flag_if t.blank 2 _ b' ' _ refl (omega (arith, bit_bound t.left 1, bit_bound t.sign 2))
              (omega arith)
            ∙ (flag_if t.base 3 _ b'#' _ refl
                  (omega (arith, bit_bound t.left 1, bit_bound t.sign 2, bit_bound t.blank 4))
                  (omega arith)
                ∙ flag_if t.zeroes 4 _ b'0' _ refl
                    (omega (
                      arith,
                      bit_bound t.left 1,
                      bit_bound t.sign 2,
                      bit_bound t.blank 4,
                      bit_bound t.base 8,
                    ))
                    (omega arith))))
