-- ===== src/Rlibc/Specifier/Phases.antt =====
-- A character that is neither a digit nor a `*` ends a width and a precision; the ending of a
-- specification, its length and its letter.
use ron.Base.{
  ℕ, ◌≡◌, refl, Bool, true, false, ◌||◌, if◌then◌else◌, ◌==◌, List, [], ◌∷◌, none, some, arith,
}
use ron.Rlibc.Specifier.{
  ConversionFlags, unparsed, PrintfConversionWidth, ConversionPrecision, ConversionLength,
  long_long, long, half, byte, is_digit, more, first_letter, fall, second_letter, flag_of, ◌>>=◌,
}
use ron.Rlibc.Specifier.Printf.{
  Unfinished, add_char_to_printf_specification, parse_printf, start_flag, start_width,
  start_precision, start_length, read_specifier, continue_width, continue_precision,
}

-- A specification under construction between two of its parts.
abbrev pub between :
    ConversionFlags → PrintfConversionWidth → ConversionPrecision → ConversionLength → Unfinished
between f w p l = record {
  conversion = record { flags = f; width = w; precision = p; length = l; specifier = unparsed };
  parsing_width = false;
  parsing_precision = false;
  parsing_length = false;
}

abbrev pub ends_numeral : ℕ → Bool
ends_numeral c = is_digit c || c == b'*'

-- A text whose first character ends a numeral.
abbrev pub StartsPlain : List ℕ → Type 0
StartsPlain [] = ⊥
StartsPlain (c ∷ cs) = ends_numeral c ≡ false

pub not_digit : (c : ℕ) → ends_numeral c ≡ false → (is_digit c ≡ false) × ((c == b'*') ≡ false)
not_digit c h = ground arith

pub if_same {ℓ} : {A : Type ℓ} (b : Bool) (a : A) → (if b then a else a) ≡ a
if_same true a = refl
if_same false a = refl

module _ (f : ConversionFlags) (w : PrintfConversionWidth) (p : ConversionPrecision)
    (l : ConversionLength) where
  -- Such a character finds the same specification after a width and between two parts.
  pub in_width :
      (cs : List ℕ)
      → StartsPlain cs
      → parse_printf (record (between f w p l) { parsing_width = true }) cs
        ≡ parse_printf (between f w p l) cs
  unfolding parse_printf add_char_to_printf_specification
  in_width [] h = absurd h
  in_width (c ∷ cs) h = rw ((not_digit c h).0, continue_width) refl

  pub in_precision :
      (cs : List ℕ)
      → StartsPlain cs
      → parse_printf (record (between f w p l) { parsing_precision = true }) cs
        ≡ parse_printf (between f w p l) cs
  unfolding parse_printf add_char_to_printf_specification
  in_precision [] h = absurd h
  in_precision (c ∷ cs) h =
      rw ((not_digit c h).0, continue_precision) (rw ((not_digit c h).1, continue_precision) refl)

-- What the parts do with a character that is not theirs.
module _ (u : Unfinished) (c : ℕ) where
  pub skip_flag : flag_of c ≡ none → start_flag u c ≡ fall u
  unfolding start_flag
  skip_flag e = rw e (if_same _ _)

  pub skip_width : (is_digit c ≡ false) × ((c == b'*') ≡ false) → start_width u c ≡ fall u
  unfolding start_width
  skip_width e = rw (e.0) (rw (e.1) (if_same _ _))

  pub skip_precision : (c == b'.') ≡ false → start_precision u c ≡ fall u
  unfolding start_precision
  skip_precision e = rw e (if_same _ _)

  pub skip_length : first_letter c ≡ none → start_length u c ≡ fall u
  unfolding start_length
  skip_length e = rw e (if_same _ _)

module _ (f : ConversionFlags) (w : PrintfConversionWidth) (p : ConversionPrecision)
    (l : ConversionLength) where
  -- A character that is no flag, digit, `*` or dot comes to the length.
  pub reach_length :
      (c : ℕ)
      → flag_of c ≡ none
      → ends_numeral c ≡ false
      → (c == b'.') ≡ false
      → add_char_to_printf_specification (between f w p l) c
        ≡ (start_length (between f w p l) c >>= λ u. read_specifier u c >>= more)
  unfolding add_char_to_printf_specification
  reach_length c no_flag plain no_dot =
      rw
        (
          skip_flag (between f w p l) c no_flag,
          skip_width (between f w p l) c (not_digit c plain),
          skip_precision (between f w p l) c no_dot,
        )
        refl

pub second_l : second_letter long b'l' ≡ some long_long
unfolding second_letter
second_l = refl

pub second_h : second_letter half b'h' ≡ some byte
unfolding second_letter
second_h = refl
