-- ===== src/Rlibc/Specifier/Precision.antt =====
-- The width and the precision of a specification are read as they are written.
use ron.Base.{
  ℕ, ◌+◌, ◌*◌, ◌-◌, ◌^◌, ◌<◌, ◌≡◌, refl, ◌≢◌, true, false, ◌==◌, List, [], ◌∷◌, ◌++◌, none, arith,
  ◌∙◌,
}
use native.Mathlib.Nat.{zero-add}
use ron.Rlibc.Specifier.{
  ConversionFlags, PrintfConversionWidth, ConversionPrecision, no_precision, ConversionLength,
  flag_of, first_letter, specifier_of, is_digit,
}
use ron.Rlibc.Specifier.Printf.{
  add_char_to_printf_specification, parse_printf, continue_precision, continue_width,
  start_precision, start_width, read_specifier,
}
use ron.Rlibc.Specifier.Numerals.{decimal, AllDigits, push_digit-fits}
use ron.Rlibc.Specifier.Text.{
  PrecisionText, absent, dot_star, dot, precision_text, precision_value, PrecisionFits, WidthText,
  no_width, star, numeral, width_text, width_value, WidthFits,
}
use ron.Rlibc.Specifier.Phases.{
  between, StartsPlain, in_width, in_precision, skip_flag, skip_width, skip_precision, skip_length,
}

module _ (f : ConversionFlags) (w : PrintfConversionWidth) (l : ConversionLength) (r : List ℕ)
    (plain : StartsPlain r) where
  precision_digits :
      (ds : List ℕ) (n : ℕ)
      → AllDigits ds
      → decimal n ds < 2 ^ 64
      → parse_printf
          (record (between f w (ConversionPrecision.number n) l) { parsing_precision = true })
          (ds ++ r)
        ≡ parse_printf (between f w (ConversionPrecision.number (decimal n ds)) l) r
  unfolding parse_printf add_char_to_printf_specification continue_precision
  precision_digits [] n digits fits = in_precision f w (ConversionPrecision.number n) l r plain
  precision_digits (d ∷ ds) n digits fits =
      rw (digits.0)
        (rw (push_digit-fits d ds n fits) (precision_digits ds (n * 10 + (d - b'0')) digits.1 fits))

  after_dot :
      (cs : List ℕ)
      → parse_printf (between f w no_precision l) (b'.' ∷ cs)
        ≡ parse_printf (record (between f w no_precision l) { parsing_precision = true }) cs
  unfolding parse_printf add_char_to_printf_specification start_precision flag_of
  after_dot cs =
      rw
        (
          skip_flag (between f w no_precision l) b'.' refl,
          skip_width (between f w no_precision l) b'.' (refl, refl),
        )
        refl

  first_digit :
      (d : ℕ) (cs : List ℕ)
      → is_digit d ≡ true
      → parse_printf (record (between f w no_precision l) { parsing_precision = true }) (d ∷ cs)
        ≡ parse_printf
            (record (between f w (ConversionPrecision.number (0 + (d - b'0'))) l) {
              parsing_precision = true;
            })
            cs
  unfolding parse_printf add_char_to_printf_specification continue_precision
  first_digit d cs digit = rw (digit, zero-add (d - b'0')) refl

  -- The precision that a text describes is the one that is stored.
  pub parse-precision_text :
      (p : PrecisionText)
      → PrecisionFits p
      → parse_printf (between f w no_precision l) (precision_text p ++ r)
        ≡ parse_printf (between f w (precision_value p) l) r
  unfolding parse_printf add_char_to_printf_specification continue_precision
  parse-precision_text absent fits = refl
  parse-precision_text dot_star fits = after_dot (b'*' ∷ r)
  parse-precision_text (dot []) fits = after_dot r ∙ in_precision f w no_precision l r plain
  parse-precision_text (dot (d ∷ ds)) fits =
      after_dot (d ∷ (ds ++ r))
      ∙ (first_digit d (ds ++ r) fits.0.0 ∙ precision_digits ds (0 + (d - b'0')) fits.0.1 fits.1)

flag_of-digit : (d : ℕ) → d ≢ b'0' → is_digit d ≡ true → flag_of d ≡ none
unfolding flag_of
flag_of-digit d nonzero digit = ground arith

digit-not_star : (d : ℕ) → is_digit d ≡ true → (d == b'*') ≡ false
digit-not_star d digit = ground arith

module _ (f : ConversionFlags) (p : ConversionPrecision) (l : ConversionLength) (r : List ℕ)
    (plain : StartsPlain r) where
  width_digits :
      (ds : List ℕ) (n : ℕ)
      → AllDigits ds
      → decimal n ds < 2 ^ 64
      → parse_printf
          (record (between f (PrintfConversionWidth.number n) p l) { parsing_width = true })
          (ds ++ r)
        ≡ parse_printf (between f (PrintfConversionWidth.number (decimal n ds)) p l) r
  unfolding parse_printf add_char_to_printf_specification continue_width
  width_digits [] n digits fits = in_width f (PrintfConversionWidth.number n) p l r plain
  width_digits (d ∷ ds) n digits fits =
      rw (digits.0)
        (rw (push_digit-fits d ds n fits) (width_digits ds (n * 10 + (d - b'0')) digits.1 fits))

  start_digit :
      (d : ℕ) (cs : List ℕ)
      → d ≢ b'0'
      → is_digit d ≡ true
      → parse_printf (between f PrintfConversionWidth.no_width p l) (d ∷ cs)
        ≡ parse_printf
            (record (between f (PrintfConversionWidth.number (0 + (d - b'0'))) p l) {
              parsing_width = true;
            })
            cs
  unfolding parse_printf add_char_to_printf_specification start_width
  start_digit d cs nonzero digit =
      rw
        (skip_flag (between f PrintfConversionWidth.no_width p l) d (flag_of-digit d nonzero digit))
        (rw (digit-not_star d digit) (rw (digit, zero-add (d - b'0')) refl))

  start_star :
      (cs : List ℕ)
      → parse_printf (between f PrintfConversionWidth.no_width p l) (b'*' ∷ cs)
        ≡ parse_printf (between f PrintfConversionWidth.meta p l) cs
  unfolding parse_printf add_char_to_printf_specification start_width read_specifier flag_of
      first_letter specifier_of
  start_star cs =
      rw
        (
          skip_flag (between f PrintfConversionWidth.no_width p l) b'*' refl,
          skip_precision (between f PrintfConversionWidth.meta p l) b'*' refl,
          skip_length (between f PrintfConversionWidth.meta p l) b'*' refl,
        )
        refl

  -- The width that a text describes is the one that is stored.
  pub parse-width_text :
      (w : WidthText)
      → WidthFits w
      → parse_printf (between f PrintfConversionWidth.no_width p l) (width_text w ++ r)
        ≡ parse_printf (between f (width_value w) p l) r
  parse-width_text no_width fits = refl
  parse-width_text star fits = start_star r
  parse-width_text (numeral d ds) fits =
      start_digit d (ds ++ r) fits.0 fits.1.0 ∙ width_digits ds (0 + (d - b'0')) fits.1.1 fits.2
