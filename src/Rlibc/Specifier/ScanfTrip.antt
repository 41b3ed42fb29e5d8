-- ===== src/Rlibc/Specifier/ScanfTrip.antt =====
-- `add_char_to_scanf_specification` reads every specification of the grammar.
use native.Mathlib.Nat.{zero-add}
use ron.Base.{
  ℕ, ◌+◌, ◌*◌, ◌-◌, ◌^◌, ◌<◌, ◌≡◌, refl, ◌≢◌, ◌∙◌, Bool, true, false, ◌==◌, if◌then◌else◌, List, [],
  ◌∷◌, ◌++◌, Option, none, some, arith,
}
use ron.Rlibc.Specifier.{
  ConversionSpecifier, unparsed, ScanfConversionWidth, ConversionLength, double,
  max_length_for_pointer, max_length_for_size, max_length_for_int, long_long, long, half, byte,
  no_length, is_digit, first_letter, second_letter, fall, more, ◌>>=◌,
}
use ron.Rlibc.Specifier.Scanf.{
  ScanfConversionSpecification, UnfinishedScanf, unfinished_scanf, parse_scanf,
  add_char_to_scanf_specification, scan_continue_width, scan_continue_length, scan_suppression,
  scan_start_width, scan_start_length, scan_specifier,
}
use ron.Rlibc.Specifier.Numerals.{decimal, AllDigits, push_digit-fits}
use ron.Rlibc.Specifier.Text.{
  ScanfText, ScanfFits, scanf_text, scanf_value, scanf_width, ending_text, specifier_letter,
}
use ron.Rlibc.Specifier.Phases.{ends_numeral, StartsPlain, not_digit, if_same, second_l, second_h}
use ron.Rlibc.Specifier.Ending.{
  specifier_letter-IsLetter, ending_text-StartsPlain, second_letter-none,
}

abbrev scanning : Bool → ScanfConversionWidth → ConversionLength → UnfinishedScanf
scanning a w l = record {
  conversion = record { assignment_suppression = a; width = w; length = l; specifier = unparsed };
  parsing_width = false;
  parsing_length = false;
}

module _ (u : UnfinishedScanf) (c : ℕ) where
  skip_suppression : (c == b'*') ≡ false → scan_suppression u c ≡ fall u
  unfolding scan_suppression
  skip_suppression e = rw e (if_same _ _)

  skip_width : is_digit c ≡ false → scan_start_width u c ≡ fall u
  unfolding scan_start_width
  skip_width e = rw e (if_same _ _)

  skip_length : first_letter c ≡ none → scan_start_length u c ≡ fall u
  unfolding scan_start_length
  skip_length e = rw e (if_same _ _)

module _ (a : Bool) (w : ScanfConversionWidth) where
  -- A character that is no digit and no `*` comes to the length.
  reach_length :
      (l : ConversionLength) (c : ℕ)
      → ends_numeral c ≡ false
      → add_char_to_scanf_specification (scanning a w l) c
        ≡ (scan_start_length (scanning a w l) c >>= λ u. scan_specifier u c >>= more)
  unfolding add_char_to_scanf_specification
  reach_length l c plain =
      rw
        (
          skip_suppression (scanning a w l) c (not_digit c plain).1,
          skip_width (scanning a w l) c (not_digit c plain).0,
        )
        refl

  -- Such a character finds the same specification after a width and between two parts.
  in_width :
      (cs : List ℕ)
      → StartsPlain cs
      → parse_scanf (record (scanning a w no_length) { parsing_width = true }) cs
        ≡ parse_scanf (scanning a w no_length) cs
  unfolding parse_scanf add_char_to_scanf_specification
  in_width [] h = absurd h
  in_width (c ∷ cs) h = rw ((not_digit c h).0, scan_continue_width) refl

module _ (a : Bool) (w : ScanfConversionWidth) (s : ConversionSpecifier) (specified : s ≢ unparsed)
    (r : List ℕ) where
  abbrev finished : ConversionLength → Option (ScanfConversionSpecification × List ℕ)
  finished l = some (record { assignment_suppression = a; width = w; length = l; specifier = s }, r)

  letter :
      (l : ConversionLength) → parse_scanf (scanning a w l) (specifier_letter s ∷ r) ≡ finished l
  unfolding parse_scanf scan_specifier
  letter l =
      let k = specifier_letter-IsLetter s specified in
      rw
        (
          reach_length a w l (specifier_letter s) k.plain,
          skip_length (scanning a w l) (specifier_letter s) k.no_length_letter,
          k.specifies,
        )
        refl

  after_first :
      (l : ConversionLength)
      → parse_scanf (record (scanning a w l) { parsing_length = true }) (specifier_letter s ∷ r)
        ≡ finished l
  unfolding parse_scanf add_char_to_scanf_specification scan_continue_length
  after_first l =
      let k = specifier_letter-IsLetter s specified in
      rw (second_letter-none l (specifier_letter s) k.not_l k.not_h) (letter l)

  after_second :
      (l l' : ConversionLength) (c : ℕ)
      → second_letter l c ≡ some l'
      → parse_scanf (record (scanning a w l) { parsing_length = true }) (c ∷ specifier_letter s ∷ r)
        ≡ finished l'
  unfolding parse_scanf add_char_to_scanf_specification scan_continue_length
  after_second l l' c e = rw e (letter l')

  reach_first :
      (c : ℕ)
      → ends_numeral c ≡ false
      → add_char_to_scanf_specification (scanning a w no_length) c
        ≡ (scan_start_length (scanning a w no_length) c >>= λ u. scan_specifier u c >>= more)
  reach_first = reach_length a w no_length

  parse-ending_text :
      (l : ConversionLength) → parse_scanf (scanning a w no_length) (ending_text l s r) ≡ finished l
  unfolding parse_scanf scan_start_length first_letter
  parse-ending_text no_length = letter no_length
  parse-ending_text double = rw (reach_first b'L' refl) (letter double)
  parse-ending_text max_length_for_pointer =
      rw (reach_first b't' refl) (letter max_length_for_pointer)
  parse-ending_text max_length_for_size = rw (reach_first b'z' refl) (letter max_length_for_size)
  parse-ending_text max_length_for_int = rw (reach_first b'j' refl) (letter max_length_for_int)
  parse-ending_text long = rw (reach_first b'l' refl) (after_first long)
  parse-ending_text half = rw (reach_first b'h' refl) (after_first half)
  parse-ending_text long_long =
      rw (reach_first b'l' refl) (after_second long long_long b'l' second_l)
  parse-ending_text byte = rw (reach_first b'h' refl) (after_second half byte b'h' second_h)

module _ (a : Bool) (r : List ℕ) (plain : StartsPlain r) where
  digits_read :
      (ds : List ℕ) (n : ℕ)
      → AllDigits ds
      → decimal n ds < 2 ^ 64
      → parse_scanf
          (record (scanning a (ScanfConversionWidth.number n) no_length) { parsing_width = true })
          (ds ++ r)
        ≡ parse_scanf (scanning a (ScanfConversionWidth.number (decimal n ds)) no_length) r
  unfolding parse_scanf add_char_to_scanf_specification scan_continue_width
  digits_read [] n digits fits = in_width a (ScanfConversionWidth.number n) r plain
  digits_read (d ∷ ds) n digits fits =
      rw (digits.0)
        (rw (push_digit-fits d ds n fits) (digits_read ds (n * 10 + (d - b'0')) digits.1 fits))

  start_digit :
      (d : ℕ) (cs : List ℕ)
      → is_digit d ≡ true
      → parse_scanf (scanning a ScanfConversionWidth.no_width no_length) (d ∷ cs)
        ≡ parse_scanf
            (record (scanning a (ScanfConversionWidth.number (0 + (d - b'0'))) no_length) {
              parsing_width = true;
            })
            cs
  unfolding parse_scanf add_char_to_scanf_specification scan_start_width
  start_digit d cs digit =
      rw (skip_suppression (scanning a ScanfConversionWidth.no_width no_length) d (ground arith))
        (rw (digit, zero-add (d - b'0')) refl)

  parse-digits :
      (ds : List ℕ)
      → AllDigits ds
      → decimal 0 ds < 2 ^ 64
      → parse_scanf (scanning a ScanfConversionWidth.no_width no_length) (ds ++ r)
        ≡ parse_scanf (scanning a (scanf_width ds) no_length) r
  parse-digits [] digits fits = refl
  parse-digits (d ∷ ds) digits fits =
      start_digit d (ds ++ r) digits.0 ∙ digits_read ds (0 + (d - b'0')) digits.1 fits

suppress :
    (b : Bool) (cs : List ℕ)
    → parse_scanf unfinished_scanf (if b then b'*' ∷ cs else cs)
      ≡ parse_scanf (scanning b ScanfConversionWidth.no_width no_length) cs
unfolding parse_scanf add_char_to_scanf_specification scan_suppression
suppress true cs = refl
suppress false cs = refl

-- The text of a `scanf` specification (a `*` or none, then a width that fits in 64 bits or none, a
-- length and a specifier), followed by any text, is parsed from the first character after `%` to
-- that specification, and leaves the text that follows.
pub parse-scanf_text :
    (t : ScanfText) (r : List ℕ)
    → ScanfFits t
    → parse_scanf unfinished_scanf (scanf_text t r) ≡ some (scanf_value t, r)
parse-scanf_text t r fits =
    let ending : List ℕ = ending_text t.length t.specifier r in
    let plain : StartsPlain ending =
      ending_text-StartsPlain t.length t.specifier r fits.specified in
    suppress t.suppressed (t.digits ++ ending)
    ∙ (parse-digits t.suppressed ending plain t.digits fits.all_digits fits.width_fits
        ∙ parse-ending_text t.suppressed (scanf_width t.digits) t.specifier fits.specified r
            t.length)
