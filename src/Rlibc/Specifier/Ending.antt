-- ===== src/Rlibc/Specifier/Ending.antt =====
-- The ending of a specification: its length and the letter of its specifier.
use ron.Base.{ℕ, ◌≡◌, refl, ◌≢◌, true, false, ◌==◌, List, ◌∷◌, Option, none, some}
use ron.Rlibc.Specifier.{
  ConversionFlags, ConversionSpecifier, unparsed, PrintfConversionWidth, ConversionPrecision,
  ConversionLength, double, max_length_for_pointer, max_length_for_size, max_length_for_int,
  long_long, long, half, byte, no_length, more, specifier_of, flag_of, first_letter, second_letter,
  ◌>>=◌,
}
use ron.Rlibc.Specifier.Printf.{
  add_char_to_printf_specification, parse_printf, continue_length, start_length, read_specifier,
  PrintfConversionSpecification,
}
use ron.Rlibc.Specifier.Text.{specifier_letter, ending_text}
use ron.Rlibc.Specifier.Phases.{
  between, ends_numeral, reach_length, skip_length, StartsPlain, second_l, second_h,
}

-- Only the last part of the parser takes the letter of a specifier.
pub record IsLetter (s : ConversionSpecifier) (c : ℕ) : Type 0 where
  pub no_flag : flag_of c ≡ none
  pub plain : ends_numeral c ≡ false
  pub no_dot : (c == b'.') ≡ false
  pub no_length_letter : first_letter c ≡ none
  pub not_l : (c == b'l') ≡ false
  pub not_h : (c == b'h') ≡ false
  pub not_star : (c == b'*') ≡ false
  pub specifies : specifier_of c ≡ some s

pub specifier_letter-IsLetter :
    (s : ConversionSpecifier) → s ≢ unparsed → IsLetter s (specifier_letter s)
unfolding flag_of first_letter specifier_of
specifier_letter-IsLetter unparsed h = absurd (h refl)
specifier_letter-IsLetter s h = record {
  no_flag = refl;
  plain = refl;
  no_dot = refl;
  no_length_letter = refl;
  not_l = refl;
  not_h = refl;
  not_star = refl;
  specifies = refl;
}

pub second_letter-none :
    (l : ConversionLength) (c : ℕ)
    → (c == b'l') ≡ false
    → (c == b'h') ≡ false
    → second_letter l c ≡ none
unfolding second_letter
second_letter-none long c not_l not_h = rw not_l
second_letter-none half c not_l not_h = rw not_h
second_letter-none l c not_l not_h = refl

pub ending_text-StartsPlain :
    (l : ConversionLength) (s : ConversionSpecifier) (r : List ℕ)
    → s ≢ unparsed
    → StartsPlain (ending_text l s r)
ending_text-StartsPlain no_length s r h = (specifier_letter-IsLetter s h).plain
ending_text-StartsPlain l s r h = refl

module _ (f : ConversionFlags) (w : PrintfConversionWidth) (p : ConversionPrecision)
    (s : ConversionSpecifier) (specified : s ≢ unparsed) (r : List ℕ) where
  abbrev finished : ConversionLength → Option (PrintfConversionSpecification × List ℕ)
  finished l = some (record { flags = f; width = w; precision = p; length = l; specifier = s }, r)

  -- The letter finishes the specification.
  letter :
      (l : ConversionLength) → parse_printf (between f w p l) (specifier_letter s ∷ r) ≡ finished l
  unfolding parse_printf read_specifier
  letter l =
      let k = specifier_letter-IsLetter s specified in
      rw
        (
          reach_length f w p l (specifier_letter s) k.no_flag k.plain k.no_dot,
          skip_length (between f w p l) (specifier_letter s) k.no_length_letter,
          k.specifies,
        )
        refl

  -- So it does after a first letter that could be doubled.
  after_first :
      (l : ConversionLength)
      → parse_printf (record (between f w p l) { parsing_length = true }) (specifier_letter s ∷ r)
        ≡ finished l
  unfolding parse_printf add_char_to_printf_specification continue_length
  after_first l =
      let k = specifier_letter-IsLetter s specified in
      rw (second_letter-none l (specifier_letter s) k.not_l k.not_h) (letter l)

  -- The second letter of `ll` and of `hh`.
  after_second :
      (l l' : ConversionLength) (c : ℕ)
      → second_letter l c ≡ some l'
      → parse_printf
          (record (between f w p l) { parsing_length = true })
          (c ∷ specifier_letter s ∷ r)
        ≡ finished l'
  unfolding parse_printf add_char_to_printf_specification continue_length
  after_second l l' c e = rw e (letter l')

  -- A first letter leads to the state that its length describes.
  reach_first :
      (c : ℕ)
      → flag_of c ≡ none
      → ends_numeral c ≡ false
      → (c == b'.') ≡ false
      → add_char_to_printf_specification (between f w p no_length) c
        ≡ (start_length (between f w p no_length) c >>= λ u. read_specifier u c >>= more)
  reach_first = reach_length f w p no_length

  pub parse-ending_text :
      (l : ConversionLength)
      → parse_printf (between f w p no_length) (ending_text l s r) ≡ finished l
  unfolding parse_printf start_length flag_of first_letter
  parse-ending_text no_length = letter no_length
  parse-ending_text double = rw (reach_first b'L' refl refl refl) (letter double)
  parse-ending_text max_length_for_pointer =
      rw (reach_first b't' refl refl refl) (letter max_length_for_pointer)
  parse-ending_text max_length_for_size =
      rw (reach_first b'z' refl refl refl) (letter max_length_for_size)
  parse-ending_text max_length_for_int =
      rw (reach_first b'j' refl refl refl) (letter max_length_for_int)
  parse-ending_text long = rw (reach_first b'l' refl refl refl) (after_first long)
  parse-ending_text half = rw (reach_first b'h' refl refl refl) (after_first half)
  parse-ending_text long_long =
      rw (reach_first b'l' refl refl refl) (after_second long long_long b'l' second_l)
  parse-ending_text byte =
      rw (reach_first b'h' refl refl refl) (after_second half byte b'h' second_h)
