-- ===== src/Rlibc/Specifier/Sound.antt =====
-- What holds of a specification of `printf` under construction, whatever the characters are.
use ron.Base.{ℕ, ◌≡◌, ◌≢◌, Bool, true, false, some, arith}
use ron.Rlibc.Specifier.{
  ConversionSpecifier, unparsed, PrintfConversionWidth, ConversionLength, long, half, specifier_of,
  Outcome, overflow, more, parsed, Phase, fall, return, ◌>>=◌,
}
use ron.Rlibc.Specifier.Printf.{
  PrintfConversionSpecification, Unfinished, add_char_to_printf_specification, continue_width,
  continue_precision, continue_length, start_flag, start_width, start_precision, start_length,
  read_specifier,
}

-- While digits of the width are read, the width is a number; while a second letter may follow, the
-- length is `l` or `h`.
abbrev WidthUnderWay : Bool → PrintfConversionWidth → Type 0
WidthUnderWay true (PrintfConversionWidth.number n) = Unit
WidthUnderWay true w = ⊥
WidthUnderWay false w = Unit

abbrev LengthUnderWay : Bool → ConversionLength → Type 0
LengthUnderWay true long = Unit
LengthUnderWay true half = Unit
LengthUnderWay true l = ⊥
LengthUnderWay false l = Unit

pub record IsSound (u : Unfinished) : Type 0 where
  pub width_under_way : WidthUnderWay u.parsing_width u.conversion.width
  pub length_under_way : LengthUnderWay u.parsing_length u.conversion.length

abbrev pub OutcomeIsSound : Outcome Unfinished PrintfConversionSpecification → Type 0
OutcomeIsSound overflow = Unit
OutcomeIsSound (more u) = IsSound u
OutcomeIsSound (parsed s) = s.specifier ≢ unparsed

abbrev PhaseIsSound : Phase Unfinished PrintfConversionSpecification → Type 0
PhaseIsSound (fall u) = IsSound u
PhaseIsSound (return o) = OutcomeIsSound o

bind-IsSound :
    (m : Phase Unfinished PrintfConversionSpecification)
    (f : Unfinished → Outcome Unfinished PrintfConversionSpecification)
    → PhaseIsSound m
    → ((u : Unfinished) → IsSound u → OutcomeIsSound (f u))
    → OutcomeIsSound (m >>= f)
bind-IsSound (fall u) f h k = k u h
bind-IsSound (return o) f h k = h

specifier_of-parsed : (c : ℕ) {s : ConversionSpecifier} → specifier_of c ≡ some s → s ≢ unparsed
unfolding specifier_of
specifier_of-parsed c e = ground arith

continue_width-IsSound : (u : Unfinished) (c : ℕ) → IsSound u → PhaseIsSound (continue_width u c)
unfolding continue_width
continue_width-IsSound u c h = ground arith

continue_precision-IsSound :
    (u : Unfinished) (c : ℕ) → IsSound u → PhaseIsSound (continue_precision u c)
unfolding continue_precision
continue_precision-IsSound u c h = ground arith

continue_length-IsSound : (u : Unfinished) (c : ℕ) → IsSound u → PhaseIsSound (continue_length u c)
unfolding continue_length
continue_length-IsSound u c h = ground arith

start_flag-IsSound : (u : Unfinished) (c : ℕ) → IsSound u → PhaseIsSound (start_flag u c)
unfolding start_flag
start_flag-IsSound u c h = ground arith

start_width-IsSound : (u : Unfinished) (c : ℕ) → IsSound u → PhaseIsSound (start_width u c)
unfolding start_width
start_width-IsSound u c h = ground arith

start_precision-IsSound : (u : Unfinished) (c : ℕ) → IsSound u → PhaseIsSound (start_precision u c)
unfolding start_precision
start_precision-IsSound u c h = ground arith

start_length-IsSound : (u : Unfinished) (c : ℕ) → IsSound u → PhaseIsSound (start_length u c)
unfolding start_length
start_length-IsSound u c h = ground arith

read_specifier-IsSound : (u : Unfinished) (c : ℕ) → IsSound u → PhaseIsSound (read_specifier u c)
unfolding read_specifier
read_specifier-IsSound u c h = ground (arith, specifier_of-parsed c)

-- While the digits of a width are read the width is a number, and while a second letter may follow
-- the length is `l` or `h`: a character keeps this in an unfinished specification, and a finished
-- one has a specifier.
pub add_char_to_printf_specification-IsSound :
    (u : Unfinished) (c : ℕ) → IsSound u → OutcomeIsSound (add_char_to_printf_specification u c)
unfolding add_char_to_printf_specification
add_char_to_printf_specification-IsSound u c h =
    bind-IsSound (continue_width u c) _ (continue_width-IsSound u c h) (λ u h.
      bind-IsSound (continue_precision u c) _ (continue_precision-IsSound u c h) (λ u h.
        bind-IsSound (continue_length u c) _ (continue_length-IsSound u c h) (λ u h.
          bind-IsSound (start_flag u c) _ (start_flag-IsSound u c h) (λ u h.
            bind-IsSound (start_width u c) _ (start_width-IsSound u c h) (λ u h.
              bind-IsSound (start_precision u c) _ (start_precision-IsSound u c h) (λ u h.
                bind-IsSound (start_length u c) _ (start_length-IsSound u c h) (λ u h.
                  bind-IsSound (read_specifier u c) _ (read_specifier-IsSound u c h)
                    (λ u h. h))))))))
