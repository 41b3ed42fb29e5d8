-- ===== src/Rlibc/Specifier/Printf.antt =====
-- rlibc/src/specifier_parsing.rs: `add_char_to_printf_specification`, one definition for each part
-- that a character is offered to.
use ron.Base.{
  ℕ, ◌-◌, ◌==◌, Bool, true, false, not, if◌then◌else◌, bit_or, Option, none, some, List, [], ◌∷◌,
}
use ron.Rlibc.Specifier.{
  ConversionFlags, all_flags, flag_of, ConversionSpecifier, unparsed, specifier_of,
  PrintfConversionWidth, ConversionPrecision, no_precision, ConversionLength, no_length, is_digit,
  push_digit, Outcome, more, parsed, Phase, fall, return, ◌>>=◌, with_number, second_letter,
  first_letter, length_is_unset, specifier_is_unparsed, resume,
}

pub record PrintfConversionSpecification : Type 0 where
  pub flags : ConversionFlags
  pub width : PrintfConversionWidth
  pub precision : ConversionPrecision
  pub length : ConversionLength
  pub specifier : ConversionSpecifier

pub record Unfinished : Type 0 where
  pub conversion : PrintfConversionSpecification
  pub parsing_width : Bool
  pub parsing_precision : Bool
  pub parsing_length : Bool

-- `UnfinishedPrintfConversionSpecification::default()`.
abbrev pub unfinished : Unfinished
unfinished = record {
  conversion = record {
    flags = 0;
    width = PrintfConversionWidth.no_width;
    precision = no_precision;
    length = no_length;
    specifier = unparsed;
  };
  parsing_width = false;
  parsing_precision = false;
  parsing_length = false;
}

abbrev pub set_flags : ConversionFlags → Unfinished → Unfinished
set_flags v u = record u { conversion = record u.conversion { flags = v } }

abbrev pub set_width : PrintfConversionWidth → Unfinished → Unfinished
set_width w u = record u { conversion = record u.conversion { width = w } }

abbrev pub set_precision : ConversionPrecision → Unfinished → Unfinished
set_precision p u = record u { conversion = record u.conversion { precision = p } }

abbrev pub set_length : ConversionLength → Unfinished → Unfinished
set_length l u = record u { conversion = record u.conversion { length = l } }

abbrev PrintfOutcome : Type 0
PrintfOutcome = Outcome Unfinished PrintfConversionSpecification

abbrev PrintfPhase : Type 0
PrintfPhase = Phase Unfinished PrintfConversionSpecification

-- The width is there and a digit follows. A width that is not a number is dropped.
unfoldable pub width_digit : PrintfConversionWidth → ℕ → Unfinished → PrintfPhase
width_digit (PrintfConversionWidth.number n) c u =
    with_number (push_digit n c) (λ m. set_width (PrintfConversionWidth.number m) u)
width_digit _ c u =
    return (more (record (set_width PrintfConversionWidth.no_width u) { parsing_width = false }))

unfoldable pub continue_width : Unfinished → ℕ → PrintfPhase
unfolding width_digit
continue_width u c =
    if u.parsing_width
    then (if is_digit c
        then width_digit u.conversion.width c u
        else fall (record u { parsing_width = false }))
    else fall u

unfoldable pub precision_digit : ConversionPrecision → ℕ → Unfinished → PrintfPhase
precision_digit (ConversionPrecision.number n) c u =
    with_number (push_digit n c) (λ m. set_precision (ConversionPrecision.number m) u)
precision_digit _ c u = return (more (set_precision (ConversionPrecision.number (c - b'0')) u))

unfoldable pub continue_precision : Unfinished → ℕ → PrintfPhase
unfolding precision_digit
continue_precision u c =
    if u.parsing_precision
    then (if is_digit c
        then precision_digit u.conversion.precision c u
        else if c == b'*'
        then return
            (more (record (set_precision ConversionPrecision.meta u) { parsing_precision = false }))
        else fall (record u { parsing_precision = false }))
    else fall u

abbrev doubled : Option ConversionLength → Unfinished → PrintfPhase
doubled none u = fall u
doubled (some l) u = return (more (set_length l u))

unfoldable pub continue_length : Unfinished → ℕ → PrintfPhase
unfolding second_letter
continue_length u c =
    if u.parsing_length
    then doubled (second_letter u.conversion.length c) (record u { parsing_length = false })
    else fall u

abbrev flagged : Option ConversionFlags → Unfinished → PrintfPhase
flagged none u = fall u
flagged (some v) u = return (more (set_flags (bit_or u.conversion.flags v) u))

unfoldable pub start_flag : Unfinished → ℕ → PrintfPhase
unfolding flag_of
start_flag u c = if not (u.conversion.flags == all_flags) then flagged (flag_of c) u else fall u

abbrev width_is_unset : PrintfConversionWidth → Bool
width_is_unset PrintfConversionWidth.no_width = true
width_is_unset _ = false

-- After `*` there is no `return`: the character goes on to the next parts.
unfoldable pub start_width : Unfinished → ℕ → PrintfPhase
start_width u c =
    if width_is_unset u.conversion.width
    then (if c == b'*'
        then fall (set_width PrintfConversionWidth.meta u)
        else if is_digit c
        then return (
            more (record (set_width (PrintfConversionWidth.number (c - b'0')) u) {
              parsing_width = true;
            }))
        else fall u)
    else fall u

abbrev precision_is_unset : ConversionPrecision → Bool
precision_is_unset no_precision = true
precision_is_unset _ = false

unfoldable pub start_precision : Unfinished → ℕ → PrintfPhase
start_precision u c =
    if precision_is_unset u.conversion.precision
    then (if c == b'.' then return (more (record u { parsing_precision = true })) else fall u)
    else fall u

abbrev lengthened : Option (ConversionLength × Bool) → Unfinished → PrintfPhase
lengthened none u = fall u
lengthened (some (l, true)) u = return (more (record (set_length l u) { parsing_length = true }))
lengthened (some (l, false)) u = return (more (set_length l u))

unfoldable pub start_length : Unfinished → ℕ → PrintfPhase
unfolding first_letter
start_length u c =
    if length_is_unset u.conversion.length then lengthened (first_letter c) u else fall u

abbrev specified : Option ConversionSpecifier → Unfinished → PrintfPhase
specified none u = fall u
specified (some s) u = return (parsed (record u.conversion { specifier = s }))

unfoldable pub read_specifier : Unfinished → ℕ → PrintfPhase
unfolding specifier_of
read_specifier u c =
    if specifier_is_unparsed u.conversion.specifier then specified (specifier_of c) u else fall u

-- A character that no part takes is ignored.
unfoldable pub add_char_to_printf_specification : Unfinished → ℕ → PrintfOutcome
unfolding continue_width continue_precision continue_length start_flag start_width start_precision
    start_length read_specifier
add_char_to_printf_specification u c = do
  u ← continue_width u c
  u ← continue_precision u c
  u ← continue_length u c
  u ← start_flag u c
  u ← start_width u c
  u ← start_precision u c
  u ← start_length u c
  u ← read_specifier u c
  more u

-- What the callers do: they feed characters until the specification is finished. The characters
-- that remain are returned with it; `none` if the text ends first or a number overflows.
unfoldable pub parse_printf : Unfinished → List ℕ → Option (PrintfConversionSpecification × List ℕ)
parse_printf u [] = none
parse_printf u (c ∷ cs) =
    resume (add_char_to_printf_specification u c) cs (λ u'. parse_printf u' cs)
