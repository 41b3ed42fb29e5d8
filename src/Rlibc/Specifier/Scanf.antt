-- ===== src/Rlibc/Specifier/Scanf.antt =====
-- rlibc/src/specifier_parsing.rs: `add_char_to_scanf_specification`, one definition for each part
-- that a character is offered to.
use ron.Base.{
  ℕ, ◌-◌, ◌==◌, Bool, true, false, not, if◌then◌else◌, Option, none, some, List, [], ◌∷◌,
}
use ron.Rlibc.Specifier.{
  ConversionSpecifier, unparsed, specifier_of, ScanfConversionWidth, ConversionLength, no_length,
  is_digit, push_digit, Outcome, more, parsed, Phase, fall, return, ◌>>=◌, with_number,
  second_letter, first_letter, length_is_unset, specifier_is_unparsed, resume,
}

pub record ScanfConversionSpecification : Type 0 where
  pub assignment_suppression : Bool
  pub width : ScanfConversionWidth
  pub length : ConversionLength
  pub specifier : ConversionSpecifier

pub record UnfinishedScanf : Type 0 where
  pub conversion : ScanfConversionSpecification
  pub parsing_width : Bool
  pub parsing_length : Bool

-- `UnfinishedScanfConversionSpecification::default()`.
abbrev pub unfinished_scanf : UnfinishedScanf
unfinished_scanf = record {
  conversion = record {
    assignment_suppression = false;
    width = ScanfConversionWidth.no_width;
    length = no_length;
    specifier = unparsed;
  };
  parsing_width = false;
  parsing_length = false;
}

abbrev scan_width : ScanfConversionWidth → UnfinishedScanf → UnfinishedScanf
scan_width w u = record u { conversion = record u.conversion { width = w } }

abbrev scan_length : ConversionLength → UnfinishedScanf → UnfinishedScanf
scan_length l u = record u { conversion = record u.conversion { length = l } }

abbrev ScanfOutcome : Type 0
ScanfOutcome = Outcome UnfinishedScanf ScanfConversionSpecification

abbrev ScanfPhase : Type 0
ScanfPhase = Phase UnfinishedScanf ScanfConversionSpecification

-- The width is there and a digit follows. A width that is not a number is dropped.
unfoldable pub scan_width_digit : ScanfConversionWidth → ℕ → UnfinishedScanf → ScanfPhase
scan_width_digit (ScanfConversionWidth.number n) c u =
    with_number (push_digit n c) (λ m. scan_width (ScanfConversionWidth.number m) u)
scan_width_digit _ c u =
    return (more (record (scan_width ScanfConversionWidth.no_width u) { parsing_width = false }))

unfoldable pub scan_continue_width : UnfinishedScanf → ℕ → ScanfPhase
unfolding scan_width_digit
scan_continue_width u c =
    if u.parsing_width
    then (if is_digit c
        then scan_width_digit u.conversion.width c u
        else fall (record u { parsing_width = false }))
    else fall u

abbrev scan_doubled : Option ConversionLength → UnfinishedScanf → ScanfPhase
scan_doubled none u = fall u
scan_doubled (some l) u = return (more (scan_length l u))

unfoldable pub scan_continue_length : UnfinishedScanf → ℕ → ScanfPhase
unfolding second_letter
scan_continue_length u c =
    if u.parsing_length
    then scan_doubled (second_letter u.conversion.length c) (record u { parsing_length = false })
    else fall u

unfoldable pub scan_suppression : UnfinishedScanf → ℕ → ScanfPhase
scan_suppression u c =
    if not u.conversion.assignment_suppression
    then (if c == b'*'
        then return
            (more (record u { conversion = record u.conversion { assignment_suppression = true } }))
        else fall u)
    else fall u

abbrev scan_width_is_unset : ScanfConversionWidth → Bool
scan_width_is_unset ScanfConversionWidth.no_width = true
scan_width_is_unset _ = false

unfoldable pub scan_start_width : UnfinishedScanf → ℕ → ScanfPhase
scan_start_width u c =
    if scan_width_is_unset u.conversion.width
    then (if is_digit c
        then return (
            more (record (scan_width (ScanfConversionWidth.number (c - b'0')) u) {
              parsing_width = true;
            }))
        else fall u)
    else fall u

abbrev scan_lengthened : Option (ConversionLength × Bool) → UnfinishedScanf → ScanfPhase
scan_lengthened none u = fall u
scan_lengthened (some (l, true)) u =
    return (more (record (scan_length l u) { parsing_length = true }))
scan_lengthened (some (l, false)) u = return (more (scan_length l u))

unfoldable pub scan_start_length : UnfinishedScanf → ℕ → ScanfPhase
unfolding first_letter
scan_start_length u c =
    if length_is_unset u.conversion.length then scan_lengthened (first_letter c) u else fall u

abbrev scan_specified : Option ConversionSpecifier → UnfinishedScanf → ScanfPhase
scan_specified none u = fall u
scan_specified (some s) u = return (parsed (record u.conversion { specifier = s }))

unfoldable pub scan_specifier : UnfinishedScanf → ℕ → ScanfPhase
unfolding specifier_of
scan_specifier u c =
    if specifier_is_unparsed u.conversion.specifier
    then scan_specified (specifier_of c) u
    else fall u

-- A character that no part takes is ignored.
unfoldable pub add_char_to_scanf_specification : UnfinishedScanf → ℕ → ScanfOutcome
unfolding scan_continue_width scan_continue_length scan_suppression scan_start_width
    scan_start_length scan_specifier
add_char_to_scanf_specification u c = do
  u ← scan_continue_width u c
  u ← scan_continue_length u c
  u ← scan_suppression u c
  u ← scan_start_width u c
  u ← scan_start_length u c
  u ← scan_specifier u c
  more u

-- What the caller does: it feeds characters until the specification is finished. The characters
-- that remain are returned with it; `none` if the text ends first or a number overflows.
unfoldable pub parse_scanf :
    UnfinishedScanf → List ℕ → Option (ScanfConversionSpecification × List ℕ)
parse_scanf u [] = none
parse_scanf u (c ∷ cs) = resume (add_char_to_scanf_specification u c) cs (λ u'. parse_scanf u' cs)
