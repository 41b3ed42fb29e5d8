-- ===== src/Rlibc/Specifier/Text.antt =====
-- The grammar of a conversion specification, as a text and as what it means, as in the C standard.
use ron.Base.{ℕ, ◌+◌, ◌^◌, ◌<◌, ◌≢◌, Bool, if◌then◌else◌, List, [], ◌∷◌, ◌++◌}
use ron.Rlibc.Specifier.{
  ConversionFlags, ConversionSpecifier, signed_integer, signed_decimal_integer,
  unsigned_decimal_integer, unsigned_octal_integer, unsigned_hex_integer_lower_case,
  unsigned_hex_integer_upper_case, decimal_float_lower_case, decimal_float_upper_case,
  scientific_notation_lower_case, scientific_notation_upper_case, shortest_float_lower_case,
  shortest_float_upper_case, hex_float_lower_case, hex_float_upper_case, character, string, pointer,
  escape, unparsed, PrintfConversionWidth, ScanfConversionWidth, ConversionPrecision, no_precision,
  ConversionLength, double, max_length_for_pointer, max_length_for_size, max_length_for_int,
  long_long, long, half, byte, no_length,
}
use ron.Rlibc.Specifier.Printf.{PrintfConversionSpecification}
use ron.Rlibc.Specifier.Scanf.{ScanfConversionSpecification}
use ron.Rlibc.Specifier.Numerals.{decimal, AllDigits}

abbrev pub length_text : ConversionLength → List ℕ
length_text double = b'L' ∷ []
length_text max_length_for_pointer = b't' ∷ []
length_text max_length_for_size = b'z' ∷ []
length_text max_length_for_int = b'j' ∷ []
length_text long_long = b'l' ∷ b'l' ∷ []
length_text long = b'l' ∷ []
length_text half = b'h' ∷ []
length_text byte = b'h' ∷ b'h' ∷ []
length_text no_length = []

-- `unparsed` has no letter.
abbrev pub specifier_letter : ConversionSpecifier → ℕ
specifier_letter signed_integer = b'i'
specifier_letter signed_decimal_integer = b'd'
specifier_letter unsigned_decimal_integer = b'u'
specifier_letter unsigned_octal_integer = b'o'
specifier_letter unsigned_hex_integer_lower_case = b'x'
specifier_letter unsigned_hex_integer_upper_case = b'X'
specifier_letter decimal_float_lower_case = b'f'
specifier_letter decimal_float_upper_case = b'F'
specifier_letter scientific_notation_lower_case = b'e'
specifier_letter scientific_notation_upper_case = b'E'
specifier_letter shortest_float_lower_case = b'g'
specifier_letter shortest_float_upper_case = b'G'
specifier_letter hex_float_lower_case = b'a'
specifier_letter hex_float_upper_case = b'A'
specifier_letter character = b'c'
specifier_letter string = b's'
specifier_letter pointer = b'p'
specifier_letter escape = b'%'
specifier_letter ConversionSpecifier.meta = b'n'
specifier_letter unparsed = 0

-- A width: a numeral that does not start with a zero, or `*`.
pub data WidthText : Type 0 where
  no_width star : WidthText
  numeral : ℕ → List ℕ → WidthText

abbrev pub width_text : WidthText → List ℕ
width_text no_width = []
width_text star = b'*' ∷ []
width_text (numeral d ds) = d ∷ ds

abbrev pub width_value : WidthText → PrintfConversionWidth
width_value no_width = PrintfConversionWidth.no_width
width_value star = PrintfConversionWidth.meta
width_value (numeral d ds) = PrintfConversionWidth.number (decimal 0 (d ∷ ds))

abbrev pub WidthFits : WidthText → Type 0
WidthFits (numeral d ds) = (d ≢ b'0') × AllDigits (d ∷ ds) × (decimal 0 (d ∷ ds) < 2 ^ 64)
WidthFits _ = Unit

-- A precision: a dot with digits, which may be none, or with `*`.
pub data PrecisionText : Type 0 where
  absent dot_star : PrecisionText
  dot : List ℕ → PrecisionText

abbrev pub precision_text : PrecisionText → List ℕ
precision_text absent = []
precision_text dot_star = b'.' ∷ b'*' ∷ []
precision_text (dot ds) = b'.' ∷ ds

-- A lone dot means no precision.
abbrev pub precision_value : PrecisionText → ConversionPrecision
precision_value absent = no_precision
precision_value dot_star = ConversionPrecision.meta
precision_value (dot []) = no_precision
precision_value (dot (d ∷ ds)) = ConversionPrecision.number (decimal 0 (d ∷ ds))

abbrev pub PrecisionFits : PrecisionText → Type 0
PrecisionFits (dot ds) = AllDigits ds × (decimal 0 ds < 2 ^ 64)
PrecisionFits _ = Unit

pub record FlagsText : Type 0 where
  pub left : Bool
  pub sign : Bool
  pub blank : Bool
  pub base : Bool
  pub zeroes : Bool

abbrev pub flags_text : FlagsText → List ℕ → List ℕ
flags_text t r =
    let r_0 : List ℕ = if t.zeroes then b'0' ∷ r else r in
    let r_1 : List ℕ = if t.base then b'#' ∷ r_0 else r_0 in
    let r_2 : List ℕ = if t.blank then b' ' ∷ r_1 else r_1 in
    let r_3 : List ℕ = if t.sign then b'+' ∷ r_2 else r_2 in if t.left then b'-' ∷ r_3 else r_3

abbrev pub bit : Bool → ℕ → ℕ
bit b n = if b then n else 0

abbrev pub flags_value : FlagsText → ConversionFlags
flags_value t = 0 + bit t.left 1 + bit t.sign 2 + bit t.blank 4 + bit t.base 8 + bit t.zeroes 16

pub record PrintfText : Type 0 where
  pub flags : FlagsText
  pub width : WidthText
  pub precision : PrecisionText
  pub length : ConversionLength
  pub specifier : ConversionSpecifier

-- The text of a specification after its `%`, with what follows it.
abbrev pub ending_text : ConversionLength → ConversionSpecifier → List ℕ → List ℕ
ending_text l s r = length_text l ++ specifier_letter s ∷ r

abbrev pub printf_text : PrintfText → List ℕ → List ℕ
printf_text t r =
    flags_text t.flags
      (width_text t.width ++ (precision_text t.precision ++ ending_text t.length t.specifier r))

abbrev pub printf_value : PrintfText → PrintfConversionSpecification
printf_value t = record {
  flags = flags_value t.flags;
  width = width_value t.width;
  precision = precision_value t.precision;
  length = t.length;
  specifier = t.specifier;
}

pub record PrintfFits (t : PrintfText) : Type 0 where
  pub width_fits : WidthFits t.width
  pub precision_fits : PrecisionFits t.precision
  pub specified : t.specifier ≢ unparsed

-- A specification of `scanf`: it may be suppressed by `*`, and its width is a numeral or absent.
pub record ScanfText : Type 0 where
  pub suppressed : Bool
  pub digits : List ℕ
  pub length : ConversionLength
  pub specifier : ConversionSpecifier

abbrev pub scanf_text : ScanfText → List ℕ → List ℕ
scanf_text t r =
    let tail : List ℕ = t.digits ++ ending_text t.length t.specifier r in
    if t.suppressed then b'*' ∷ tail else tail

abbrev pub scanf_width : List ℕ → ScanfConversionWidth
scanf_width [] = ScanfConversionWidth.no_width
scanf_width (d ∷ ds) = ScanfConversionWidth.number (decimal 0 (d ∷ ds))

abbrev pub scanf_value : ScanfText → ScanfConversionSpecification
scanf_value t = record {
  assignment_suppression = t.suppressed;
  width = scanf_width t.digits;
  length = t.length;
  specifier = t.specifier;
}

pub record ScanfFits (t : ScanfText) : Type 0 where
  pub all_digits : AllDigits t.digits
  pub width_fits : decimal 0 t.digits < 2 ^ 64
  pub specified : t.specifier ≢ unparsed
