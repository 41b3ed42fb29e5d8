-- ===== src/Rlibc/Specifier.antt =====
-- rlibc/src/specifier_parsing.rs: the conversion specifications of `printf` and `scanf`, which are
-- parsed one character at a time. A character is its code.
pub mod Printf
pub mod Scanf
mod Phases
mod Numerals
mod Text
mod Flags
mod Ending
mod Precision
mod RoundTrip
mod ScanfTrip
mod Sound
mod Tests
use ron.Base.{
  ℕ, ◌+◌, ◌*◌, ◌-◌, ◌^◌, ◌==◌, ltb, leb, Bool, true, false, ◌&&◌, if◌then◌else◌, Option, none, some,
  List,
}
use ron.Base.Run.{Run, panic, ran}

-- `ConversionFlags`, a set of bits in a byte, and its `|`.
abbrev pub ConversionFlags : Type 0
ConversionFlags = ℕ

abbrev pub left_justify : ConversionFlags
left_justify = 1

abbrev pub always_preceed_with_sign : ConversionFlags
always_preceed_with_sign = 2

abbrev pub preceed_with_blank_space_if_no_sign : ConversionFlags
preceed_with_blank_space_if_no_sign = 4

abbrev pub preceed_with_base_marking : ConversionFlags
preceed_with_base_marking = 8

abbrev pub left_pad_with_zeroes : ConversionFlags
left_pad_with_zeroes = 16

abbrev pub all_flags : ConversionFlags
all_flags = 31

-- `ConversionFlags::try_from`.
unfoldable pub flag_of : ℕ → Option ConversionFlags
flag_of c =
    if c == b'-'
    then some left_justify
    else if c == b'+'
    then some always_preceed_with_sign
    else if c == b' '
    then some preceed_with_blank_space_if_no_sign
    else if c == b'#'
    then some preceed_with_base_marking
    else if c == b'0'
    then some left_pad_with_zeroes
    else none

pub data ConversionSpecifier : Type 0 where
  signed_integer signed_decimal_integer unsigned_decimal_integer unsigned_octal_integer
        unsigned_hex_integer_lower_case unsigned_hex_integer_upper_case decimal_float_lower_case
        decimal_float_upper_case scientific_notation_lower_case scientific_notation_upper_case
        shortest_float_lower_case shortest_float_upper_case hex_float_lower_case
        hex_float_upper_case character string pointer escape meta unparsed :
      ConversionSpecifier

-- `ConversionSpecifier::try_from`.
unfoldable pub specifier_of : ℕ → Option ConversionSpecifier
specifier_of c =
    if c == b'i'
    then some signed_integer
    else if c == b'd'
    then some signed_decimal_integer
    else if c == b'u'
    then some unsigned_decimal_integer
    else if c == b'o'
    then some unsigned_octal_integer
    else if c == b'x'
    then some unsigned_hex_integer_lower_case
    else if c == b'X'
    then some unsigned_hex_integer_upper_case
    else if c == b'f'
    then some decimal_float_lower_case
    else if c == b'F'
    then some decimal_float_upper_case
    else if c == b'e'
    then some scientific_notation_lower_case
    else if c == b'E'
    then some scientific_notation_upper_case
    else if c == b'g'
    then some shortest_float_lower_case
    else if c == b'G'
    then some shortest_float_upper_case
    else if c == b'a'
    then some hex_float_lower_case
    else if c == b'A'
    then some hex_float_upper_case
    else if c == b'c'
    then some character
    else if c == b's'
    then some string
    else if c == b'p'
    then some pointer
    else if c == b'%'
    then some escape
    else if c == b'n'
    then some meta
    else none

pub data PrintfConversionWidth : Type 0 where
  number : ℕ → PrintfConversionWidth
  meta no_width : PrintfConversionWidth

pub data ScanfConversionWidth : Type 0 where
  number : ℕ → ScanfConversionWidth
  no_width : ScanfConversionWidth

pub data ConversionPrecision : Type 0 where
  number : ℕ → ConversionPrecision
  meta no_precision : ConversionPrecision

pub data ConversionLength : Type 0 where
  double max_length_for_pointer max_length_for_size max_length_for_int long_long long half byte
        no_length :
      ConversionLength

-- The pattern `b'0' | ... | b'9'`.
abbrev pub is_digit : ℕ → Bool
is_digit c = leb b'0' c && leb c b'9'

-- `n * 10 + (c - b'0') as usize`, which panics beyond 64 bits.
unfoldable pub push_digit : ℕ → ℕ → Run ℕ
push_digit n c = let n' = n * 10 + (c - b'0') in if ltb n' (2 ^ 64) then ran n' else panic

-- How a part of the parser leaves a character: it falls through to the next part, or it returns,
-- with `Err` (`more`, the specification wants more characters) or with `Ok` (`parsed`), or it
-- panics.
pub data Outcome (S C : Type 0) : Type 0 where
  overflow : Outcome S C
  more : S → Outcome S C
  parsed : C → Outcome S C

pub data Phase (S C : Type 0) : Type 0 where
  fall : S → Phase S C
  return : Outcome S C → Phase S C

infixl 5 ◌>>=◌
abbrev pub ◌>>=◌ : {S C : Type 0} → Phase S C → (S → Outcome S C) → Outcome S C
fall u >>= f = f u
return o >>= f = o

-- The rest of a `usize` step, once its sum is there.
abbrev pub with_number : {S C : Type 0} → Run ℕ → (ℕ → S) → Phase S C
with_number panic k = return overflow
with_number (ran n) k = return (more (k n))

-- The second letter of `ll` and `hh`.
unfoldable pub second_letter : ConversionLength → ℕ → Option ConversionLength
second_letter long c = if c == b'l' then some long_long else none
second_letter half c = if c == b'h' then some byte else none
second_letter _ c = none

-- The letter that starts a length, and whether another may follow.
unfoldable pub first_letter : ℕ → Option (ConversionLength × Bool)
first_letter c =
    if c == b'h'
    then some (half, true)
    else if c == b'l'
    then some (long, true)
    else if c == b'j'
    then some (max_length_for_int, false)
    else if c == b'z'
    then some (max_length_for_size, false)
    else if c == b't'
    then some (max_length_for_pointer, false)
    else if c == b'L'
    then some (double, false)
    else none

abbrev pub length_is_unset : ConversionLength → Bool
length_is_unset no_length = true
length_is_unset _ = false

abbrev pub specifier_is_unparsed : ConversionSpecifier → Bool
specifier_is_unparsed unparsed = true
specifier_is_unparsed _ = false

abbrev pub resume :
    {S C : Type 0} → Outcome S C → List ℕ → (S → Option (C × List ℕ)) → Option (C × List ℕ)
resume overflow cs f = none
resume (more u) cs f = f u
resume (parsed s) cs f = some (s, cs)
