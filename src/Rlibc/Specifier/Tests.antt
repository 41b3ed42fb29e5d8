-- ===== src/Rlibc/Specifier/Tests.antt =====
-- Specifications parsed at concrete texts, and the theorems at concrete inputs.
use ron.Base.{◌≡◌, refl, true, false, [], ◌∷◌, none, some, arith}
use ron.Rlibc.Specifier.{
  signed_decimal_integer, string, unsigned_hex_integer_lower_case, PrintfConversionWidth,
  no_precision, long_long, half, no_length, push_digit,
}
use ron.Rlibc.Specifier.Printf.{
  unfinished, Unfinished, parse_printf, add_char_to_printf_specification,
}
use ron.Rlibc.Specifier.Scanf.{unfinished_scanf, parse_scanf}
use ron.Rlibc.Specifier.Text.{
  PrintfText, printf_text, printf_value, numeral, dot, ScanfText, scanf_text, scanf_value,
}
use ron.Rlibc.Specifier.RoundTrip.{parse-printf_text}
use ron.Rlibc.Specifier.ScanfTrip.{parse-scanf_text}
use ron.Rlibc.Specifier.Sound.{OutcomeIsSound, add_char_to_printf_specification-IsSound}

-- `-#12.5lld`.
abbrev padded : PrintfText
padded = record {
  flags = record { left = true; sign = false; blank = false; base = true; zeroes = false };
  width = numeral b'1' (b'2' ∷ []);
  precision = dot (b'5' ∷ []);
  length = long_long;
  specifier = signed_decimal_integer;
}

padded_lem :
    printf_text padded (b'!' ∷ [])
    ≡ b'-' ∷ b'#' ∷ b'1' ∷ b'2' ∷ b'.' ∷ b'5' ∷ b'l' ∷ b'l' ∷ b'd' ∷ b'!' ∷ []
padded_lem = refl

parse-printf_text_example :
    parse_printf unfinished (printf_text padded (b'!' ∷ [])) ≡ some (printf_value padded, b'!' ∷ [])
parse-printf_text_example = parse-printf_text padded (b'!' ∷ []) (record {
  width_fits = ((λ e. omega arith), (refl, (refl, tt)), omega arith);
  precision_fits = ((refl, tt), omega arith);
  specified = λ e. cc;
})

-- A lone dot: the precision is as if none was given.
lone_dot :
    parse_printf unfinished (b'.' ∷ b's' ∷ [])
    ≡ some (
      record {
        flags = 0;
        width = PrintfConversionWidth.no_width;
        precision = no_precision;
        length = no_length;
        specifier = string;
      },
      [],
    )
unfolding parse_printf add_char_to_printf_specification
lone_dot = refl

-- A width beyond 64 bits.
overflowing :
    parse_printf
      (record unfinished {
        conversion = record unfinished.conversion {
          width = PrintfConversionWidth.number 1_844_674_407_370_955_161;
        };
        parsing_width = true;
      })
      (b'6' ∷ b'd' ∷ [])
    ≡ none
unfolding parse_printf add_char_to_printf_specification push_digit
overflowing = refl

-- `*7hx`.
abbrev suppressed : ScanfText
suppressed = record {
  suppressed = true;
  digits = b'7' ∷ [];
  length = half;
  specifier = unsigned_hex_integer_lower_case;
}

parse-scanf_text_example :
    parse_scanf unfinished_scanf (scanf_text suppressed []) ≡ some (scanf_value suppressed, [])
parse-scanf_text_example =
    parse-scanf_text suppressed []
      (record { all_digits = (refl, tt); width_fits = omega arith; specified = λ e. cc })

abbrev after_one : Unfinished
after_one = record unfinished {
  conversion = record unfinished.conversion { width = PrintfConversionWidth.number 1 };
  parsing_width = true;
}

add_char_to_printf_specification-IsSound_example :
    OutcomeIsSound (add_char_to_printf_specification after_one b'2')
add_char_to_printf_specification-IsSound_example =
    add_char_to_printf_specification-IsSound after_one b'2'
      (record { width_under_way = tt; length_under_way = tt })
