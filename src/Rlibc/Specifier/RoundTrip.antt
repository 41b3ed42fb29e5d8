-- ===== src/Rlibc/Specifier/RoundTrip.antt =====
-- `add_char_to_printf_specification` reads every specification of the grammar.
use ron.Base.{ℕ, ◌≡◌, refl, ◌∙◌, List, ◌++◌, some}
use ron.Rlibc.Specifier.{no_length}
use ron.Rlibc.Specifier.Printf.{unfinished, parse_printf}
use ron.Rlibc.Specifier.Text.{
  PrintfText, printf_text, printf_value, PrintfFits, flags_value, width_text, width_value,
  precision_text, precision_value, PrecisionText, absent, ending_text,
}
use ron.Rlibc.Specifier.Phases.{StartsPlain}
use ron.Rlibc.Specifier.Ending.{ending_text-StartsPlain, parse-ending_text}
use ron.Rlibc.Specifier.Precision.{parse-precision_text, parse-width_text}
use ron.Rlibc.Specifier.Flags.{parse-flags_text}

precision_text-StartsPlain :
    (p : PrecisionText) (r : List ℕ) → StartsPlain r → StartsPlain (precision_text p ++ r)
precision_text-StartsPlain absent r h = h
precision_text-StartsPlain p r h = refl

-- The text of a `printf` specification (flags in order, then a width, a precision, a length and a
-- specifier, where the numbers fit in 64 bits and a width does not start with 0), followed by any
-- text, is parsed from the first character after `%` to that specification, and leaves the text
-- that follows. A dot without digits parses as no precision.
pub parse-printf_text :
    (t : PrintfText) (r : List ℕ)
    → PrintfFits t
    → parse_printf unfinished (printf_text t r) ≡ some (printf_value t, r)
parse-printf_text t r fits =
    let ending : List ℕ = ending_text t.length t.specifier r in
    let plain : StartsPlain ending =
      ending_text-StartsPlain t.length t.specifier r fits.specified in
    let tail : List ℕ = precision_text t.precision ++ ending in
    parse-flags_text t.flags (width_text t.width ++ tail)
    ∙ (parse-width_text (flags_value t.flags) _ no_length tail
          (precision_text-StartsPlain t.precision ending plain) t.width fits.width_fits
        ∙ (parse-precision_text (flags_value t.flags) (width_value t.width) no_length ending plain
              t.precision fits.precision_fits
            ∙ parse-ending_text (flags_value t.flags) (width_value t.width)
                (precision_value t.precision) t.specifier fits.specified r t.length))
