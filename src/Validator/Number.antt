-- ===== src/Validator/Number.antt =====
-- `!isNaN(Number(value))`, the test of src/processors/validator.ts for a number field: the grammar
-- StringNumericLiteral of the language, over the trimmed text.
use file_processing_system.Prelude.{
  ℕ, Bool, true, false, ◌&&◌, ◌||◌, [], ◌∷◌, leb, ◌==◌, if◌then◌else◌, every,
}
use file_processing_system.Prelude.Text.{Text, codes, text_eq, trim}

is_digit : ℕ → Bool
is_digit c = leb b'0' c && leb c b'9'

is_hex_digit : ℕ → Bool
unfolding is_digit
is_hex_digit c = is_digit c || (leb b'a' c && leb c b'f') || (leb b'A' c && leb c b'F')

skip_digits : Text → Text
unfolding is_digit
skip_digits [] = []
skip_digits (c ∷ s) = if is_digit c then skip_digits s else c ∷ s

starts_with_digit : Text → Bool
unfolding is_digit
starts_with_digit [] = false
starts_with_digit (c ∷ _) = is_digit c

-- one digit or more, up to the end
all_digits : Text → Bool
unfolding starts_with_digit skip_digits
all_digits s = starts_with_digit s && text_eq (skip_digits s) []

is_sign : ℕ → Bool
is_sign c = c == b'+' || c == b'-'

skip_sign : Text → Text
unfolding is_sign
skip_sign [] = []
skip_sign (c ∷ s) = if is_sign c then s else c ∷ s

-- nothing, or `e` or `E` with a signed integer
is_exponent : Text → Bool
unfolding skip_sign all_digits
is_exponent [] = true
is_exponent (c ∷ s) = (c == b'e' || c == b'E') && all_digits (skip_sign s)

-- what follows the integer digits; `whole` tells whether there were any
is_fraction : Bool → Text → Bool
unfolding is_exponent skip_digits starts_with_digit
is_fraction whole [] = whole
is_fraction whole (c ∷ s) =
    if c == b'.'
    then (whole || starts_with_digit s) && is_exponent (skip_digits s)
    else whole && is_exponent (c ∷ s)

is_decimal : Text → Bool
unfolding skip_sign is_fraction
is_decimal s =
    let u = skip_sign s in
    text_eq u (codes "Infinity") || is_fraction (starts_with_digit u) (skip_digits u)

nonempty : Text → Bool
nonempty [] = false
nonempty (_ ∷ _) = true

-- `0x`, `0o` and `0b` with digits of the base; the second argument follows the `0`
is_radix : Text → Bool
unfolding is_hex_digit nonempty
is_radix [] = false
is_radix (c ∷ s) =
    nonempty s
    && (((c == b'x' || c == b'X') && every is_hex_digit s)
        || ((c == b'o' || c == b'O') && every (λ d. leb b'0' d && leb d b'7') s)
        || ((c == b'b' || c == b'B') && every (λ d. d == b'0' || d == b'1') s))

is_zero_radix : Text → Bool
unfolding is_radix
is_zero_radix [] = false
is_zero_radix (c ∷ s) = c == b'0' && is_radix s

-- The empty text converts to 0, which is a number.
unfoldable pub is_number : Text → Bool
unfolding is_zero_radix is_decimal trim
is_number value = let t = trim value in text_eq t [] || is_zero_radix t || is_decimal t
