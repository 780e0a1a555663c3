-- ===== src/Csv/Json.antt =====
-- `JSON.stringify` of a record of texts, as the language defines it: the two-letter escapes, `\u`
-- with four hexadecimal digits for other control characters and for surrogates that stand alone.
use file_processing_system.Prelude.{
  ℕ, ◌+◌, ◌/◌, ◌%◌, Bool, ◌&&◌, ◌||◌, [], ◌∷◌, ◌++◌, map, ◌==◌, leb, ltb, if◌then◌else◌,
}
use file_processing_system.Prelude.Text.{Text, codes, join}
use file_processing_system.Types.{Row}

abbrev hex_digit : ℕ → ℕ
hex_digit n = if ltb n 10 then b'0' + n else 87 + n

escape_code : ℕ → Text
escape_code c =
    b'\\'
    ∷ b'u'
    ∷ hex_digit (c / 4096)
    ∷ hex_digit (c / 256 % 16)
    ∷ hex_digit (c / 16 % 16)
    ∷ hex_digit (c % 16)
    ∷ []

is_lead : ℕ → Bool
is_lead c = leb 0xd800 c && leb c 0xdbff

is_trail : ℕ → Bool
is_trail c = leb 0xdc00 c && leb c 0xdfff

-- A code unit that is no half of a surrogate pair.
escape_unit : ℕ → Text
unfolding escape_code is_lead is_trail
escape_unit c =
    if c == 34
    then codes "\\\""
    else if c == 92
    then codes "\\\\"
    else if c == 8
    then codes "\\b"
    else if c == 12
    then codes "\\f"
    else if c == 10
    then codes "\\n"
    else if c == 13
    then codes "\\r"
    else if c == 9
    then codes "\\t"
    else if ltb c 32 || is_lead c || is_trail c
    then escape_code c
    else c ∷ []

escape : Text → Text
unfolding escape_unit
escape [] = []
escape (c ∷ []) = escape_unit c
escape (c ∷ d ∷ s) =
    let pair = c ∷ d ∷ escape s in
    let single = escape_unit c ++ escape (d ∷ s) in if is_lead c && is_trail d then pair else single

quote : Text → Text
unfolding escape
quote s = 34 ∷ (escape s ++ 34 ∷ [])

abbrev entry_text : Text × Text → Text
entry_text (key, value) = quote key ++ b':' ∷ quote value

unfoldable pub stringify : Row → Text
unfolding quote join
stringify row = b'{' ∷ (join b',' (map entry_text row) ++ b'}' ∷ [])
