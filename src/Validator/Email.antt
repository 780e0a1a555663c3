-- ===== src/Validator/Email.antt =====
-- `/^[^\s@]+@[^\s@]+\.[^\s@]+$/.test(value)` of src/processors/validator.ts. The expression is
-- anchored at both ends: each part of it is a test of the text that is left.
use file_processing_system.Prelude.{ℕ, Bool, false, not, ◌&&◌, ◌||◌, [], ◌∷◌, ◌==◌}
use file_processing_system.Prelude.Text.{Text, is_space}

-- `[^\s@]`
unfoldable pub is_plain : ℕ → Bool
unfolding is_space
is_plain c = not (is_space c || c == b'@')

-- `[^\s@]+$`
unfoldable pub is_word : Text → Bool
is_word [] = false
is_word (c ∷ []) = is_plain c
is_word (c ∷ d ∷ s) = is_plain c && is_word (d ∷ s)

-- `[^\s@]*` and the separator, then what `rest` tests: the separator is here, or further on
unfoldable pub scan : ℕ → (Text → Bool) → Text → Bool
scan sep rest [] = false
scan sep rest (c ∷ s) = (c == sep && rest s) || (is_plain c && scan sep rest s)

-- `[^\s@]+` and the separator, then what `rest` tests
unfoldable pub scan_some : ℕ → (Text → Bool) → Text → Bool
unfolding scan
scan_some sep rest [] = false
scan_some sep rest (c ∷ s) = is_plain c && scan sep rest s

unfoldable pub is_email : Text → Bool
unfolding scan_some is_word
is_email = scan_some b'@' (scan_some b'.' is_word)
