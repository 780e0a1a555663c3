-- ===== src/Validator/Pattern.antt =====
-- `parseRegex` of src/processors/validator.ts: `/body/flags` is compiled with its flags, any other
-- text as it stands. The regular expression engine itself is a parameter.
use file_processing_system.Prelude.{
  ℕ, Bool, false, not, ◌&&◌, ◌||◌, [], ◌∷◌, Option, none, some, ◌==◌, every, if◌then◌else◌,
}
use file_processing_system.Prelude.Text.{Text}

-- What the language leaves to its implementation: the RegExp engine, whose `compile` is `none`
-- where `new RegExp` throws, and `Date.parse`.
pub record JsEngine (R : Type 0) : Type 0 where
  pub compile : Text → Text → Option R
  pub test : R → Text → Bool
  pub parses_as_date : Text → Bool

-- What `.` does not match.
abbrev pub is_line_terminator : ℕ → Bool
is_line_terminator c = c == 10 || c == 13 || c == 8232 || c == 8233

-- `[gimsuy]`
abbrev pub is_flag : ℕ → Bool
is_flag c = c == b'g' || c == b'i' || c == b'm' || c == b's' || c == b'u' || c == b'y'

-- The text cut at its last slash. Flags hold no slash, so the greedy `.+` ends there or nowhere.
unfoldable pub last_slash : Text → Option (Text × Text)
last_slash [] = none
last_slash (c ∷ s) = elim (last_slash s) [
  | some (body, flags) ↦ some (c ∷ body, flags)
  | none ↦ if c == b'/' then some ([], s) else none
]

unfoldable pub is_body : Text → Bool
is_body [] = false
is_body (c ∷ s) = every (λ d. not (is_line_terminator d)) (c ∷ s)

unfoldable pub accept_match : Option (Text × Text) → Option (Text × Text)
accept_match none = none
accept_match (some (body, flags)) =
    if is_body body && every is_flag flags then some (body, flags) else none

-- `pattern.match(/^\/(.+)\/([gimsuy]*)$/)`, its two groups
unfoldable pub match_literal : Text → Option (Text × Text)
unfolding last_slash accept_match
match_literal [] = none
match_literal (c ∷ s) = if c == b'/' then accept_match (last_slash s) else none

module _ {R : Type 0} (engine : JsEngine R) where
  unfoldable pub parse_regex : Text → Option R
  unfolding match_literal
  parse_regex pattern = elim (match_literal pattern) [
    | some (body, flags) ↦ engine.compile body flags
    | none ↦ engine.compile pattern []
  ]
