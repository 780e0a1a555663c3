-- ===== src/Validator/Laws/PatternForm.antt =====
-- The split of `/body/flags` against the language of its regular expression.
use file_processing_system.Prelude.{
  ℕ, ◌≡◌, refl, ap, ◌↔◌, true, [], ◌∷◌, ◌++◌, Option, none, some, every, arith, inl, inr, ◌&&◌,
  ◌==◌, Bool-cases,
}
use file_processing_system.Prelude.Text.{Text}
use file_processing_system.Validator.Pattern.{
  is_flag, is_body, last_slash, accept_match, match_literal,
}

-- The text after the slash holds no further slash.
abbrev Cut : Text → Option (Text × Text) → Type 0
Cut s none = Unit
Cut s (some (body, flags)) = s ≡ body ++ b'/' ∷ flags

Cut-cons :
    (c : ℕ) (s : Text) (o : Option (Text × Text))
    → last_slash s ≡ o
    → Cut s o
    → Cut (c ∷ s) (last_slash (c ∷ s))
unfolding last_slash
Cut-cons c s (some (body, flags)) e h = rw e (ap (λ t. c ∷ t) h)
Cut-cons c s none e h = elim (Bool-cases (c == b'/')) [
  | inl slash ↦ rw (e, slash) (ap (λ t. t ∷ s) (ground arith))
  | inr other ↦ rw (e, other) tt
]

last_slash-Cut : (s : Text) → Cut s (last_slash s)
unfolding last_slash
last_slash-Cut [] = tt
last_slash-Cut (c ∷ s) = Cut-cons c s (last_slash s) refl (last_slash-Cut s)

last_slash-flags : (flags : Text) → every is_flag flags ≡ true → last_slash flags ≡ none
unfolding last_slash
last_slash-flags [] h = refl
last_slash-flags (c ∷ flags) h = ground (arith, last_slash-flags flags)

last_slash-append :
    (body flags : Text)
    → last_slash flags ≡ none
    → last_slash (body ++ b'/' ∷ flags) ≡ some (body, flags)
unfolding last_slash
last_slash-append [] flags h = rw h refl
last_slash-append (c ∷ body) flags h = rw (last_slash-append body flags h) refl

accept_match_sound :
    (o : Option (Text × Text)) (body flags : Text)
    → accept_match o ≡ some (body, flags)
    → (o ≡ some (body, flags)) × (is_body body ≡ true) × (every is_flag flags ≡ true)
unfolding accept_match
accept_match_sound none body flags h = cc
accept_match_sound (some (b, f)) body flags h = elim (Bool-cases (is_body b && every is_flag f)) [
  | inl fits ↦ (ground arith, ground arith, ground arith)
  | inr other ↦ absurd (ground arith)
]

match_literal_complete :
    (body flags : Text)
    → is_body body ≡ true
    → every is_flag flags ≡ true
    → match_literal (b'/' ∷ (body ++ b'/' ∷ flags)) ≡ some (body, flags)
unfolding match_literal accept_match
match_literal_complete body flags b f =
    rw (last_slash-append body flags (last_slash-flags flags f), b, f) refl

cut_at :
    (s : Text) {body flags : Text} → last_slash s ≡ some (body, flags) → s ≡ body ++ b'/' ∷ flags
cut_at s e = rw e at (last_slash-Cut s)

match_literal_sound :
    (pattern body flags : Text)
    → match_literal pattern ≡ some (body, flags)
    → (pattern ≡ b'/' ∷ (body ++ b'/' ∷ flags))
      × (is_body body ≡ true)
      × (every is_flag flags ≡ true)
unfolding match_literal
match_literal_sound [] body flags h = cc
match_literal_sound (c ∷ s) body flags h = elim (Bool-cases (c == b'/')) [
  | inl slash ↦
      let (e, b, f) = accept_match_sound (last_slash s) body flags (ground arith) in
      (ground (arith, cut_at s e), b, f)
  | inr other ↦ absurd (ground arith)
]

-- The groups that `/^\/(.+)\/([gimsuy]*)$/` captures are the body and the flags of a text
-- `/body/flags` whose body is not empty and holds no line terminator and whose flags are all known;
-- any other text does not match.
pub match_literal_iff :
    (pattern body flags : Text)
    → (match_literal pattern ≡ some (body, flags)) ↔ (
        (pattern ≡ b'/' ∷ (body ++ b'/' ∷ flags))
        × (is_body body ≡ true)
        × (every is_flag flags ≡ true))
match_literal_iff pattern body flags = (
  match_literal_sound pattern body flags,
  λ h. rw h.0 (match_literal_complete body flags h.1 h.2),
)
