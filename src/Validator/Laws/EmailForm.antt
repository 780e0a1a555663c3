-- ===== src/Validator/Laws/EmailForm.antt =====
-- The email test against the language of its regular expression.
use file_processing_system.Prelude.{
  ℕ, ◌≡◌, ◌≢◌, refl, ap, ◌∙◌, cons-ne-nil, ◌↔◌, Bool, true, [], ◌∷◌, ◌++◌, All, arith, inl, inr,
  Bool-cases, ◌&&◌, ◌==◌,
}
use file_processing_system.Prelude.Text.{Text}
use file_processing_system.Validator.Email.{is_plain, is_word, scan, scan_some, is_email}

-- One code unit or more, none of them white space or `@`.
abbrev pub IsWord : Text → Type 0
IsWord s = (s ≢ []) × All (λ c. is_plain c ≡ true) s

is_word_iff : (s : Text) → (is_word s ≡ true) ↔ IsWord s
unfolding is_word
is_word_iff [] = ground arith
is_word_iff (c ∷ []) = ground arith
is_word_iff (c ∷ d ∷ s) = ground (arith, is_word_iff (d ∷ s))

module _ (sep : ℕ) (rest : Text → Bool) where
  -- A cut at the separator, with plain code units before it.
  abbrev Cut : Text → Type 0
  Cut s =
      (before after : Text) × (s ≡ before ++ sep ∷ after)
      × All (λ c. is_plain c ≡ true) before
      × (rest after ≡ true)

  scan_sound : (s : Text) → scan sep rest s ≡ true → Cut s
  unfolding scan
  scan_sound [] h = cc
  scan_sound (c ∷ s) h = elim (Bool-cases (c == sep && rest s)) [
    | inl here ↦ ([], s, ground arith, tt, ground arith)
    | inr later ↦
        let (before, after, e, plain, k) = scan_sound s (ground arith) in
        (c ∷ before, after, ap (λ t. c ∷ t) e, (ground arith, plain), k)
  ]

  scan_complete :
      (before after : Text)
      → All (λ c. is_plain c ≡ true) before
      → rest after ≡ true
      → scan sep rest (before ++ sep ∷ after) ≡ true
  unfolding scan
  scan_complete [] after plain k = ground arith
  scan_complete (c ∷ before) after (p, plain) k = ground (arith, scan_complete before after plain k)

  scan_some_sound :
      (s : Text)
      → scan_some sep rest s ≡ true
      → (before after : Text) × (s ≡ before ++ sep ∷ after) × IsWord before × (rest after ≡ true)
  unfolding scan_some
  scan_some_sound [] h = cc
  scan_some_sound (c ∷ s) h =
      let (before, after, e, plain, k) = scan_sound s (ground arith) in
      (c ∷ before, after, ap (λ t. c ∷ t) e, (cons-ne-nil c before, (ground arith, plain)), k)

  scan_some_complete :
      (before after : Text)
      → IsWord before
      → rest after ≡ true
      → scan_some sep rest (before ++ sep ∷ after) ≡ true
  unfolding scan_some
  scan_some_complete [] after (nonempty, plain) k = absurd (nonempty refl)
  scan_some_complete (c ∷ before) after (nonempty, (p, plain)) k =
      ground (arith, scan_complete before after plain k)

-- The text is `local@name.top`, its three parts words.
abbrev pub IsEmail : Text → Type 0
IsEmail s =
    (local name top : Text) × (s ≡ local ++ b'@' ∷ (name ++ b'.' ∷ top))
    × IsWord local
    × IsWord name
    × IsWord top

is_email_sound : (s : Text) → is_email s ≡ true → IsEmail s
unfolding is_email
is_email_sound s h =
    let (local, domain, e, l, k) = scan_some_sound b'@' (scan_some b'.' is_word) s h in
    let (name, top, e', n, t) = scan_some_sound b'.' is_word domain k in
    (local, name, top, e ∙ ap (λ t. local ++ b'@' ∷ t) e', l, n, (is_word_iff top).0 t)

is_email_complete : (s : Text) → IsEmail s → is_email s ≡ true
unfolding is_email
is_email_complete s (local, name, top, e, l, n, t) = rw e (
    scan_some_complete b'@' (scan_some b'.' is_word) local (name ++ b'.' ∷ top) l
      (scan_some_complete b'.' is_word name top n ((is_word_iff top).1 t)))

-- A text is accepted as an email exactly when it is `local@name.top` with three parts that are not
-- empty and hold neither white space nor `@`.
pub is_email_iff : (s : Text) → (is_email s ≡ true) ↔ IsEmail s
is_email_iff s = (is_email_sound s, is_email_complete s)
