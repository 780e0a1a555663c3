-- ===== src/Duplicates/Keys.antt =====
-- The text that stands for a row: its values joined by `|`. It tells rows apart as long as no value
-- holds a `|` itself.
use file_processing_system.Prelude.{
  ℕ, ◌≡◌, ◌≢◌, refl, sym, ap, ◌∙◌, List, [], ◌∷◌, ◌++◌, All, arith, ◌==◌, cons-ne-nil,
  if◌then◌else◌,
}
use file_processing_system.Prelude.Text.{Text, join}
use file_processing_system.Types.{Row}
use file_processing_system.Duplicates.{values, joined}

-- No code unit of the text is the separator.
abbrev pub IsFree : ℕ → Text → Type 0
IsFree sep s = All (λ c. c ≢ sep) s

cons_head : ℕ → List Text → List Text
cons_head c [] = (c ∷ []) ∷ []
cons_head c (s ∷ rest) = (c ∷ s) ∷ rest

-- The inverse of `join`.
split : ℕ → Text → List Text
unfolding cons_head
split sep [] = [] ∷ []
split sep (c ∷ s) = let rest = split sep s in if c == sep then [] ∷ rest else cons_head c rest

split-free : (sep : ℕ) (s : Text) → IsFree sep s → split sep s ≡ s ∷ []
unfolding split
split-free sep [] h = refl
split-free sep (c ∷ s) (ne, h) = ground (arith, split-free sep s h)

split-append : (sep : ℕ) (s t : Text) → IsFree sep s → split sep (s ++ sep ∷ t) ≡ s ∷ split sep t
unfolding split
split-append sep [] t h = ground arith
split-append sep (c ∷ s) t (ne, h) = ground (arith, split-append sep s t h)

split-join :
    (sep : ℕ) (parts : List Text)
    → parts ≢ []
    → All (IsFree sep) parts
    → split sep (join sep parts) ≡ parts
unfolding join
split-join sep [] ne h = absurd (ne refl)
split-join sep (s ∷ []) ne (free, h) = split-free sep s free
split-join sep (s ∷ t ∷ rest) ne (free, h) =
    split-append sep s (join sep (t ∷ rest)) free
    ∙ ap (λ l. s ∷ l) (split-join sep (t ∷ rest) (cons-ne-nil t rest) h)

-- Rows with values, none of which holds a `|`, have the same text only if their values are equal.
pub joined_injective :
    (row other : Row)
    → row ≢ []
    → other ≢ []
    → All (IsFree b'|') (values row)
    → All (IsFree b'|') (values other)
    → joined row ≡ joined other
    → values row ≡ values other
unfolding joined
joined_injective [] other ne _ _ _ _ = absurd (ne refl)
joined_injective (e ∷ row) [] _ ne _ _ _ = absurd (ne refl)
joined_injective (e ∷ row) (f ∷ other) _ _ h k same =
    sym (split-join b'|' (values (e ∷ row)) (cons-ne-nil _ _) h)
    ∙ ap (split b'|') same
    ∙ split-join b'|' (values (f ∷ other)) (cons-ne-nil _ _) k
