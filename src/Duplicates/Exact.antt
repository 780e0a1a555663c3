-- ===== src/Duplicates/Exact.antt =====
-- When the hash detector tells rows apart exactly, and when it confuses different rows.
use file_processing_system.Prelude.{
  ◌≡◌, ◌≢◌, ap, sym, ◌∙◌, ◌↔◌, ◌⊎◌, inl, inr, true, List, [], ◌∷◌, ◌++◌, All, Any, arith,
}
use mathlib.Core.List.{append_assoc}
use file_processing_system.Prelude.Text.{Text, join}
use file_processing_system.Types.{Row}
use file_processing_system.Duplicates.Keys.{IsFree, joined_injective}
use file_processing_system.Duplicates.Laws.{
  member-insert, add_all, HasNoFalseNegatives, is_duplicate-add_all,
}
use file_processing_system.Duplicates.{
  Hashing, DuplicateDetector, hash_detector, bloom_detector, member, values, joined, hash_row,
  insert, add, is_duplicate,
}

-- The row has values, and none of them holds a `|`.
abbrev pub IsPlain : Row → Type 0
IsPlain row = (row ≢ []) × All (IsFree b'|') (values row)

module _ {F : Type 0} (h : Hashing F) where
  -- SHA-256 tells the two rows apart if their joined values differ.
  abbrev pub HasNoCollision : Row → Row → Type 0
  HasNoCollision row other = hash_row h row ≡ hash_row h other → joined row ≡ joined other

  hash_row-values :
      (row other : Row) → values row ≡ values other → hash_row h row ≡ hash_row h other
  unfolding hash_row
  hash_row-values row other e = ap (λ vs. h.sha256 (join b'|' vs)) e

  hash_row_iff :
      (row other : Row)
      → IsPlain row
      → IsPlain other
      → HasNoCollision row other
      → (hash_row h row ≡ hash_row h other) ↔ (values other ≡ values row)
  hash_row_iff row other (ne, free) (ne', free') apart = (
    λ e. sym (joined_injective row other ne ne' free free' (apart e)),
    λ e. hash_row-values row other (sym e),
  )

  is_duplicate-hash :
      (row : Row) (rows : List Row) (seen : List Text)
      → (is_duplicate h row (add_all h rows (hash_detector seen)) ≡ true)
        ↔ ((member (hash_row h row) seen ≡ true) ⊎ Any (λ s. hash_row h row ≡ hash_row h s) rows)
  unfolding is_duplicate add
  is_duplicate-hash row [] seen = ground arith
  is_duplicate-hash row (s ∷ rows) seen = ground (
    arith,
    member-insert (hash_row h row) (hash_row h s) seen,
    is_duplicate-hash row rows (insert (hash_row h s) seen),
  )

  without_empty : (row : Row) {P : Type 0} → ((member (hash_row h row) [] ≡ true) ⊎ P) → P
  unfolding member
  without_empty row (inl e) = absurd (ground arith)
  without_empty row (inr p) = p

  Any-hash :
      (row : Row) (rows : List Row)
      → IsPlain row
      → All (λ s. IsPlain s × HasNoCollision row s) rows
      → Any (λ s. hash_row h row ≡ hash_row h s) rows ↔ Any (λ s. values s ≡ values row) rows
  Any-hash row [] plain k = ground arith
  Any-hash row (s ∷ rows) plain ((p, apart), k) =
      let here = hash_row_iff row s plain p apart in
      let there = Any-hash row rows plain k in
      (
        elim [ inl e ↦ inl (here.0 e) | inr e ↦ inr (there.0 e) ],
        elim [ inl e ↦ inl (here.1 e) | inr e ↦ inr (there.1 e) ],
      )

  -- Starting empty, the hash detector finds a row among the rows added exactly when one of them has
  -- the same values, provided that no value holds a `|`, every row has a value, and SHA-256 has no
  -- collision with the row.
  pub hash_detector_exact :
      (row : Row) (rows : List Row)
      → IsPlain row
      → All (λ s. IsPlain s × HasNoCollision row s) rows
      → (is_duplicate h row (add_all h rows (hash_detector [])) ≡ true)
        ↔ Any (λ s. values s ≡ values row) rows
  hash_detector_exact row rows plain k =
      let found = is_duplicate-hash row rows [] in
      let same = Any-hash row rows plain k in
      (λ e. same.0 (without_empty row (found.0 e)), λ a. found.1 (inr (same.1 a)))

is_duplicate-joined :
    {F : Type 0} (h : Hashing F) (row other : Row) (d : DuplicateDetector F)
    → joined row ≡ joined other
    → is_duplicate h other d ≡ true
    → is_duplicate h row d ≡ true
unfolding is_duplicate
is_duplicate-joined h row other (hash_detector seen) e k = ap (λ t. member (h.sha256 t) seen) e ∙ k
is_duplicate-joined h row other (bloom_detector f) e k =
    ap (λ t. h.filters.has f (h.sha256 t)) e ∙ k

-- The row with the two columns and values.
abbrev pub two_columns : Text → Text → Text → Text → Row
two_columns x y a b = (x, a) ∷ (y, b) ∷ []

joined_collision :
    (x y a b c : Text)
    → joined (two_columns x y (a ++ b'|' ∷ b) c) ≡ joined (two_columns x y a (b ++ b'|' ∷ c))
unfolding joined
joined_collision x y a b c = append_assoc a (b'|' ∷ b) (b'|' ∷ c)

-- Two rows that differ by where a `|` stands are taken for one: whichever the detector, once
-- `a, b|c` has been added, `a|b, c` is a duplicate.
pub is_duplicate_collision :
    {F : Type 0} (h : Hashing F) (laws : HasNoFalseNegatives h.filters) (d : DuplicateDetector F)
    (x y a b c : Text)
    → is_duplicate h
        (two_columns x y (a ++ b'|' ∷ b) c)
        (add h (two_columns x y a (b ++ b'|' ∷ c)) d)
      ≡ true
is_duplicate_collision h laws d x y a b c =
    is_duplicate-joined h _ _ _ (joined_collision x y a b c)
      (is_duplicate-add_all h laws (two_columns x y a (b ++ b'|' ∷ c)) [] d)
