-- ===== src/Duplicates/Laws.antt =====
-- What the two detectors promise of the rows that were added to them.
use file_processing_system.Prelude.{
  ◌≡◌, refl, ◌↔◌, ◌⊎◌, inl, inr, true, List, [], ◌∷◌, arith, Bool-cases,
}
use file_processing_system.Prelude.Text.{Text, text_eq_iff}
use file_processing_system.Types.{Row}
use file_processing_system.Duplicates.{
  BloomFilters, Hashing, DuplicateDetector, hash_detector, bloom_detector, member, insert, hash_row,
  add, is_duplicate,
}

-- The documented promise of a Bloom filter: what was added is found, and stays found.
pub record HasNoFalseNegatives {F : Type 0} (filters : BloomFilters F) : Type 0 where
  pub has-add_self : (s : Text) (f : F) → filters.has (filters.add s f) s ≡ true
  pub has-add :
      (s t : Text) (f : F) → filters.has f t ≡ true → filters.has (filters.add s f) t ≡ true

pub member-cons :
    (s t : Text) (set : List Text) → (member s (t ∷ set) ≡ true) ↔ ((s ≡ t) ⊎ (member s set ≡ true))
unfolding member
member-cons s t set = ground (arith, text_eq_iff s t)

pub member_of_eq :
    (s t : Text) (set : List Text) → s ≡ t → member t set ≡ true → member s set ≡ true
member_of_eq s t set e h = rw e h

pub member-insert :
    (s t : Text) (set : List Text)
    → (member s (insert t set) ≡ true) ↔ ((s ≡ t) ⊎ (member s set ≡ true))
unfolding insert
member-insert s t set = elim (Bool-cases (member t set)) [
  | inl old ↦ rw old (inr, λ d. ground (arith, member_of_eq s t set))
  | inr new ↦ rw new (member-cons s t set)
]

module _ {F : Type 0} (h : Hashing F) where
  -- `add` for each row, in order
  abbrev pub add_all : List Row → DuplicateDetector F → DuplicateDetector F
  add_all [] d = d
  add_all (row ∷ rows) d = add_all rows (add h row d)

  -- Whichever the detector, a row is a duplicate once it has been added, and stays one.
  module _ (laws : HasNoFalseNegatives h.filters) where
    add_self : (row : Row) (d : DuplicateDetector F) → is_duplicate h row (add h row d) ≡ true
    unfolding is_duplicate add
    add_self row (hash_detector seen) =
        (member-insert (hash_row h row) (hash_row h row) seen).1 (inl refl)
    add_self row (bloom_detector f) = laws.has-add_self (hash_row h row) f

    add-keeps :
        (row other : Row) (d : DuplicateDetector F)
        → is_duplicate h row d ≡ true
        → is_duplicate h row (add h other d) ≡ true
    unfolding is_duplicate add
    add-keeps row other (hash_detector seen) e =
        (member-insert (hash_row h row) (hash_row h other) seen).1 (inr e)
    add-keeps row other (bloom_detector f) e = laws.has-add (hash_row h other) (hash_row h row) f e

    add_all-keeps :
        (row : Row) (rows : List Row) (d : DuplicateDetector F)
        → is_duplicate h row d ≡ true
        → is_duplicate h row (add_all rows d) ≡ true
    add_all-keeps row [] d e = e
    add_all-keeps row (other ∷ rows) d e =
        add_all-keeps row rows (add h other d) (add-keeps row other d e)

    -- Neither detector forgets: after any further rows, a row that was added is a duplicate.
    pub is_duplicate-add_all :
        (row : Row) (rows : List Row) (d : DuplicateDetector F)
        → is_duplicate h row (add_all rows (add h row d)) ≡ true
    is_duplicate-add_all row rows d = add_all-keeps row rows (add h row d) (add_self row d)
