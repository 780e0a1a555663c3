-- ===== src/Csv/Moving.antt =====
-- src/processors/csv.processor.ts: two states of the listeners, of which the second has moved some
-- rows from valid to duplicate.
use file_processing_system.Prelude.{
  ◌+◌, ◌≤◌, ◌≡◌, inl, inr, true, List, ◌∷◌, Option, none, some, arith, Bool-cases,
}
use mathlib.Core.Path.{ap₂}
use file_processing_system.Prelude.Text.{Text}
use file_processing_system.Types.{Row}
use file_processing_system.Validator.{ValidationResult, valid, invalid, type_error}
use file_processing_system.Duplicates.{
  Hashing, hash_detector, bloom_detector, member, hash_row, add, is_duplicate,
}
use file_processing_system.Duplicates.Laws.{HasNoFalseNegatives, member-cons}
use file_processing_system.Csv.Exact.{push_sample}
use file_processing_system.Csv.{
  CsvState, next_row, error_detail, count_invalid, count_valid, after_validation,
}

module _ {F : Type 0} (h : Hashing F) where
  -- `s` counts with the set `seen`, and `t` with the filter `filter`.
  pub record IsCovered (s t : CsvState F) (seen : List Text) (filter : F) : Type 0 where
    pub validator : s.validator ≡ t.validator
    pub initialized : s.headers_initialized ≡ t.headers_initialized
    pub total : s.total_rows ≡ t.total_rows
    pub refusals : s.invalid_rows ≡ t.invalid_rows
    pub samples : s.error_details ≡ t.error_details
    pub exact : s.detector ≡ hash_detector seen
    pub approximate : t.detector ≡ bloom_detector filter
    pub fewer : t.valid_rows ≤ s.valid_rows

  -- The filter has every element of the set.
  abbrev pub Covers : F → List Text → Type 0
  Covers filter seen = (k : Text) → member k seen ≡ true → h.filters.has filter k ≡ true

  abbrev pub Covered : CsvState F → CsvState F → Type 0
  Covered s t = (seen : List Text) × (filter : F) × IsCovered s t seen filter × Covers filter seen

  Covers-cons :
      (laws : HasNoFalseNegatives h.filters) (key : Text) (seen : List Text) (filter : F)
      → Covers filter seen
      → Covers (h.filters.add key filter) (key ∷ seen)
  Covers-cons laws key seen filter c k m = elim ((member-cons k key seen).0 m) [
    | inl e ↦ rw e (laws.has-add_self key filter)
    | inr old ↦ laws.has-add key k filter (c k old)
  ]

  Covers-cons_old :
      (key : Text) (seen : List Text) (filter : F)
      → h.filters.has filter key ≡ true
      → Covers filter seen
      → Covers filter (key ∷ seen)
  Covers-cons_old key seen filter found c k m = elim ((member-cons k key seen).0 m) [
    | inl e ↦ rw e found
    | inr old ↦ c k old
  ]

  count_valid-Covered :
      (laws : HasNoFalseNegatives h.filters) (row : Row) (s t : CsvState F)
      → Covered s t
      → Covered (count_valid h row (next_row s)) (count_valid h row (next_row t))
  unfolding count_valid is_duplicate add
  count_valid-Covered laws row s t (seen, filter, c, covers) =
      let key = hash_row h row in
      elim (Bool-cases (member key seen)) [
        | inl old ↦ let found = covers key old in (seen, filter, ground arith, covers)
        | inr new ↦ elim (Bool-cases (h.filters.has filter key)) [
          | inl found ↦
              (key ∷ seen, filter, ground arith, Covers-cons_old key seen filter found covers)
          | inr missed ↦ (
            key ∷ seen,
            h.filters.add key filter,
            ground arith,
            Covers-cons laws key seen filter covers,
          )
        ]
      ]

  count_invalid-Covered :
      (row : Row) (reason : Text) (s t : CsvState F)
      → Covered s t
      → Covered (count_invalid row reason (next_row s)) (count_invalid row reason (next_row t))
  unfolding count_invalid push_sample
  count_invalid-Covered row reason s t (seen, filter, c, covers) = (
    seen,
    filter,
    record {
      validator = c.validator;
      initialized = c.initialized;
      total = omega (arith, c.total);
      refusals = omega (arith, c.refusals);
      samples = ap₂ (λ es n. push_sample es (error_detail (n + 1) row reason)) c.samples c.total;
      exact = c.exact;
      approximate = c.approximate;
      fewer = c.fewer;
    },
    covers,
  )

  -- Both listeners throw, or both leave such states.
  abbrev pub CoveredAfter : Option (CsvState F) → Option (CsvState F) → Type 0
  CoveredAfter none none = Unit
  CoveredAfter none (some t) = ⊥
  CoveredAfter (some s) none = ⊥
  CoveredAfter (some s) (some t) = Covered s t

  pub after_validation-Covered :
      (laws : HasNoFalseNegatives h.filters) (v : ValidationResult) (row : Row) (s t : CsvState F)
      → Covered s t
      → CoveredAfter (after_validation h v row (next_row s)) (after_validation h v row (next_row t))
  unfolding after_validation
  after_validation-Covered laws valid row s t c = count_valid-Covered laws row s t c
  after_validation-Covered laws (invalid reason) row s t c = count_invalid-Covered row reason s t c
  after_validation-Covered laws type_error row s t c = tt
