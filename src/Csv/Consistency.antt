-- ===== src/Csv/Consistency.antt =====
-- What holds of every report, whatever the streams emit and whatever the detector.
use file_processing_system.Prelude.{
  ℕ, ◌+◌, ◌≤◌, ◌<◌, min, ◌≡◌, ◌≢◌, refl, List, [], ◌∷◌, ◌++◌, Option, none, some, All, All-append,
  arith, length, length-append, length-take, ltb, cons-ne-nil, Bool-cases, inl, inr, if-elim,
}
use file_processing_system.Prelude.Text.{Text}
use file_processing_system.Types.{ErrorDetail, ProcessingReport, Row, ValidationRules}
use file_processing_system.Validator.{ValidationResult, valid, invalid, type_error, validate_row}
use file_processing_system.Validator.Pattern.{JsEngine}
use file_processing_system.Duplicates.{Hashing, DuplicateDetector}
use file_processing_system.Csv.Json.{stringify}
use file_processing_system.Csv.{
  JsNumber, max_error_samples, sample_limit, CsvState, CsvEvent, headers, row_read, ended,
  csv_error, stream_error, Outcome, pending, resolved, rejected, process_died, Run, start,
  or_unknown, error_detail, next_row, count_invalid, count_valid, settle, has_died,
  after_validation, on_data, after_data, listen, step, run, process_csv,
}

-- The rows are numbered in ascending order, from above `low`.
abbrev pub IsAscending : ℕ → List ErrorDetail → Type 0
IsAscending low [] = Unit
IsAscending low (e ∷ es) = (low < e.row) × IsAscending e.row es

abbrev pub IsSample : ℕ → ErrorDetail → Type 0
IsSample total e = (e.row ≤ total) × (length e.sample ≤ sample_limit) × (e.reason ≢ [])

-- The numbers of a state or a report, and its samples.
pub record IsTally (total accepted refused repeated : ℕ) (samples : List ErrorDetail) : Type 0 where
  pub counted : total ≡ accepted + refused + repeated
  pub sampled : length samples ≡ min max_error_samples refused
  pub ascending : IsAscending 0 samples
  pub bounded : All (IsSample total) samples

IsAscending-append :
    (low total : ℕ) (es : List ErrorDetail) (e : ErrorDetail)
    → IsAscending low es
    → All (IsSample total) es
    → low ≤ total
    → e.row ≡ total + 1
    → IsAscending low (es ++ e ∷ [])
IsAscending-append low total [] e _ _ le eq = (omega arith, tt)
IsAscending-append low total (x ∷ es) e (lt, asc) ((p, _, _), all) le eq =
    (lt, IsAscending-append x.row total es e asc all p eq)

All-IsSample-suc :
    (total : ℕ) (es : List ErrorDetail) → All (IsSample total) es → All (IsSample (total + 1)) es
All-IsSample-suc total [] h = tt
All-IsSample-suc total (e ∷ es) ((p, q, r), h) = ((omega arith, q, r), All-IsSample-suc total es h)

or_unknown-ne-nil : (reason : Text) → or_unknown reason ≢ []
unfolding or_unknown
or_unknown-ne-nil [] = cons-ne-nil _ _
or_unknown-ne-nil (c ∷ s) = cons-ne-nil c s

error_detail-IsSample : (n : ℕ) (row : Row) (reason : Text) → IsSample n (error_detail n row reason)
unfolding error_detail
error_detail-IsSample n row reason =
    (omega arith, omega (arith, length-take sample_limit (stringify row)), or_unknown-ne-nil reason)

error_detail-row : (n : ℕ) (row : Row) (reason : Text) → (error_detail n row reason).row ≡ n
unfolding error_detail
error_detail-row n row reason = refl

module _ {F : Type 0} where
  abbrev IsConsistent : CsvState F → Type 0
  IsConsistent s = IsTally s.total_rows s.valid_rows s.invalid_rows s.duplicate_rows s.error_details

  count_valid-IsConsistent :
      (h : Hashing F) (row : Row) (s : CsvState F)
      → IsConsistent s
      → IsConsistent (count_valid h row (next_row s))
  unfolding count_valid
  count_valid-IsConsistent h row s c =
      ground (arith, All-IsSample-suc s.total_rows s.error_details c.bounded)

  count_invalid-IsConsistent :
      (row : Row) (reason : Text) (s : CsvState F)
      → IsConsistent s
      → IsConsistent (count_invalid row reason (next_row s))
  unfolding count_invalid
  count_invalid-IsConsistent row reason s c =
      elim (Bool-cases (ltb (length s.error_details) max_error_samples)) [
        | inl room ↦
            let e = error_detail (s.total_rows + 1) row reason in
            let kept = All-IsSample-suc s.total_rows s.error_details c.bounded in
            rw room (record {
              counted = omega (arith, c.counted);
              sampled = ground (arith, length-append s.error_details (e ∷ []));
              ascending =
                  IsAscending-append 0 s.total_rows s.error_details e c.ascending c.bounded
                    (omega arith) (error_detail-row (s.total_rows + 1) row reason);
              bounded =
                  All-append (IsSample (s.total_rows + 1)) s.error_details (e ∷ []) kept
                    (error_detail-IsSample (s.total_rows + 1) row reason, tt);
            })
        | inr full ↦ rw full (record {
          counted = omega (arith, c.counted);
          sampled = ground arith;
          ascending = c.ascending;
          bounded = All-IsSample-suc s.total_rows s.error_details c.bounded;
        })
      ]

-- What a settled promise tells of the rows.
abbrev Told : Outcome → Type 0
Told pending = Unit
Told (resolved r) =
    IsTally r.total_rows r.valid_rows r.invalid_rows r.duplicate_rows r.error_details
Told (rejected message) = Unit
Told process_died = Unit

settle-Told : (next done : Outcome) → Told next → Told done → Told (settle next done)
unfolding settle
settle-Told next pending h k = h
settle-Told next (resolved r) h k = k
settle-Told next (rejected message) h k = k
settle-Told next process_died h k = k

record IsSound {F : Type 0} (r : Run F) : Type 0 where
  consistent : IsConsistent r.state
  told : Told r.outcome

module _ {F R D : Type 0} (h : Hashing F) (engine : JsEngine R) (number : JsNumber D) where
  -- what holds of the state that a listener leaves, if it does not throw
  abbrev Kept : Option (CsvState F) → Type 0
  Kept none = Unit
  Kept (some s) = IsConsistent s

  after_validation-Kept :
      (v : ValidationResult) (row : Row) (s : CsvState F)
      → IsConsistent s
      → Kept (after_validation h v row (next_row s))
  unfolding after_validation
  after_validation-Kept valid row s c = count_valid-IsConsistent h row s c
  after_validation-Kept (invalid reason) row s c = count_invalid-IsConsistent row reason s c
  after_validation-Kept type_error row s c = tt

  on_data-Kept : (row : Row) (s : CsvState F) → IsConsistent s → Kept (on_data h engine row s)
  unfolding on_data
  on_data-Kept row s c =
      if-elim Kept s.headers_initialized
        (after_validation-Kept (validate_row engine s.validator row) row s c) c

  module _ (file_size : ℕ) (rules : Option ValidationRules) where
    after_data-IsSound :
        (o : Option (CsvState F)) (r : Run F)
        → Kept o
        → IsSound r
        → IsSound (after_data h engine number file_size rules o r)
    after_data-IsSound none r k s = record {
      consistent = s.consistent;
      told = settle-Told process_died r.outcome tt s.told;
    }
    after_data-IsSound (some state) r k s = record { consistent = k; told = s.told }

    listen-IsSound :
        (event : CsvEvent) (r : Run F)
        → IsSound r
        → IsSound (listen h engine number file_size rules event r)
    unfolding listen
    listen-IsSound (headers names) r s = record { consistent = s.consistent; told = s.told }
    listen-IsSound (row_read row) r s =
        after_data-IsSound (on_data h engine row r.state) r (on_data-Kept row r.state s.consistent)
          s
    listen-IsSound (ended ms) r s = record {
      consistent = s.consistent;
      told = settle-Told _ r.outcome s.consistent s.told;
    }
    listen-IsSound (csv_error m) r s = record {
      consistent = s.consistent;
      told = settle-Told _ r.outcome tt s.told;
    }
    listen-IsSound (stream_error m) r s = record {
      consistent = s.consistent;
      told = settle-Told _ r.outcome tt s.told;
    }

    step-IsSound :
        (event : CsvEvent) (r : Run F)
        → IsSound r
        → IsSound (step h engine number file_size rules event r)
    unfolding step
    step-IsSound event r s = elim (Bool-cases (has_died r.outcome)) [
      | inl dead ↦ rw dead s
      | inr alive ↦ rw alive (listen-IsSound event r s)
    ]

    run-IsSound :
        (events : List CsvEvent) (r : Run F)
        → IsSound r
        → IsSound (run h engine number file_size rules events r)
    unfolding run
    run-IsSound [] r s = s
    run-IsSound (event ∷ events) r s =
        run-IsSound events (step h engine number file_size rules event r) (step-IsSound event r s)

    start-IsSound : (detector : DuplicateDetector F) → IsSound (start detector)
    unfolding start
    start-IsSound detector = record {
      consistent = record {
        counted = omega arith;
        sampled = omega arith;
        ascending = tt;
        bounded = tt;
      };
      told = tt;
    }

    -- Whatever the streams emit and whatever the detector, the numbers of a report add up, and its
    -- samples are well formed.
    pub process_csv-IsTally :
        (detector : DuplicateDetector F) (events : List CsvEvent) (r : ProcessingReport)
        → process_csv h engine number file_size rules detector events ≡ resolved r
        → IsTally r.total_rows r.valid_rows r.invalid_rows r.duplicate_rows r.error_details
    unfolding process_csv
    process_csv-IsTally detector events r e =
        rw e at ((run-IsSound events (start detector) (start-IsSound detector)).told)
