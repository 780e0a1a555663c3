-- ===== src/Csv/Whole.antt =====
-- `processCsv` on a whole file with the hash detector, from the header to the end of the stream.
use file_processing_system.Prelude.{
  ℕ, ◌≡◌, refl, ap, ◌∙◌, ◌↔◌, ◌<◌, true, List, [], ◌∷◌, ◌++◌, map, Option, some, All, arith, length,
  take,
}
use mathlib.Core.Option
use file_processing_system.Prelude.Text.{Text}
use file_processing_system.Types.{hash, ProcessingReport, Row, ValidationRules}
use file_processing_system.Validator.{RowValidator, initialize}
use file_processing_system.Validator.Pattern.{JsEngine}
use file_processing_system.Duplicates.{
  Hashing, create_duplicate_detector, hash_detector, member, get_strategy,
}
use file_processing_system.Csv.{
  JsNumber, max_error_samples, CsvState, CsvEvent, headers, row_read, ended, pending, resolved, Run,
  start, on_data, report, after_data, step, run, process_csv,
}
use file_processing_system.Csv.Exact.{HasNoRepeats, refused, IsKey, Advances, IsReading}
use file_processing_system.Csv.Counting.{on_rows, NeverThrows, Reads-All, on_rows-cons}

module _ {F R : Type 0} (h : Hashing F) (engine : JsEngine R) where
  -- The report of a whole file: a tally of its rows that stands on their checks and keys alone.
  pub record IsExactReport (v : RowValidator) (rows : List Row) (r : ProcessingReport)
      : Type 0 where
    pub total : r.total_rows ≡ length rows
    pub refusals : r.invalid_rows ≡ length (refused engine v 0 rows)
    pub samples : r.error_details ≡ take max_error_samples (refused engine v 0 rows)
    pub firsts : List Text
    pub distinct : HasNoRepeats firsts
    pub keys : (k : Text) → (member k firsts ≡ true) ↔ IsKey h engine v k rows
    pub accepted : r.valid_rows ≡ length firsts
    pub strategy : r.duplicate_strategy ≡ hash

module _ {F R D : Type 0} (h : Hashing F) (engine : JsEngine R) (number : JsNumber D)
    (file_size : ℕ) (rules : Option ValidationRules) where
  step-row_read :
      (row : Row) (s s' : CsvState F)
      → on_data h engine row s ≡ some s'
      → step h engine number file_size rules
          (row_read row)
          (record { state = s; outcome = pending })
        ≡ record { state = s'; outcome = pending }
  unfolding step
  step-row_read row s s' e =
      ap
        (λ o.
          after_data h engine number file_size rules o (record { state = s; outcome = pending }))
        e

  run-row_read :
      (rows : List Row) (more : List CsvEvent) (s s' : CsvState F)
      → on_rows h engine rows s ≡ some s'
      → run h engine number file_size rules
          (map row_read rows ++ more)
          (record { state = s; outcome = pending })
        ≡ run h engine number file_size rules more (record { state = s'; outcome = pending })
  unfolding run on_rows
  run-row_read [] more s s' e =
      ap (λ x. run h engine number file_size rules more (record { state = x; outcome = pending }))
        (Option.some-injective s s' e)
  run-row_read (row ∷ rows) more s s' e =
      let (s₁, went, e') = on_rows-cons h engine row rows s s' e in
      ap (run h engine number file_size rules (map row_read rows ++ more))
        (step-row_read row s s₁ went)
      ∙ run-row_read rows more s₁ s' e'

  -- the state once the header has been read
  abbrev reading : List Text → CsvState F
  reading names = record {
    validator = record { headers = names; rules = rules };
    headers_initialized = true;
    detector = hash_detector [];
    total_rows = 0;
    valid_rows = 0;
    invalid_rows = 0;
    duplicate_rows = 0;
    error_details = [];
  }

  reading-IsReading :
      (names : List Text)
      → IsReading h engine (record { headers = names; rules = rules }) (reading names) []
  reading-IsReading names = record {
    ready = refl;
    checks = refl;
    detector = refl;
    distinct = tt;
    few = omega arith;
  }

  report-IsExactReport :
      (names : List Text) (rows : List Row) (s' : CsvState F) (seen' : List Text) (ms : ℕ)
      → Advances h engine
          (record { headers = names; rules = rules })
          (reading names)
          s'
          rows
          []
          seen'
      → IsExactReport h engine
          (record { headers = names; rules = rules })
          rows
          (report number file_size ms s')
  unfolding report member
  report-IsExactReport names rows s' seen' ms a = record {
    total = omega (arith, a.total);
    refusals = omega (arith, a.refusals);
    samples = a.samples;
    firsts = seen';
    distinct = a.distinct;
    keys = λ k. ground (arith, a.keys k);
    accepted = omega (arith, a.accepted);
    strategy = ap get_strategy a.detector;
  }

  run-ended :
      (ms : ℕ) (s : CsvState F)
      → (run h engine number file_size rules
          (ended ms ∷ [])
          (record { state = s; outcome = pending })).outcome
        ≡ resolved (report number file_size ms s)
  unfolding run
  run-ended ms s = refl

  run-headers :
      (names : List Text) (events : List CsvEvent)
      → run h engine number file_size rules (headers names ∷ events) (start (hash_detector []))
        ≡ run h engine number file_size rules events
            (record { state = reading names; outcome = pending })
  unfolding run start initialize
  run-headers names events = refl

  hash_report :
      (names : List Text) (rows : List Row) (ms : ℕ)
      → All (NeverThrows h engine (record { headers = names; rules = rules })) rows
      → (r : ProcessingReport) × (process_csv h engine number file_size rules
            (hash_detector [])
            (headers names ∷ (map row_read rows ++ ended ms ∷ []))
          ≡ resolved r)
        × IsExactReport h engine (record { headers = names; rules = rules }) rows r
  unfolding process_csv
  hash_report names rows ms fine =
      let v : RowValidator = record { headers = names; rules = rules } in
      let (s', seen', went, a) =
        Reads-All h engine v rows (reading names) [] (reading-IsReading names) fine in
      let e = run-row_read rows (ended ms ∷ []) (reading names) s' went in
      (
        report number file_size ms s',
        ap (λ (x : Run F). x.outcome) (run-headers names (map row_read rows ++ ended ms ∷ []) ∙ e)
            ∙ run-ended ms s',
        report-IsExactReport names rows s' seen' ms a,
      )

  small_detector :
      (threshold : ℕ)
      → file_size < threshold
      → create_duplicate_detector h file_size threshold ≡ hash_detector []
  unfolding create_duplicate_detector
  small_detector threshold small = ground arith

  -- A file below the threshold in size, for which the hash detector is created, with the header
  -- `names` and the rows `rows`, none of which makes the row check throw, is reported exactly: the
  -- report counts every row; the invalid ones are those that the row check refuses, the first
  -- hundred of them with number, text and reason; the valid ones are as many as there are different
  -- keys among the rows that the check accepts.
  pub process_csv-IsExactReport :
      (threshold : ℕ) (names : List Text) (rows : List Row) (ms : ℕ)
      → file_size < threshold
      → All (NeverThrows h engine (record { headers = names; rules = rules })) rows
      → (r : ProcessingReport) × (process_csv h engine number file_size rules
            (create_duplicate_detector h file_size threshold)
            (headers names ∷ (map row_read rows ++ ended ms ∷ []))
          ≡ resolved r)
        × IsExactReport h engine (record { headers = names; rules = rules }) rows r
  process_csv-IsExactReport threshold names rows ms small fine =
      let (r, settled, exact) = hash_report names rows ms fine in
      (
        r,
        ap
              (λ detector.
                process_csv h engine number file_size rules detector
                  (headers names ∷ (map row_read rows ++ ended ms ∷ [])))
              (small_detector threshold small)
            ∙ settled,
        exact,
      )
