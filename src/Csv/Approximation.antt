-- ===== src/Csv/Approximation.antt =====
-- The Bloom detector against the hash detector on the same streams. A filter that never loses an
-- element takes every duplicate for one, and perhaps more: it only moves rows from valid to
-- duplicate.
use file_processing_system.Prelude.{
  ℕ, ◌≤◌, ◌≡◌, refl, sym, true, List, [], ◌∷◌, Option, none, some, arith, if-elim₂,
}
use mathlib.Core.Path.{subst}
use file_processing_system.Prelude.Text.{Text}
use file_processing_system.Types.{ProcessingReport, Row, ValidationRules}
use file_processing_system.Validator.{initialize, validate_row}
use file_processing_system.Validator.Pattern.{JsEngine}
use file_processing_system.Duplicates.{Hashing, hash_detector, bloom_detector, member}
use file_processing_system.Duplicates.Laws.{HasNoFalseNegatives}
use file_processing_system.Csv.{
  JsNumber, CsvState, CsvEvent, headers, row_read, ended, csv_error, stream_error, Outcome, pending,
  resolved, rejected, process_died, Run, start, next_row, settle, has_died, after_validation,
  on_data, report, after_data, listen, step, run, process_csv,
}
use file_processing_system.Csv.Moving.{Covered, CoveredAfter, after_validation-Covered}

-- The report `t` is the report `s` with some rows moved from valid to duplicate.
pub record IsApproximation (s t : ProcessingReport) : Type 0 where
  pub total : t.total_rows ≡ s.total_rows
  pub refusals : t.invalid_rows ≡ s.invalid_rows
  pub samples : t.error_details ≡ s.error_details
  pub fewer : t.valid_rows ≤ s.valid_rows

-- The promises settle alike, to reports of which the second approximates the first.
abbrev pub SettleAlike : Outcome → Outcome → Type 0
SettleAlike pending pending = Unit
SettleAlike (resolved s) (resolved t) = IsApproximation s t
SettleAlike (rejected m) (rejected n) = m ≡ n
SettleAlike process_died process_died = Unit
SettleAlike _ _ = ⊥

settle-SettleAlike :
    (next next' done done' : Outcome)
    → SettleAlike next next'
    → SettleAlike done done'
    → SettleAlike (settle next done) (settle next' done')
unfolding settle
settle-SettleAlike next next' pending pending h k = h
settle-SettleAlike next next' (resolved s) (resolved t) h k = k
settle-SettleAlike next next' (rejected m) (rejected n) h k = k
settle-SettleAlike next next' process_died process_died h k = k
settle-SettleAlike _ _ _ _ h k = absurd k

has_died-SettleAlike : (o o' : Outcome) → SettleAlike o o' → has_died o ≡ has_died o'
has_died-SettleAlike pending pending k = refl
has_died-SettleAlike (resolved s) (resolved t) k = refl
has_died-SettleAlike (rejected m) (rejected n) k = refl
has_died-SettleAlike process_died process_died k = refl
has_died-SettleAlike _ _ k = absurd k

module _ {F R D : Type 0} (h : Hashing F) (engine : JsEngine R) (number : JsNumber D)
    (file_size : ℕ) (rules : Option ValidationRules) (laws : HasNoFalseNegatives h.filters) where
  record RunAlike (r q : Run F) : Type 0 where
    states : Covered h r.state q.state
    outcomes : SettleAlike r.outcome q.outcome

  on_data-Covered :
      (row : Row) (s t : CsvState F)
      → Covered h s t
      → CoveredAfter h (on_data h engine row s) (on_data h engine row t)
  unfolding on_data
  on_data-Covered row s t (seen, filter, c, covers) =
      let alike =
        after_validation-Covered h laws (validate_row engine s.validator row) row s t
          (seen, filter, c, covers) in
      if-elim₂ (CoveredAfter h) s.headers_initialized t.headers_initialized c.initialized
        (subst
          (λ x.
            CoveredAfter h
              (after_validation h (validate_row engine s.validator row) row (next_row s))
              (after_validation h (validate_row engine x row) row (next_row t)))
          c.validator alike)
        (seen, filter, c, covers)

  after_data-RunAlike :
      (o o' : Option (CsvState F)) (r q : Run F)
      → CoveredAfter h o o'
      → RunAlike r q
      → RunAlike
          (after_data h engine number file_size rules o r)
          (after_data h engine number file_size rules o' q)
  after_data-RunAlike none none r q c a = record {
    states = a.states;
    outcomes = settle-SettleAlike process_died process_died r.outcome q.outcome tt a.outcomes;
  }
  after_data-RunAlike none (some t) r q c a = absurd c
  after_data-RunAlike (some s) none r q c a = absurd c
  after_data-RunAlike (some s) (some t) r q c a = record { states = c; outcomes = a.outcomes }

  report-IsApproximation :
      (ms : ℕ) (s t : CsvState F)
      → Covered h s t
      → IsApproximation (report number file_size ms s) (report number file_size ms t)
  unfolding report
  report-IsApproximation ms s t (seen, filter, c, covers) = record {
    total = sym c.total;
    refusals = sym c.refusals;
    samples = sym c.samples;
    fewer = c.fewer;
  }

  initialize-Covered :
      (names : List Text) (s t : CsvState F)
      → Covered h s t
      → Covered h
          (record s { validator = initialize names rules s.validator; headers_initialized = true })
          (record t { validator = initialize names rules t.validator; headers_initialized = true })
  unfolding initialize
  initialize-Covered names s t (seen, filter, c, covers) = (seen, filter, ground arith, covers)

  listen-RunAlike :
      (event : CsvEvent) (r q : Run F)
      → RunAlike r q
      → RunAlike
          (listen h engine number file_size rules event r)
          (listen h engine number file_size rules event q)
  unfolding listen
  listen-RunAlike (headers names) r q a = record {
    states = initialize-Covered names r.state q.state a.states;
    outcomes = a.outcomes;
  }
  listen-RunAlike (row_read row) r q a =
      after_data-RunAlike (on_data h engine row r.state) (on_data h engine row q.state) r q
        (on_data-Covered row r.state q.state a.states) a
  listen-RunAlike (ended ms) r q a = record {
    states = a.states;
    outcomes =
        settle-SettleAlike _ _ r.outcome q.outcome
          (report-IsApproximation ms r.state q.state a.states) a.outcomes;
  }
  listen-RunAlike (csv_error m) r q a = record {
    states = a.states;
    outcomes = settle-SettleAlike _ _ r.outcome q.outcome refl a.outcomes;
  }
  listen-RunAlike (stream_error m) r q a = record {
    states = a.states;
    outcomes = settle-SettleAlike _ _ r.outcome q.outcome refl a.outcomes;
  }

  step-RunAlike :
      (event : CsvEvent) (r q : Run F)
      → RunAlike r q
      → RunAlike
          (step h engine number file_size rules event r)
          (step h engine number file_size rules event q)
  unfolding step
  step-RunAlike event r q a =
      if-elim₂ RunAlike (has_died r.outcome) (has_died q.outcome)
        (has_died-SettleAlike r.outcome q.outcome a.outcomes) a (listen-RunAlike event r q a)

  run-RunAlike :
      (events : List CsvEvent) (r q : Run F)
      → RunAlike r q
      → RunAlike
          (run h engine number file_size rules events r)
          (run h engine number file_size rules events q)
  unfolding run
  run-RunAlike [] r q a = a
  run-RunAlike (event ∷ events) r q a =
      run-RunAlike events (step h engine number file_size rules event r)
        (step h engine number file_size rules event q) (step-RunAlike event r q a)

  start-RunAlike :
      (filter : F) → RunAlike (start (hash_detector [])) (start (bloom_detector filter))
  unfolding start member
  start-RunAlike filter = record {
    states = ([], filter, ground arith, (λ k m. absurd (ground arith)));
    outcomes = tt;
  }

  -- On the same events, with a filter that never loses an element, the Bloom detector and the hash
  -- detector settle alike; where both report, they agree on the rows, the invalid rows and their
  -- samples, and the Bloom detector finds no more valid rows.
  pub process_csv-SettleAlike :
      (filter : F) (events : List CsvEvent)
      → SettleAlike
          (process_csv h engine number file_size rules (hash_detector []) events)
          (process_csv h engine number file_size rules (bloom_detector filter) events)
  unfolding process_csv
  process_csv-SettleAlike filter events =
      (run-RunAlike events (start (hash_detector [])) (start (bloom_detector filter))
        (start-RunAlike filter)).outcomes
