-- ===== src/Csv/Settling.antt =====
-- The promise of `processCsv` settles.
use file_processing_system.Prelude.{
  ℕ, ◌≡◌, ◌≢◌, refl, List, [], ◌∷◌, Option, none, some, if-elim, ◌∙◌,
}
use file_processing_system.Types.{ValidationRules}
use file_processing_system.Validator.Pattern.{JsEngine}
use file_processing_system.Duplicates.{Hashing}
use file_processing_system.Csv.{
  JsNumber, CsvState, CsvEvent, headers, row_read, ended, csv_error, stream_error, Outcome, pending,
  resolved, rejected, process_died, Run, settle, has_died, on_data, after_data, listen, step, run,
}

-- The events that settle the promise.
abbrev pub IsFinal : CsvEvent → Type 0
IsFinal (headers _) = ⊥
IsFinal (row_read _) = ⊥
IsFinal (ended _) = Unit
IsFinal (csv_error _) = Unit
IsFinal (stream_error _) = Unit

settle-settled : (next done : Outcome) → done ≢ pending → settle next done ≡ done
unfolding settle
settle-settled next pending ne = absurd (ne refl)
settle-settled next (resolved r) ne = refl
settle-settled next (rejected m) ne = refl
settle-settled next process_died ne = refl

module _ {F R D : Type 0} (h : Hashing F) (engine : JsEngine R) (number : JsNumber D)
    (file_size : ℕ) (rules : Option ValidationRules) where
  after_data-settled :
      (o : Option (CsvState F)) (r : Run F)
      → r.outcome ≢ pending
      → (after_data h engine number file_size rules o r).outcome ≡ r.outcome
  after_data-settled none r ne = settle-settled process_died r.outcome ne
  after_data-settled (some s) r ne = refl

  listen-settled :
      (event : CsvEvent) (r : Run F)
      → r.outcome ≢ pending
      → (listen h engine number file_size rules event r).outcome ≡ r.outcome
  unfolding listen
  listen-settled (headers names) r ne = refl
  listen-settled (row_read row) r ne = after_data-settled (on_data h engine row r.state) r ne
  listen-settled (ended ms) r ne = settle-settled _ r.outcome ne
  listen-settled (csv_error m) r ne = settle-settled _ r.outcome ne
  listen-settled (stream_error m) r ne = settle-settled _ r.outcome ne

  step-settled :
      (event : CsvEvent) (r : Run F)
      → r.outcome ≢ pending
      → (step h engine number file_size rules event r).outcome ≡ r.outcome
  unfolding step
  step-settled event r ne =
      if-elim (λ (x : Run F). x.outcome ≡ r.outcome) (has_died r.outcome) refl
        (listen-settled event r ne)

  pub run-settled :
      (events : List CsvEvent) (r : Run F)
      → r.outcome ≢ pending
      → (run h engine number file_size rules events r).outcome ≡ r.outcome
  unfolding run
  run-settled [] r ne = refl
  run-settled (event ∷ events) r ne =
      let e = step-settled event r ne in
      run-settled events (step h engine number file_size rules event r) (λ p. ne (cc p)) ∙ e
