-- ===== src/Csv/Tests.antt =====
-- `processCsv` on a small file.
use file_processing_system.Prelude.{◌≡◌, refl, List, [], ◌∷◌, ◌++◌, map, some, All, arith}
use file_processing_system.Prelude.Text.{codes, text_eq}
use file_processing_system.Types.{hash, ProcessingReport}
use file_processing_system.Validator.{initialize, validate_row}
use file_processing_system.Validator.Number.{is_number}
use file_processing_system.Duplicates.{
  create_duplicate_detector, hash_detector, bloom_detector, is_duplicate, add,
}
use file_processing_system.Csv.Json.{stringify}
use file_processing_system.Csv.{
  CsvEvent, headers, row_read, ended, resolved, process_csv, error_detail,
}
use file_processing_system.Csv.Counting.{NeverThrows}
use file_processing_system.Prelude.{false}
use file_processing_system.Validator.{new_validator}
use file_processing_system.Csv.Recount.{IsRecount, rows_read, refusals, process_csv-IsRecount}
use file_processing_system.Csv.Whole.{IsExactReport, process_csv-IsExactReport}
use file_processing_system.Csv.Approximation.{SettleAlike, process_csv-SettleAlike}
use file_processing_system.Fixtures.{
  literal_engine, fractions, plain_hashing, set_filters-HasNoFalseNegatives, columns, alice, bob,
  person_rules, person_validator,
}

stringify_test :
    stringify ((codes "a\"b", codes "1") ∷ (codes "c", codes "x\ty") ∷ [])
    ≡ codes "{\"a\\\"b\":\"1\",\"c\":\"x\\ty\"}"
unfolding stringify
stringify_test = refl

abbrev small_file : List CsvEvent
small_file = headers columns ∷ (map row_read (alice ∷ bob ∷ alice ∷ []) ++ ended 2 ∷ [])

abbrev small_report : ProcessingReport
small_report = record {
  total_rows = 3;
  valid_rows = 1;
  invalid_rows = 1;
  duplicate_rows = 1;
  duplicate_strategy = hash;
  error_details =
      record {
        row = 2;
        sample = codes "{\"name\":\"Bob\",\"age\":\"x\"}";
        reason = codes "Field \"age\" is not a valid number";
      }
      ∷ [];
  summary = record {
    processing_time_ms = 2;
    file_size_bytes = 40;
    memory_strategy = codes "hash-set";
    rows_per_second = 1500;
  };
}

small_file-report :
    process_csv plain_hashing literal_engine fractions 40
      (some person_rules)
      (hash_detector [])
      small_file
    ≡ resolved small_report
unfolding process_csv validate_row is_number text_eq initialize is_duplicate add error_detail
small_file-report = refl

process_csv-IsRecount_example :
    IsRecount
      (rows_read false small_file)
      (refusals literal_engine (some person_rules) new_validator false 0 small_file)
      small_report
process_csv-IsRecount_example =
    process_csv-IsRecount plain_hashing literal_engine fractions 40 (some person_rules)
      (hash_detector []) small_file small_report small_file-report

never_throws :
    All (NeverThrows plain_hashing literal_engine person_validator) (alice ∷ bob ∷ alice ∷ [])
unfolding validate_row is_number text_eq
never_throws = (cc, (cc, (cc, tt)))

process_csv-IsExactReport_example :
    (r : ProcessingReport) × (process_csv plain_hashing literal_engine fractions 40
        (some person_rules)
        (create_duplicate_detector plain_hashing 40 100)
        small_file
      ≡ resolved r)
    × IsExactReport plain_hashing literal_engine person_validator (alice ∷ bob ∷ alice ∷ []) r
process_csv-IsExactReport_example =
    process_csv-IsExactReport plain_hashing literal_engine fractions 40 (some person_rules) 100
      columns (alice ∷ bob ∷ alice ∷ []) 2 (omega arith) never_throws

process_csv-SettleAlike_example :
    SettleAlike
      (process_csv plain_hashing literal_engine fractions 40
        (some person_rules)
        (hash_detector [])
        small_file)
      (process_csv plain_hashing literal_engine fractions 40
        (some person_rules)
        (bloom_detector [])
        small_file)
process_csv-SettleAlike_example =
    process_csv-SettleAlike plain_hashing literal_engine fractions 40 (some person_rules)
      set_filters-HasNoFalseNegatives [] small_file
