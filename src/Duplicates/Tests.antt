-- ===== src/Duplicates/Tests.antt =====
-- The detectors on concrete rows.
use file_processing_system.Prelude.{
  ◌≡◌, refl, ◌↔◌, true, false, [], ◌∷◌, ◌++◌, Any, arith, cons-ne-nil,
}
use file_processing_system.Prelude.Text.{codes, text_eq}
use file_processing_system.Types.{Row, hash, bloom}
use file_processing_system.Duplicates.{
  hash_detector, bloom_detector, values, joined, hash_row, add, is_duplicate,
  create_duplicate_detector, get_strategy,
}
use file_processing_system.Duplicates.Keys.{joined_injective}
use file_processing_system.Duplicates.Laws.{add_all, is_duplicate-add_all}
use file_processing_system.Duplicates.Exact.{
  two_columns, hash_detector_exact, is_duplicate_collision,
}
use file_processing_system.Fixtures.{plain_hashing, set_filters-HasNoFalseNegatives, alice, bob}

strategies :
    (get_strategy (create_duplicate_detector plain_hashing 10 50) ≡ hash)
    × (get_strategy (create_duplicate_detector plain_hashing 50 50) ≡ bloom)
unfolding create_duplicate_detector get_strategy
strategies = (refl, refl)

found :
    (is_duplicate plain_hashing alice (add plain_hashing alice (hash_detector [])) ≡ true)
    × (is_duplicate plain_hashing bob (add plain_hashing alice (hash_detector [])) ≡ false)
unfolding is_duplicate add text_eq
found = (refl, refl)

joined_injective_example : values alice ≡ values alice
joined_injective_example =
    joined_injective alice alice (cons-ne-nil _ _) (cons-ne-nil _ _) (omega arith) (omega arith)
      refl

is_duplicate-add_all_example :
    is_duplicate plain_hashing alice
      (add_all plain_hashing (bob ∷ []) (add plain_hashing alice (bloom_detector [])))
    ≡ true
is_duplicate-add_all_example =
    is_duplicate-add_all plain_hashing set_filters-HasNoFalseNegatives alice (bob ∷ [])
      (bloom_detector [])

hash_row-plain :
    (row other : Row)
    → hash_row plain_hashing row ≡ hash_row plain_hashing other
    → joined row ≡ joined other
unfolding hash_row
hash_row-plain row other e = e

hash_detector_exact_example :
    (is_duplicate plain_hashing alice (add_all plain_hashing (bob ∷ alice ∷ []) (hash_detector []))
      ≡ true)
    ↔ Any (λ s. values s ≡ values alice) (bob ∷ alice ∷ [])
hash_detector_exact_example =
    hash_detector_exact plain_hashing alice (bob ∷ alice ∷ []) (cons-ne-nil _ _, omega arith)
      (
        ((cons-ne-nil _ _, omega arith), hash_row-plain alice bob),
        (((cons-ne-nil _ _, omega arith), hash_row-plain alice alice), tt),
      )

is_duplicate_collision_example :
    is_duplicate plain_hashing
      (two_columns (codes "x") (codes "y") (codes "a" ++ b'|' ∷ codes "b") (codes "c"))
      (add plain_hashing
        (two_columns (codes "x") (codes "y") (codes "a") (codes "b" ++ b'|' ∷ codes "c"))
        (hash_detector []))
    ≡ true
is_duplicate_collision_example =
    is_duplicate_collision plain_hashing set_filters-HasNoFalseNegatives (hash_detector [])
      (codes "x") (codes "y") (codes "a") (codes "b") (codes "c")
