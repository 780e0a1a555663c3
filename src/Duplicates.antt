-- ===== src/Duplicates.antt =====
-- src/processors/duplicateDetector.ts. SHA-256 and the Bloom filter of the package bloom-filters
-- are parameters; a `Set` of the language is the list of its elements.
pub mod Laws
pub mod Keys
pub mod Exact
mod Tests
use file_processing_system.Prelude.{
  ℕ, Bool, true, false, ◌||◌, List, [], ◌∷◌, map, if◌then◌else◌, ltb, exists,
}
use file_processing_system.Prelude.Text.{Text, text_eq, join}
use file_processing_system.Types.{DuplicateStrategy, hash, bloom, Row}

-- `BloomFilter.create`, `add` and `has`; the rate is given as a fraction.
pub record BloomFilters (F : Type 0) : Type 0 where
  pub create : ℕ → ℕ × ℕ → F
  pub add : Text → F → F
  pub has : F → Text → Bool

-- `createHash('sha256').update(s).digest('hex')`, and the filters
pub record Hashing (F : Type 0) : Type 0 where
  pub sha256 : Text → Text
  pub filters : BloomFilters F

pub data DuplicateDetector (F : Type 0) : Type 0 where
  hash_detector : List Text → DuplicateDetector F
  bloom_detector : F → DuplicateDetector F

unfoldable pub member : Text → List Text → Bool
member s set = exists (text_eq s) set

-- `set.add(s)`
unfoldable pub insert : Text → List Text → List Text
unfolding member
insert s set = if member s set then set else s ∷ set

-- `Object.values(row)`
abbrev pub values : Row → List Text
values row = map (λ entry. entry.1) row

-- `Object.values(row).join('|')`
unfoldable pub joined : Row → Text
unfolding join
joined row = join b'|' (values row)

abbrev pub expected_items : ℕ
expected_items = 2000000

abbrev pub false_positive_rate : ℕ × ℕ
false_positive_rate = (1, 100)

module _ {F : Type 0} (h : Hashing F) where
  unfoldable pub hash_row : Row → Text
  unfolding joined
  hash_row row = h.sha256 (joined row)

  unfoldable pub add : Row → DuplicateDetector F → DuplicateDetector F
  unfolding hash_row insert
  add row (hash_detector seen) = hash_detector (insert (hash_row row) seen)
  add row (bloom_detector filter) = bloom_detector (h.filters.add (hash_row row) filter)

  unfoldable pub is_duplicate : Row → DuplicateDetector F → Bool
  unfolding hash_row member
  is_duplicate row (hash_detector seen) = member (hash_row row) seen
  is_duplicate row (bloom_detector filter) = h.filters.has filter (hash_row row)

  unfoldable pub create_duplicate_detector : ℕ → ℕ → DuplicateDetector F
  create_duplicate_detector file_size threshold_bytes =
      if ltb file_size threshold_bytes
      then hash_detector []
      else bloom_detector (h.filters.create expected_items false_positive_rate)

unfoldable pub get_strategy : {F : Type 0} → DuplicateDetector F → DuplicateStrategy
get_strategy (hash_detector _) = hash
get_strategy (bloom_detector _) = bloom
