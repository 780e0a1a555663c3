-- ===== src/Fixtures.antt =====
-- Concrete instances of what the model takes as parameters, and data for the tests.
use file_processing_system.Prelude.{ℕ, ◌+◌, ◌*◌, ◌/◌, inl, inr, true, List, [], ◌∷◌, some}
use file_processing_system.Prelude.Text.{Text, codes, text_eq}
use file_processing_system.Types.{Row, ValidationRules, number}
use file_processing_system.Validator.{RowValidator}
use file_processing_system.Validator.Pattern.{JsEngine}
use file_processing_system.Duplicates.{Hashing, BloomFilters, member, insert}
use file_processing_system.Duplicates.Laws.{HasNoFalseNegatives, member-insert}
use file_processing_system.Csv.{JsNumber}

-- An engine whose expressions match their own text alone, and for which every text is a date.
abbrev pub literal_engine : JsEngine Text
literal_engine = record {
  compile = λ body flags. some body;
  test = text_eq;
  parses_as_date = λ value. true;
}

-- Fractions for doubles, with `Math.round` to the nearest integer, half up.
abbrev pub fractions : JsNumber (ℕ × ℕ)
fractions = record {
  of_ℕ = λ n. (n, 1);
  div = λ p q. (p.0 * q.1, p.1 * q.0);
  mul = λ p q. (p.0 * q.0, p.1 * q.1);
  round = λ p. (2 * p.0 + p.1) / (2 * p.1);
}

-- A filter that keeps its elements, and the identity for SHA-256.
abbrev pub set_filters : BloomFilters (List Text)
set_filters = record { create = λ items rate. []; add = insert; has = λ filter s. member s filter }

abbrev pub plain_hashing : Hashing (List Text)
plain_hashing = record { sha256 = λ s. s; filters = set_filters }

pub set_filters-HasNoFalseNegatives : HasNoFalseNegatives set_filters
set_filters-HasNoFalseNegatives = record {
  has-add_self = λ s f. (member-insert s s f).1 (inl (λ i. s));
  has-add = λ s t f e. (member-insert t s f).1 (inr e);
}

abbrev pub columns : List Text
columns = codes "name" ∷ codes "age" ∷ []

abbrev pub person : Text → Text → Row
person name age = (codes "name", name) ∷ (codes "age", age) ∷ []

abbrev pub alice : Row
alice = person (codes "Alice") (codes "30")

abbrev pub bob : Row
bob = person (codes "Bob") (codes "x")

abbrev pub person_rules : ValidationRules
person_rules = record {
  required_fields = codes "name" ∷ [];
  field_types = (codes "age", number) ∷ [];
  custom_patterns = [];
}

abbrev pub person_validator : RowValidator
person_validator = record { headers = columns; rules = some person_rules }
