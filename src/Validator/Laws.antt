-- ===== src/Validator/Laws.antt =====
-- What the validator promises of its results.
pub mod Acceptance
pub mod EmailForm
pub mod PatternForm
pub mod Failures
