-- ===== src/Effects.antt =====
-- src/utils/ApiError.ts and src/interfaces' asynchronous functions: a `Promise<A>` is a program
-- on the state `W` of the outside world, which settles or does not.
pub mod Triples
use file_processing_system.Prelude.{ℕ, List, [], ◌∷◌, Option, none, some}
use file_processing_system.Prelude.Text.{Text, codes}
use file_processing_system.Types.{
  ErrorCode, validation_error, not_found, rate_limited, s3_error, internal_error,
}

-- `details` is kept as the text that JSON makes of it.
pub record ApiError : Type 0 where
  pub status_code : ℕ
  pub code : ErrorCode
  pub message : Text
  pub details : Option Text

unfoldable pub bad_request : Text → Option Text → ApiError
bad_request message details = record {
  status_code = 400;
  code = validation_error;
  message = message;
  details = details;
}

unfoldable pub not_found_error : Text → ApiError
not_found_error message = record {
  status_code = 404;
  code = not_found;
  message = message;
  details = none;
}

unfoldable pub rate_limited_error : ApiError
rate_limited_error = record {
  status_code = 429;
  code = rate_limited;
  message = codes "Too many requests";
  details = none;
}

unfoldable pub s3_failure : Text → ApiError
s3_failure message = record {
  status_code = 502;
  code = s3_error;
  message = message;
  details = none;
}

unfoldable pub internal_failure : Text → ApiError
internal_failure message = record {
  status_code = 500;
  code = internal_error;
  message = message;
  details = none;
}

-- What is thrown: an ApiError, or any other Error with its message.
pub data Failure : Type 0 where
  api_failure : ApiError → Failure
  other_failure : Text → Failure

-- How an awaited promise ends. `hangs` is a promise that never settles; `crashes` is an error
-- that nobody catches, which ends the process.
pub data Result (A : Type 0) : Type 0 where
  ok : A → Result A
  failed : Failure → Result A
  hangs crashes : Result A

abbrev pub Action : Type 0 → Type 0 → Type 0
Action W A = W → Result A × W

abbrev pub pure : {W A : Type 0} → A → Action W A
pure a w = (ok a, w)

abbrev pub throw : {W A : Type 0} → Failure → Action W A
throw e w = (failed e, w)

abbrev pub continue : {W A B : Type 0} → (A → Action W B) → Result A × W → Result B × W
continue f (ok a, w) = f a w
continue f (failed e, w) = (failed e, w)
continue f (hangs, w) = (hangs, w)
continue f (crashes, w) = (crashes, w)

infixl 5 ◌>>=◌ ◌>>◌
abbrev pub ◌>>=◌ : {W A B : Type 0} → Action W A → (A → Action W B) → Action W B
◌>>=◌ m f w = continue f (m w)

abbrev pub ◌>>◌ : {W A B : Type 0} → Action W A → Action W B → Action W B
m >> k = m >>= λ _. k

-- `try { m } catch (error) { handler(error) }`
abbrev pub recover : {W A : Type 0} → (Failure → Action W A) → Result A × W → Result A × W
recover handler (ok a, w) = (ok a, w)
recover handler (failed e, w) = handler e w
recover handler (hangs, w) = (hangs, w)
recover handler (crashes, w) = (crashes, w)

abbrev pub catch : {W A : Type 0} → Action W A → (Failure → Action W A) → Action W A
catch m handler w = recover handler (m w)

-- `for (const a of list) ...`, and the values it collects
unfoldable pub for_each : {W A B : Type 0} → (A → Action W B) → List A → Action W (List B)
for_each f [] = pure []
for_each f (a ∷ rest) = do b ← f a; bs ← for_each f rest; pure (b ∷ bs)
