-- ===== src/Storage.antt =====
-- src/services/storage.service.ts, on a client of S3 whose calls are a parameter.
pub mod Laws
mod Tests
use file_processing_system.Prelude.{
  ℕ, ◌+◌, ◌*◌, ◌/◌, Bool, true, false, not, ltb, ◌==◌, List, [], ◌∷◌, ◌++◌, Option, none, some,
  if◌then◌else◌,
}
use file_processing_system.Prelude.Text.{Text, codes, decimal}
use file_processing_system.Csv.{CsvEvent}
use file_processing_system.Effects.{
  Failure, api_failure, other_failure, bad_request, not_found_error, s3_failure, Action, pure,
  throw, ◌>>=◌, ◌>>◌, catch,
}

-- The commands that the service sends, and the package `uuid`. A stream is the list of what it
-- and the parser emit; `content_length` and `Body` may be missing from a response.
pub record S3Client (W : Type 0) : Type 0 where
  pub signed_put_url : Text → Option ℕ → ℕ → Action W Text
  pub head_object : Text → Action W (Option ℕ)
  -- the source is the key as it stands, which the code does not encode for the header
  pub copy_object : Text → Text → Action W Unit
  pub delete_object : Text → Action W Unit
  pub get_object : Text → Action W (Option (List CsvEvent))
  pub uuid : Action W Text

-- 500 MB
abbrev pub max_file_size : ℕ
max_file_size = 500 * 1024 * 1024

-- `Math.round(size / (1024 * 1024))`; the quotient is exact, since the divisor is a power of two.
unfoldable pub megabytes : ℕ → ℕ
megabytes size = (2 * size + 1024 * 1024) / (2 * (1024 * 1024))

unfoldable pub too_large_message : ℕ → Text
unfolding megabytes
too_large_message size =
    codes "File exceeds the maximum allowed size of 500MB. Uploaded file is "
    ++ decimal (megabytes size)
    ++ codes "MB"

unfoldable pub mismatch_message : ℕ → ℕ → Text
mismatch_message expected actual =
    codes "File size mismatch. Expected "
    ++ decimal expected
    ++ codes " bytes, got "
    ++ decimal actual
    ++ codes " bytes"

-- `{ presignedUrl, s3Key }`
pub record PresignedUrl : Type 0 where
  pub presigned_url : Text
  pub s3_key : Text

-- `response.ContentLength ?? 0`
unfoldable pub or_zero : Option ℕ → ℕ
or_zero none = 0
or_zero (some n) = n

-- `fileSize ? { ContentLength: fileSize } : {}`
unfoldable pub content_length : Option ℕ → Option ℕ
content_length none = none
content_length (some n) = if n == 0 then none else some n

unfoldable pub rethrow_api : {W A : Type 0} → Failure → Action W A
rethrow_api (api_failure err) = throw (api_failure err)
rethrow_api (other_failure message) =
    throw (api_failure (not_found_error (codes "File not found in S3")))

unfoldable pub check_size : {W : Type 0} → ℕ → ℕ → Action W Unit
check_size expected actual =
    if ltb max_file_size actual
    then throw (api_failure (bad_request (too_large_message actual) none))
    else if not (actual == expected)
    then throw (api_failure (bad_request (mismatch_message expected actual) none))
    else pure tt

unfoldable pub unconfirmed_key : Text → Text → Text
unconfirmed_key id filename = codes "uploads/unconfirmed/" ++ id ++ codes "/" ++ filename

unfoldable pub confirmed_key : Text → Text → Text
confirmed_key id filename = codes "uploads/confirmed/" ++ id ++ codes "/" ++ filename

unfoldable pub stream_of : {W : Type 0} → Option (List CsvEvent) → Action W (List CsvEvent)
stream_of none = throw (api_failure (s3_failure (codes "Failed to get file stream from S3")))
stream_of (some events) = pure events

module _ {W : Type 0} (s3 : S3Client W) where
  unfoldable pub generate_presigned_url : Text → Option ℕ → Action W PresignedUrl
  generate_presigned_url filename file_size = do
    temp_id ← s3.uuid
    url ← s3.signed_put_url (unconfirmed_key temp_id filename) (content_length file_size) 900
    pure (record { presigned_url = url; s3_key = unconfirmed_key temp_id filename })

  unfoldable pub verify_object : Text → ℕ → Action W Unit
  verify_object s3_key expected =
      catch (do length ← s3.head_object s3_key; check_size expected (or_zero length)) rethrow_api

  unfoldable pub move_to_confirmed : Text → Text → Text → Action W Text
  move_to_confirmed s3_key job_id filename = do
    s3.copy_object s3_key (confirmed_key job_id filename)
    s3.delete_object s3_key
    pure (confirmed_key job_id filename)

  unfoldable pub get_object_stream : Text → Action W (List CsvEvent)
  get_object_stream s3_key = do body ← s3.get_object s3_key; stream_of body

  -- The failure is logged.
  unfoldable pub delete_object : Text → Action W Unit
  delete_object s3_key = catch (s3.delete_object s3_key) (λ err. pure tt)
