-- ===== src/Storage/Laws.antt =====
-- src/services/storage.service.ts: what a verified upload is, and that moving it never loses it.
use file_processing_system.Prelude.{
  ℕ, ◌≡◌, ◌≢◌, refl, ◌∙◌, ◌⊎◌, inl, inr, ◌↔◌, arith, ◌≤◌, Option, some, none,
}
use file_processing_system.Prelude.Text.{Text}
use file_processing_system.Effects.{
  api_failure, other_failure, Result, ok, failed, hangs, crashes, continue, recover,
}
use file_processing_system.Effects.Triples.{Triple, and_then, consequence, returns}
use file_processing_system.Storage.{
  S3Client, max_file_size, or_zero, check_size, rethrow_api, verify_object, confirmed_key,
  move_to_confirmed,
}

-- What S3 documents of copying and deleting, seen through the content under a key: a copy leaves
-- its source alone, a deletion every other key, whether they succeed or not.
pub record IsS3 {W C : Type 0} (s3 : S3Client W) (object_at : W → Text → Option C) : Type 0 where
  pub copy :
      (source target : Text) (content : C)
      → Triple
          (λ w. object_at w source ≡ some content)
          (s3.copy_object source target)
          (λ _ w. (object_at w source ≡ some content) × (object_at w target ≡ some content))
          (λ w. object_at w source ≡ some content)
  pub delete :
      (key other : Text) (content : C)
      → key ≢ other
      → Triple
          (λ w. object_at w other ≡ some content)
          (s3.delete_object key)
          (λ _ w. (object_at w other ≡ some content) × (object_at w key ≡ none))
          (λ w. object_at w other ≡ some content)

-- Moving an upload under another key ends with the content under the confirmed key alone, or it
-- fails with the content still under one of the two keys.
pub move_to_confirmed-keeps_object :
    {W C : Type 0} (s3 : S3Client W) (object_at : W → Text → Option C) (content : C)
    (s3_key job_id filename : Text)
    → IsS3 s3 object_at
    → s3_key ≢ confirmed_key job_id filename
    → Triple
        (λ w. object_at w s3_key ≡ some content)
        (move_to_confirmed s3 s3_key job_id filename)
        (λ key w.
          (key ≡ confirmed_key job_id filename)
          × (object_at w key ≡ some content)
          × (object_at w s3_key ≡ none))
        (λ w.
          (object_at w s3_key ≡ some content)
          ⊎ (object_at w (confirmed_key job_id filename) ≡ some content))
unfolding move_to_confirmed
move_to_confirmed-keeps_object s3 object_at content s3_key job_id filename laws distinct =
    and_then
      (consequence (λ w h. h) (λ a w h. h.1) (λ w h. inl h)
        (laws.copy s3_key (confirmed_key job_id filename) content))
      (λ a.
        and_then
          (consequence (λ w h. h) (λ b w h. h) (λ w h. inr h)
            (laws.delete s3_key (confirmed_key job_id filename) content distinct))
          (λ b. returns (λ w h. (refl, h.0, h.1))))

-- What `verify_object` makes of the answer of S3.
verdict : {W : Type 0} → ℕ → Result (Option ℕ) × W → Result (Unit {0}) × W
verdict expected x =
    recover rethrow_api (continue (λ length. check_size expected (or_zero length)) x)

verdict-accepts :
    {W : Type 0} (expected : ℕ) (length : Option ℕ) (w : W)
    → ((verdict expected (ok length, w)).0 ≡ ok tt)
      ↔ ((or_zero length ≡ expected) × (expected ≤ max_file_size))
unfolding verdict check_size rethrow_api
verdict-accepts expected length w = ground arith

verdict_iff :
    {W : Type 0} (expected : ℕ) (x : Result (Option ℕ) × W)
    → ((verdict expected x).0 ≡ ok tt) ↔ (
        (length : Option ℕ) × (x.0 ≡ ok length)
        × (or_zero length ≡ expected)
        × (expected ≤ max_file_size))
unfolding verdict rethrow_api
verdict_iff expected (ok length, w) = (
  λ e. (
    length,
    refl,
    ((verdict-accepts expected length w).0 e).0,
    ((verdict-accepts expected length w).0 e).1,
  ),
  λ (n, same, size, bound). (verdict-accepts expected length w).1 (cc, bound),
)
verdict_iff expected (failed (api_failure err), w) = (λ e. cc, λ (n, same, size, bound). cc)
verdict_iff expected (failed (other_failure err), w) = (λ e. cc, λ (n, same, size, bound). cc)
verdict_iff expected (hangs, w) = (λ e. cc, λ (n, same, size, bound). cc)
verdict_iff expected (crashes, w) = (λ e. cc, λ (n, same, size, bound). cc)

-- An upload is accepted exactly when S3 answers with the size that the client named, of at most
-- 500 MB.
pub verify_object_iff :
    {W : Type 0} (s3 : S3Client W) (s3_key : Text) (expected : ℕ) (w : W)
    → ((verify_object s3 s3_key expected w).0 ≡ ok tt) ↔ (
        (length : Option ℕ) × ((s3.head_object s3_key w).0 ≡ ok length)
        × (or_zero length ≡ expected)
        × (expected ≤ max_file_size))
unfolding verify_object verdict
verify_object_iff s3 s3_key expected w = verdict_iff expected (s3.head_object s3_key w)

check_size_kept : {W : Type 0} (expected actual : ℕ) (w : W) → (check_size expected actual w).1 ≡ w
unfolding check_size
check_size_kept expected actual w = ground arith

recover_kept : {W : Type 0} (x : Result (Unit {0}) × W) → (recover rethrow_api x).1 ≡ x.1
unfolding rethrow_api
recover_kept (ok a, w) = refl
recover_kept (failed (api_failure err), w) = refl
recover_kept (failed (other_failure err), w) = refl
recover_kept (hangs, w) = refl
recover_kept (crashes, w) = refl

checked_kept :
    {W : Type 0} (expected : ℕ) (x : Result (Option ℕ) × W)
    → (continue (λ length. check_size expected (or_zero length)) x).1 ≡ x.1
checked_kept expected (ok length, w) = check_size_kept expected (or_zero length) w
checked_kept expected (failed err, w) = refl
checked_kept expected (hangs, w) = refl
checked_kept expected (crashes, w) = refl

-- The verification changes nothing, if asking for an object does not.
pub verify_object_kept :
    {W : Type 0} (s3 : S3Client W)
    → ((key : Text) (w : W) → (s3.head_object key w).1 ≡ w)
    → (s3_key : Text) (expected : ℕ) (w : W) → (verify_object s3 s3_key expected w).1 ≡ w
unfolding verify_object
verify_object_kept s3 head_kept s3_key expected w =
    recover_kept _ ∙ checked_kept expected (s3.head_object s3_key w) ∙ head_kept s3_key w
