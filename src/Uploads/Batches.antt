-- ===== src/Uploads/Batches.antt =====
-- src/controllers/upload.controller.ts: a batch that fails its verification leaves nothing behind.
use mathlib.Core.Path.{subst}
use file_processing_system.Prelude.{◌≡◌, refl, ◌∙◌, sym, ap, ◌⊎◌, inl, inr, All, List, [], ◌∷◌}
use file_processing_system.Prelude.Text.{Text}
use file_processing_system.Effects.{
  Failure, Result, ok, failed, hangs, crashes, Action, pure, ◌>>=◌, continue, for_each,
}
use file_processing_system.Storage.{verify_object}
use file_processing_system.Storage.Laws.{verify_object_kept}
use file_processing_system.Uploads.Schemas.{ConfirmUpload, BatchConfirm}
use file_processing_system.Uploads.{UploadParts, confirm_batch}

-- A program that ended without a value.
pub data Stopped {W A : Type 0} : Result A × W → Type 0 where
  stopped_failed : {e : Failure} {w : W} → Stopped (failed e, w)
  stopped_hangs : {w : W} → Stopped (hangs, w)
  stopped_crashes : {w : W} → Stopped (crashes, w)

module _ {W A : Type 0} where
  ends : (x : Result A × W) → ((a : A) × (x ≡ (ok a, x.1))) ⊎ Stopped x
  ends (ok a, w) = inl (a, refl)
  ends (failed e, w) = inr stopped_failed
  ends (hangs, w) = inr stopped_hangs
  ends (crashes, w) = inr stopped_crashes

  continue-Stopped :
      {B : Type 0} (f : A → Action W B) {x : Result A × W}
      → Stopped x
      → Stopped (continue f x) × ((continue f x).1 ≡ x.1)
  continue-Stopped f stopped_failed = (stopped_failed, refl)
  continue-Stopped f stopped_hangs = (stopped_hangs, refl)
  continue-Stopped f stopped_crashes = (stopped_crashes, refl)

module _ {W A : Type 0} where
  for_each-first :
      {B : Type 0} (f : B → Action W A) (b : B) (items : List B) (w : W) (a : A)
      → f b w ≡ (ok a, w)
      → (All (λ c. (value : A) × ((f c w).0 ≡ ok value)) items
          × ((values : List A) × (for_each f items w ≡ (ok values, w))))
        ⊎ (Stopped (for_each f items w) × ((for_each f items w).1 ≡ w))
      → (All (λ c. (value : A) × ((f c w).0 ≡ ok value)) (b ∷ items)
          × ((values : List A) × (for_each f (b ∷ items) w ≡ (ok values, w))))
        ⊎ (Stopped (for_each f (b ∷ items) w) × ((for_each f (b ∷ items) w).1 ≡ w))
  unfolding for_each
  for_each-first f b items w a e (inl (all, (values, rest))) =
      inl (((a, ap (λ x. x.0) e), all), (a ∷ values, ap (continue _) e ∙ ap (continue _) rest))
  for_each-first f b items w a e (inr (stop, kept)) = inr (
      subst
        (λ x.
          Stopped (continue (λ v. for_each f items >>= λ vs. pure (v ∷ vs)) x)
          × ((continue (λ v. for_each f items >>= λ vs. pure (v ∷ vs)) x).1 ≡ w))
        (sym e) ((continue-Stopped _ stop).0, (continue-Stopped _ stop).1 ∙ kept))

  -- Checks that change nothing: all succeed, or the loop stops and has changed nothing.
  for_each-checks :
      {B : Type 0} (f : B → Action W A)
      → ((b : B) (w : W) → (f b w).1 ≡ w)
      → (items : List B) (w : W)
      → (All (λ c. (value : A) × ((f c w).0 ≡ ok value)) items
          × ((values : List A) × (for_each f items w ≡ (ok values, w))))
        ⊎ (Stopped (for_each f items w) × ((for_each f items w).1 ≡ w))
  unfolding for_each
  for_each-checks f kept [] w = inl (tt, ([], refl))
  for_each-checks f kept (b ∷ items) w = elim (ends (f b w)) [
    | inl (a, e) ↦
        for_each-first f b items w a (e ∙ ap (λ v. (ok a, v)) (kept b w))
          (for_each-checks f kept items w)
    | inr stop ↦ inr ((continue-Stopped _ stop).0, (continue-Stopped _ stop).1 ∙ kept b w)
  ]

-- The file is in the bucket, with the size that the client named.
abbrev pub IsVerified : {W Json : Type 0} → UploadParts W Json → W → ConfirmUpload → Type 0
IsVerified parts w upload = (verify_object parts.s3 upload.s3_key upload.file_size w).0 ≡ ok tt

All-IsVerified :
    {W Json : Type 0} (parts : UploadParts W Json) (w : W) (files : List ConfirmUpload)
    → All
        (λ (c : ConfirmUpload).
          (value : Unit {0}) × ((verify_object parts.s3 c.s3_key c.file_size w).0 ≡ ok value))
        files
    → All (IsVerified parts w) files
All-IsVerified parts w [] h = tt
All-IsVerified parts w (upload ∷ files) ((value, e), rest) = (e, All-IsVerified parts w files rest)

-- If asking S3 for an object changes nothing, then either every file of a batch is there with the
-- size that the client named, or the request fails and has changed nothing: nothing is moved,
-- created or queued.
pub confirm_batch_atomic :
    {W Json : Type 0} (parts : UploadParts W Json)
    → ((key : Text) (w : W) → (parts.s3.head_object key w).1 ≡ w)
    → (batch : BatchConfirm) (w : W)
    → All (IsVerified parts w) batch.files
      ⊎ (Stopped (confirm_batch parts batch w) × ((confirm_batch parts batch w).1 ≡ w))
unfolding confirm_batch
confirm_batch_atomic parts head_kept batch w =
    elim (for_each-checks
      (λ (upload : ConfirmUpload). verify_object parts.s3 upload.s3_key upload.file_size)
      (λ upload v. verify_object_kept parts.s3 head_kept upload.s3_key upload.file_size v)
      batch.files w) [
        | inl (all, found) ↦ inl (All-IsVerified parts w batch.files all)
        | inr (stop, kept) ↦ inr ((continue-Stopped _ stop).0, (continue-Stopped _ stop).1 ∙ kept)
      ]
