-- ===== src/Dashboard/Uploads/Returns.antt =====
-- dashboard/src/hooks/useUpload.ts: a call of `upload` whose requests are all answered returns.
use mathlib.Core.Path.{subst}
use file_processing_system.Prelude.{
  ℕ, ◌≡◌, refl, ◌∙◌, ap, inl, inr, Bool, true, false, Bool-cases, List, [], ◌∷◌, ◌++◌, map, Option,
  none, some, if◌then◌else◌,
}
use file_processing_system.Prelude.Text.{Text}
use file_processing_system.Csv.{JsNumber}
use file_processing_system.Dashboard.Api.{Answer, answered, refused}
use file_processing_system.Dashboard.Uploads.{
  uploading, UploadEntries, UploadPhase, presigning, sending, returned, UploadEvent, presigned,
  progressed, stored, network_failed, confirmed, percent, is_reported, is_stored, fail,
  report_progress, finish_sending, react,
}
use file_processing_system.Dashboard.Uploads.Entries.{Shows, Agrees, react-Agrees}

-- How the upload to S3 ends: by its status, or by an error of the network.
pub data PutEnd : Type 0 where
  ended_with : ℕ → PutEnd
  network_error : PutEnd

unfoldable pub put_event : PutEnd → UploadEvent
put_event (ended_with status) = stored status
put_event network_error = network_failed

-- One tick of the progress: whether the length is known, and the two numbers.
pub record Tick : Type 0 where
  pub known : Bool
  pub part : ℕ
  pub total : ℕ

unfoldable pub tick_event : Tick → UploadEvent
tick_event tick = progressed tick.known tick.part tick.total

-- What the call is told of, in order.
unfoldable pub call_events : Answer Text → List Tick → PutEnd → Answer Text → List UploadEvent
call_events presign ticks put confirm =
    presigned presign ∷ map tick_event ticks ++ put_event put ∷ confirmed confirm ∷ []

-- The id of the job if all three requests succeed.
unfoldable pub outcome : Answer Text → PutEnd → Answer Text → Option Text
outcome (answered key) (ended_with status) (answered job) =
    if is_stored status then some job else none
outcome (answered key) (ended_with status) (refused err) = none
outcome (answered key) network_error confirm = none
outcome (refused err) put confirm = none

module _ {D : Type 0} (js : JsNumber D) (id : Text) where
  unfoldable pub react_all :
      List UploadEvent → UploadPhase × UploadEntries → UploadPhase × UploadEntries
  react_all [] at = at
  react_all (event ∷ events) at = react_all events (react js id at.0 event at.1)

  react_all-append :
      (es fs : List UploadEvent) (at : UploadPhase × UploadEntries)
      → react_all (es ++ fs) at ≡ react_all fs (react_all es at)
  unfolding react_all
  react_all-append [] fs at = refl
  react_all-append (e ∷ es) fs at = react_all-append es fs (react js id at.0 e at.1)

  react_all-Agrees :
      (events : List UploadEvent) (at : UploadPhase × UploadEntries)
      → Agrees (some at.0) (at.1 id)
      → Agrees (some (react_all events at).0) ((react_all events at).1 id)
  unfolding react_all
  react_all-Agrees [] at h = h
  react_all-Agrees (event ∷ events) at h =
      react_all-Agrees events (react js id at.0 event at.1) (react-Agrees js id at.0 event at.1 h)

  -- A call that has returned hears nothing more.
  react_all_returned :
      (events : List UploadEvent) (result : Option Text) (at : UploadPhase × UploadEntries)
      → at.0 ≡ returned result
      → (react_all events at).0 ≡ returned result
  unfolding react_all react
  react_all_returned [] result at e = e
  react_all_returned (event ∷ events) result at e =
      react_all_returned events result (react js id at.0 event at.1) (rw e refl)

  report_sends :
      (key : Text) (last percentage : ℕ) (entries : UploadEntries)
      → (next : ℕ) × ((report_progress id key last percentage entries).0 ≡ sending key next)
  unfolding report_progress
  report_sends key last percentage entries = elim (Bool-cases (is_reported last percentage)) [
    | inl reported ↦ (percentage, rw reported refl)
    | inr unreported ↦ (last, rw unreported refl)
  ]

  tick_sends :
      (known : Bool) (part total : ℕ) (key : Text) (last : ℕ) (entries : UploadEntries)
      → (next : ℕ) × ((react js id (sending key last) (progressed known part total) entries).0
          ≡ sending key next)
  unfolding react
  tick_sends true part total key last entries =
      report_sends key last (percent js part total) entries
  tick_sends false part total key last entries = (last, refl)

  react_tick :
      (tick : Tick) (key : Text) (at : UploadPhase × UploadEntries) (last : ℕ)
      → at.0 ≡ sending key last
      → (next : ℕ) × ((react js id at.0 (tick_event tick) at.1).0 ≡ sending key next)
  unfolding tick_event
  react_tick tick key at last e = rw e (tick_sends tick.known tick.part tick.total key last at.1)

  -- The ticks leave the call where it is.
  react_ticks :
      (ticks : List Tick) (key : Text) (at : UploadPhase × UploadEntries)
      → ((last : ℕ) × (at.0 ≡ sending key last))
      → (last : ℕ) × ((react_all (map tick_event ticks) at).0 ≡ sending key last)
  unfolding react_all tick_event
  react_ticks [] key at h = h
  react_ticks (tick ∷ ticks) key at (last, e) =
      react_ticks ticks key (react js id at.0 (tick_event tick) at.1)
        (react_tick tick key at last e)

  -- From the upload to S3 on.
  put_returns :
      (key : Text) (last : ℕ) (put : PutEnd) (confirm : Answer Text) (entries : UploadEntries)
      → (react_all (put_event put ∷ confirmed confirm ∷ []) (sending key last, entries)).0
        ≡ returned (outcome (answered key) put confirm)
  unfolding react_all react put_event outcome finish_sending fail
  put_returns key last network_error confirm entries = refl
  put_returns key last (ended_with status) (answered job) entries =
      elim (Bool-cases (is_stored status)) [ inl good ↦ rw good refl | inr bad ↦ rw bad refl ]
  put_returns key last (ended_with status) (refused err) entries =
      elim (Bool-cases (is_stored status)) [ inl good ↦ rw good refl | inr bad ↦ rw bad refl ]

  sending_returns :
      (key : Text) (last : ℕ) (put : PutEnd) (confirm : Answer Text)
      (at : UploadPhase × UploadEntries)
      → at.0 ≡ sending key last
      → (react_all (put_event put ∷ confirmed confirm ∷ []) at).0
        ≡ returned (outcome (answered key) put confirm)
  sending_returns key last put confirm at e =
      ap (λ phase. (react_all (put_event put ∷ confirmed confirm ∷ []) (phase, at.1)).0) e
      ∙ put_returns key last put confirm at.1

  call_outcome :
      (presign : Answer Text) (ticks : List Tick) (put : PutEnd) (confirm : Answer Text)
      (entries : UploadEntries)
      → (react_all (call_events presign ticks put confirm) (presigning, entries)).0
        ≡ returned (outcome presign put confirm)
  unfolding call_events react_all react fail outcome
  call_outcome (refused err) ticks put confirm entries =
      react_all_returned (map tick_event ticks ++ put_event put ∷ confirmed confirm ∷ []) none _
        refl
  call_outcome (answered key) ticks put confirm entries =
      let sent = react_ticks ticks key (sending key 0, entries) (0, refl) in
      ap (λ r. r.0) (react_all-append (map tick_event ticks) _ (sending key 0, entries))
      ∙ sending_returns key sent.0 put confirm _ sent.1

  -- A call whose presign request is answered, whose upload to S3 ends, after any number of ticks,
  -- and whose confirmation is answered has returned: the id of the job if all three succeed, and
  -- null otherwise. Its entry, if there still is one, shows 'done' with that job, or 'error'.
  pub upload_returns :
      (presign : Answer Text) (ticks : List Tick) (put : PutEnd) (confirm : Answer Text)
      (entries : UploadEntries)
      → Shows uploading none (entries id)
      → ((react_all (call_events presign ticks put confirm) (presigning, entries)).0
          ≡ returned (outcome presign put confirm))
        × Agrees
            (some (returned (outcome presign put confirm)))
            ((react_all (call_events presign ticks put confirm) (presigning, entries)).1 id)
  upload_returns presign ticks put confirm entries shows =
      let ends = call_outcome presign ticks put confirm entries in
      (
        ends,
        subst
            (λ phase.
              Agrees (some phase)
                ((react_all (call_events presign ticks put confirm) (presigning, entries)).1 id))
            ends
            (react_all-Agrees (call_events presign ticks put confirm) (presigning, entries) shows),
      )
