-- ===== src/Dashboard/Uploads/Entries.antt =====
-- dashboard/src/hooks/useUpload.ts: what an event does to the entry of its call, and to the others.
use file_processing_system.Prelude.{
  ℕ, ◌≡◌, ◌≢◌, refl, ◌⊎◌, inl, inr, arith, true, false, Bool-cases, Option, none, some, if-elim,
}
use file_processing_system.Prelude.Text.{
  Text, text_eq, text_eq_sound, text_eq_complete, text_eq_refl,
}
use file_processing_system.Csv.{JsNumber}
use file_processing_system.Dashboard.Api.{answered, refused}
use file_processing_system.Dashboard.Uploads.{
  UploadStatus, uploading, confirming, done, error, UploadEntry, UploadEntries, put_entry,
  change_found, change_entry, UploadPhase, presigning, sending, awaiting, returned, UploadEvent,
  presigned, progressed, stored, network_failed, confirmed, set_percent, set_confirming, set_done,
  set_error, percent, is_reported, is_stored, storage_message, fail, report_progress,
  finish_sending, react,
}

-- An entry is shown, with this status, error and job.
pub record Shows (status : UploadStatus) (job : Option Text) (found : Option UploadEntry)
    : Type 0 where
  pub entry : UploadEntry
  pub is_found : found ≡ some entry
  pub has_status : entry.status ≡ status
  pub has_job : entry.job_id ≡ job

-- What the entry of a call shows in each phase: while the call runs it is there, with the status
-- of the phase and no job; once it has returned, it is gone or has the outcome.
abbrev pub Agrees : Option UploadPhase → Option UploadEntry → Type 0
Agrees none found = found ≡ none
Agrees (some presigning) found = Shows uploading none found
Agrees (some (sending key last)) found = Shows uploading none found
Agrees (some awaiting) found = Shows confirming none found
Agrees (some (returned none)) found = (found ≡ none) ⊎ Shows error none found
Agrees (some (returned (some job))) found = (found ≡ none) ⊎ Shows done (some job) found

pub put_entry_self :
    (id : Text) (entry : Option UploadEntry) (entries : UploadEntries)
    → put_entry id entry entries id ≡ entry
unfolding put_entry
put_entry_self id entry entries = ground (arith, text_eq_refl id)

pub put_entry_other :
    (id : Text) (entry : Option UploadEntry) (entries : UploadEntries) (key : Text)
    → key ≢ id
    → put_entry id entry entries key ≡ entries key
unfolding put_entry
put_entry_other id entry entries key other = ground (arith, text_eq_sound key id)

pub change_entry_found :
    (id : Text) (change : UploadEntry → UploadEntry) (entries : UploadEntries) (entry : UploadEntry)
    → entries id ≡ some entry
    → change_entry id change entries id ≡ some (change entry)
unfolding change_entry change_found
change_entry_found id change entries entry e =
    rw (e, change_found) (put_entry_self id (some (change entry)) entries)

pub change_found_other :
    (id : Text) (change : UploadEntry → UploadEntry) (found : Option UploadEntry)
    (entries : UploadEntries) (key : Text)
    → key ≢ id
    → change_found id change found entries key ≡ entries key
unfolding change_found
change_found_other id change none entries key other = refl
change_found_other id change (some entry) entries key other =
    put_entry_other id (some (change entry)) entries key other

pub change_entry_other :
    (id : Text) (change : UploadEntry → UploadEntry) (entries : UploadEntries) (key : Text)
    → key ≢ id
    → change_entry id change entries key ≡ entries key
unfolding change_entry
change_entry_other id change entries key other =
    change_found_other id change (entries id) entries key other

-- A change of a shown entry.
pub change_entry-Shows :
    {status status' : UploadStatus} {job job' : Option Text} (id : Text)
    (change : UploadEntry → UploadEntry) (entries : UploadEntries)
    → Shows status job (entries id)
    → ((entry : UploadEntry)
        → entry.status ≡ status
        → entry.job_id ≡ job
        → ((change entry).status ≡ status') × ((change entry).job_id ≡ job'))
    → Shows status' job' (change_entry id change entries id)
change_entry-Shows id change entries shows keeps = record {
  entry = change shows.entry;
  is_found = change_entry_found id change entries shows.entry shows.is_found;
  has_status = (keeps shows.entry shows.has_status shows.has_job).0;
  has_job = (keeps shows.entry shows.has_status shows.has_job).1;
}

pub text_eq_differ : (s t : Text) → text_eq s t ≡ false → s ≢ t
text_eq_differ s t e same = let yes_equal = text_eq_complete s t same in cc

pub some-eq : {A : Type 0} {a b : A} → some a ≡ some b → a ≡ b
some-eq e = cc

pub fail-Agrees :
    {status : UploadStatus} (id message : Text) (entries : UploadEntries)
    → Shows status none (entries id)
    → Agrees (some (fail id message entries).0) ((fail id message entries).1 id)
unfolding fail set_error
fail-Agrees id message entries shows =
    inr (change_entry-Shows id (set_error message) entries shows (λ entry s j. (refl, j)))

pub report_progress-Agrees :
    (id key : Text) (last percentage : ℕ) (entries : UploadEntries)
    → Shows uploading none (entries id)
    → Agrees
        (some (report_progress id key last percentage entries).0)
        ((report_progress id key last percentage entries).1 id)
unfolding report_progress set_percent
report_progress-Agrees id key last percentage entries shows =
    elim (Bool-cases (is_reported last percentage)) [
      | inl yes_reported ↦
          rw yes_reported
            (change_entry-Shows id (set_percent percentage) entries shows (λ entry s j. (s, j)))
      | inr not_reported ↦ rw not_reported shows
    ]

pub finish_sending-Agrees :
    (id : Text) (status : ℕ) (entries : UploadEntries)
    → Shows uploading none (entries id)
    → Agrees (some (finish_sending id status entries).0) ((finish_sending id status entries).1 id)
unfolding finish_sending set_confirming
finish_sending-Agrees id status entries shows = elim (Bool-cases (is_stored status)) [
  | inl good ↦ rw good (change_entry-Shows id set_confirming entries shows (λ entry s j. (refl, j)))
  | inr bad ↦ rw bad (fail-Agrees id (storage_message status) entries shows)
]

module _ {D : Type 0} (js : JsNumber D) where
  -- An event of a call keeps its entry in step.
  pub react-Agrees :
      (id : Text) (phase : UploadPhase) (event : UploadEvent) (entries : UploadEntries)
      → Agrees (some phase) (entries id)
      → Agrees (some (react js id phase event entries).0) ((react js id phase event entries).1 id)
  unfolding react set_done
  react-Agrees id presigning (presigned (answered key)) entries h = h
  react-Agrees id presigning (presigned (refused err)) entries h = fail-Agrees id _ entries h
  react-Agrees id (sending key last) (progressed true part total) entries h =
      report_progress-Agrees id key last (percent js part total) entries h
  react-Agrees id (sending key last) (stored status) entries h =
      finish_sending-Agrees id status entries h
  react-Agrees id (sending key last) network_failed entries h = fail-Agrees id _ entries h
  react-Agrees id awaiting (confirmed (answered job)) entries h =
      inr (change_entry-Shows id (set_done job) entries h (λ entry s j. (refl, refl)))
  react-Agrees id awaiting (confirmed (refused err)) entries h = fail-Agrees id _ entries h
  react-Agrees id phase event entries h = h

  -- An event of a call leaves the entries of the others alone.
  pub react_other :
      (id : Text) (phase : UploadPhase) (event : UploadEvent) (entries : UploadEntries) (key : Text)
      → key ≢ id
      → (react js id phase event entries).1 key ≡ entries key
  unfolding react fail report_progress finish_sending
  react_other id presigning (presigned (answered s)) entries key h = refl
  react_other id presigning (presigned (refused err)) entries key h =
      change_entry_other id _ entries key h
  react_other id (sending s last) (progressed true part total) entries key h =
      if-elim {A = UploadPhase × UploadEntries} (λ r. r.1 key ≡ entries key) (is_reported last _)
        (change_entry_other id _ entries key h) refl
  react_other id (sending s last) (stored status) entries key h =
      if-elim {A = UploadPhase × UploadEntries} (λ r. r.1 key ≡ entries key) (is_stored status)
        (change_entry_other id _ entries key h) (change_entry_other id _ entries key h)
  react_other id (sending s last) network_failed entries key h =
      change_entry_other id _ entries key h
  react_other id awaiting (confirmed (answered job)) entries key h =
      change_entry_other id _ entries key h
  react_other id awaiting (confirmed (refused err)) entries key h =
      change_entry_other id _ entries key h
  react_other id phase event entries key h = refl
