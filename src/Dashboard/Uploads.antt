-- ===== src/Dashboard/Uploads.antt =====
-- dashboard/src/hooks/useUpload.ts: uploads that run side by side. The state that React keeps is
-- `uploads`; what one call of `upload` waits for is its phase, and each thing that it is told of
-- is an event.
mod Entries
mod Laws
mod Returns
mod Tests
use file_processing_system.Prelude.{
  ℕ, ◌≡◌, ◌+◌, Bool, true, false, ◌||◌, leb, ◌==◌, List, [], ◌∷◌, ◌++◌, Option, none, some,
  if◌then◌else◌,
}
use file_processing_system.Prelude.Text.{Text, codes, text_eq, decimal}
use file_processing_system.Csv.{JsNumber}
use file_processing_system.Dashboard.Api.{
  Answer, answered, refused, ClientError, api_error, other_error,
}

-- 'uploading' | 'confirming' | 'done' | 'error'
pub data UploadStatus : Type 0 where
  uploading confirming done error : UploadStatus

pub record UploadEntry : Type 0 where
  pub id : Text
  pub file_name : Text
  pub file_size : ℕ
  pub progress : ℕ
  pub status : UploadStatus
  pub error_message : Option Text
  pub job_id : Option Text

-- `Record<string, ConcurrentUploadEntry>`
abbrev pub UploadEntries : Type 0
UploadEntries = Text → Option UploadEntry

-- `{ ...prev, [id]: entry }`, and `delete next[id]`
unfoldable pub put_entry : Text → Option UploadEntry → UploadEntries → UploadEntries
put_entry id entry entries key = if text_eq key id then entry else entries key

-- `const existing = prev[id]; if (!existing) return prev; return { ...prev, [id]: change(existing) }`
unfoldable pub change_found :
    Text → (UploadEntry → UploadEntry) → Option UploadEntry → UploadEntries → UploadEntries
unfolding put_entry
change_found id change none entries = entries
change_found id change (some existing) entries = put_entry id (some (change existing)) entries

unfoldable pub change_entry : Text → (UploadEntry → UploadEntry) → UploadEntries → UploadEntries
change_entry id change entries = change_found id change (entries id) entries

unfoldable pub is_finished : UploadStatus → Bool
is_finished done = true
is_finished error = true
is_finished uploading = false
is_finished confirming = false

-- What a call of `upload` waits for: the presigned URL, the upload to S3 with the progress that it
-- last reported, the confirmation; or it has returned.
pub data UploadPhase : Type 0 where
  presigning : UploadPhase
  sending : Text → ℕ → UploadPhase
  awaiting : UploadPhase
  returned : Option Text → UploadPhase

-- What a call is told of. The two answers are those parts of the responses that it reads: the
-- key in S3, and the id of the job.
pub data UploadEvent : Type 0 where
  presigned : Answer Text → UploadEvent
  progressed : Bool → ℕ → ℕ → UploadEvent
  stored : ℕ → UploadEvent
  network_failed : UploadEvent
  confirmed : Answer Text → UploadEvent

-- `err.message`
unfoldable pub client_message : ClientError → Text
client_message (api_error code message status) = message
client_message (other_error message) = message

unfoldable pub new_entry : Text → Text → ℕ → UploadEntry
new_entry id file_name file_size = record {
  id = id;
  file_name = file_name;
  file_size = file_size;
  progress = 0;
  status = uploading;
  error_message = none;
  job_id = none;
}

unfoldable pub set_percent : ℕ → UploadEntry → UploadEntry
set_percent percent entry = record entry { progress = percent }

unfoldable pub set_confirming : UploadEntry → UploadEntry
set_confirming entry = record entry { status = confirming }

unfoldable pub set_done : Text → UploadEntry → UploadEntry
set_done job_id entry = record entry { progress = 100; status = done; job_id = some job_id }

unfoldable pub set_error : Text → UploadEntry → UploadEntry
set_error message entry = record entry { status = error; error_message = some message }

-- `Math.round((e.loaded / e.total) * 100)`
unfoldable pub percent : {D : Type 0} → JsNumber D → ℕ → ℕ → ℕ
percent js loaded total = js.round (js.mul (js.div (js.of_ℕ loaded) (js.of_ℕ total)) (js.of_ℕ 100))

-- `pct - lastReportedProgress >= 2 || pct === 100`
unfoldable pub is_reported : ℕ → ℕ → Bool
is_reported last percentage = leb (last + 2) percentage || percentage == 100

-- `xhr.status >= 200 && xhr.status < 300`
unfoldable pub is_stored : ℕ → Bool
is_stored status = if leb 200 status then leb status 299 else false

unfoldable pub storage_message : ℕ → Text
storage_message status = codes "S3 upload failed: " ++ decimal status

-- The `catch` block.
unfoldable pub fail : Text → Text → UploadEntries → UploadPhase × UploadEntries
unfolding change_entry set_error
fail id message entries = (returned none, change_entry id (set_error message) entries)

unfoldable pub report_progress : Text → Text → ℕ → ℕ → UploadEntries → UploadPhase × UploadEntries
unfolding change_entry set_percent is_reported
report_progress id key last percentage entries =
    if is_reported last percentage
    then (sending key percentage, change_entry id (set_percent percentage) entries)
    else (sending key last, entries)

unfoldable pub finish_sending : Text → ℕ → UploadEntries → UploadPhase × UploadEntries
unfolding change_entry set_confirming fail is_stored
finish_sending id status entries =
    if is_stored status
    then (awaiting, change_entry id set_confirming entries)
    else fail id (storage_message status) entries

module _ {D : Type 0} (js : JsNumber D) where
  -- An event that the phase does not wait for is heard by nobody.
  unfoldable pub react :
      Text → UploadPhase → UploadEvent → UploadEntries → UploadPhase × UploadEntries
  unfolding fail report_progress finish_sending change_entry set_done
  react id presigning (presigned (answered key)) entries = (sending key 0, entries)
  react id presigning (presigned (refused err)) entries = fail id (client_message err) entries
  react id (sending key last) (progressed true loaded total) entries =
      report_progress id key last (percent js loaded total) entries
  react id (sending key last) (stored status) entries = finish_sending id status entries
  react id (sending key last) network_failed entries =
      fail id (codes "S3 upload network error") entries
  react id awaiting (confirmed (answered job_id)) entries =
      (returned (some job_id), change_entry id (set_done job_id) entries)
  react id awaiting (confirmed (refused err)) entries = fail id (client_message err) entries
  react id phase event entries = (phase, entries)

-- `dismiss(id)`
unfoldable pub is_dismissable : Option UploadEntry → Bool
is_dismissable none = false
is_dismissable (some entry) = is_finished entry.status

unfoldable pub dismiss : Text → UploadEntries → UploadEntries
unfolding is_dismissable put_entry
dismiss id entries = if is_dismissable (entries id) then put_entry id none entries else entries

-- `dismissAll()`: the loop keeps what is not finished.
unfoldable pub keep_unfinished : Option UploadEntry → Option UploadEntry
keep_unfinished none = none
keep_unfinished (some entry) = if is_finished entry.status then none else some entry

unfoldable pub dismiss_all : UploadEntries → UploadEntries
unfolding keep_unfinished
dismiss_all entries key = keep_unfinished (entries key)

-- The page: the calls of `upload` by their ids, and the entries.
pub record UploadPage : Type 0 where
  pub phase_at : Text → Option UploadPhase
  pub entries : UploadEntries

abbrev pub empty_page : UploadPage
empty_page = record { phase_at = λ id. none; entries = λ id. none }

unfoldable pub put_phase :
    Text → UploadPhase → (Text → Option UploadPhase) → Text → Option UploadPhase
put_phase id phase phases key = if text_eq key id then some phase else phases key

-- `upload(file)` up to its first wait
unfoldable pub begin_upload : Text → Text → ℕ → UploadPage → UploadPage
unfolding put_phase put_entry new_entry
begin_upload id file_name file_size page = record {
  phase_at = put_phase id presigning page.phase_at;
  entries = put_entry id (some (new_entry id file_name file_size)) page.entries;
}

-- An event of one call.
unfoldable pub hear :
    {D : Type 0} → JsNumber D → Text → UploadPhase → UploadEvent → UploadPage → UploadPage
unfolding put_phase react
hear js id phase event page =
    let (next, entries) = react js id phase event page.entries in
    record { phase_at = put_phase id next page.phase_at; entries = entries }

-- What can happen on the page, in any order: an upload begins under a new id, one of those that
-- began hears of an event, or the user dismisses entries.
pub data PageStep {D : Type 0} (js : JsNumber D) (page : UploadPage) : UploadPage → Type 0 where
  begins :
      (id file_name : Text) (file_size : ℕ)
      → page.phase_at id ≡ none
      → PageStep js page (begin_upload id file_name file_size page)
  hears :
      (id : Text) (phase : UploadPhase) (event : UploadEvent)
      → page.phase_at id ≡ some phase
      → PageStep js page (hear js id phase event page)
  dismisses : (id : Text) → PageStep js page (record page { entries = dismiss id page.entries })
  dismisses_all : PageStep js page (record page { entries = dismiss_all page.entries })

pub data PageReach {D : Type 0} (js : JsNumber D) : UploadPage → Type 0 where
  at_first : PageReach js empty_page
  then_step :
      {page next : UploadPage} → PageReach js page → PageStep js page next → PageReach js next
