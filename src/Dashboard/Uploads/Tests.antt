-- ===== src/Dashboard/Uploads/Tests.antt =====
-- dashboard/src/hooks/useUpload.ts at concrete uploads.
use file_processing_system.Prelude.{◌≡◌, refl, true, [], ◌∷◌, some}
use file_processing_system.Prelude.Text.{codes, text_eq}
use file_processing_system.Fixtures.{fractions}
use file_processing_system.Dashboard.Api.{answered}
use file_processing_system.Dashboard.Uploads.{
  UploadEntries, UploadPage, presigning, presigned, returned, new_entry, put_phase, begin_upload,
  hear, begins, hears, at_first, then_step, empty_page, PageReach,
}
use file_processing_system.Dashboard.Uploads.Entries.{Agrees}
use file_processing_system.Dashboard.Uploads.Laws.{AllAgree, PageReach-AllAgree}
use file_processing_system.Dashboard.Uploads.Returns.{
  Tick, ended_with, call_events, react_all, outcome, upload_returns,
}

abbrev begun : UploadPage
begun = begin_upload (codes "u") (codes "a.csv") 20 empty_page

begun_reached : PageReach fractions begun
begun_reached = then_step at_first (begins (codes "u") (codes "a.csv") 20 refl)

PageReach-AllAgree_example :
    AllAgree (hear fractions (codes "u") presigning (presigned (answered (codes "k"))) begun)
unfolding begin_upload put_phase text_eq
PageReach-AllAgree_example =
    PageReach-AllAgree (
      then_step begun_reached
        (hears (codes "u") presigning (presigned (answered (codes "k"))) refl))

abbrev shown : UploadEntries
shown key = some (new_entry (codes "u") (codes "a.csv") 20)

halfway : Tick
halfway = record { known = true; part = 10; total = 20 }

upload_returns_example :
    let events =
      call_events (answered (codes "k")) (halfway ∷ []) (ended_with 200) (answered (codes "j1")) in
    ((react_all fractions (codes "u") events (presigning, shown)).0
      ≡ returned (outcome (answered (codes "k")) (ended_with 200) (answered (codes "j1"))))
    × Agrees
        (some (returned (outcome (answered (codes "k")) (ended_with 200) (answered (codes "j1")))))
        ((react_all fractions (codes "u") events (presigning, shown)).1 (codes "u"))
unfolding new_entry
upload_returns_example =
    upload_returns fractions (codes "u") (answered (codes "k")) (halfway ∷ []) (ended_with 200)
      (answered (codes "j1")) shown
      (record {
        entry = new_entry (codes "u") (codes "a.csv") 20;
        is_found = refl;
        has_status = refl;
        has_job = refl;
      })
