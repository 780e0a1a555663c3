-- ===== src/Dashboard/Uploads/Laws.antt =====
-- dashboard/src/hooks/useUpload.ts: what the entries show of the calls behind them.
use mathlib.Core.Path.{subst}
use file_processing_system.Prelude.{
  ◌≡◌, ◌≢◌, refl, ◌∙◌, sym, ap, ◌⊎◌, inl, inr, arith, true, false, Bool-cases, Option, none, some,
}
use file_processing_system.Prelude.Text.{Text, text_eq, text_eq_sound, text_eq_refl}
use file_processing_system.Csv.{JsNumber}
use file_processing_system.Dashboard.Uploads.{
  UploadStatus, UploadEntry, UploadEntries, put_entry, is_finished, UploadPhase, presigning,
  sending, awaiting, returned, new_entry, react, is_dismissable, dismiss, keep_unfinished,
  dismiss_all, UploadPage, put_phase, begin_upload, hear, PageStep, begins, hears, dismisses,
  dismisses_all, PageReach, at_first, then_step,
}
use file_processing_system.Dashboard.Uploads.Entries.{
  Shows, put_entry_self, put_entry_other, text_eq_differ, some-eq, react-Agrees, react_other,
  Agrees,
}

kept-Shows :
    {status : UploadStatus} {job : Option Text} (found : Option UploadEntry)
    → is_finished status ≡ false
    → Shows status job found
    → Shows status job (keep_unfinished found)
unfolding keep_unfinished
kept-Shows none open_still shows = let e = shows.is_found in cc
kept-Shows (some entry) open_still shows = record {
  entry = shows.entry;
  is_found =
      let same : entry.status ≡ shows.entry.status =
        ap UploadEntry.status (some-eq shows.is_found) in
      rw (ap is_finished same ∙ ap is_finished shows.has_status ∙ open_still) shows.is_found;
  has_status = shows.has_status;
  has_job = shows.has_job;
}

finished_gone :
    {status : UploadStatus} {job : Option Text} (found : Option UploadEntry)
    → is_finished status ≡ true
    → (found ≡ none) ⊎ Shows status job found
    → keep_unfinished found ≡ none
unfolding keep_unfinished
finished_gone none closed h = refl
finished_gone (some entry) closed (inl e) = cc
finished_gone (some entry) closed (inr shows) =
    let same : entry.status ≡ shows.entry.status = ap UploadEntry.status (some-eq shows.is_found) in
    rw (same, shows.has_status, closed) refl

-- Clearing what is finished keeps the entries in step.
keep_unfinished-Agrees :
    (phase : Option UploadPhase) (found : Option UploadEntry)
    → Agrees phase found
    → Agrees phase (keep_unfinished found)
unfolding keep_unfinished is_finished
keep_unfinished-Agrees none found h = rw h refl
keep_unfinished-Agrees (some presigning) found h = kept-Shows found refl h
keep_unfinished-Agrees (some (sending key last)) found h = kept-Shows found refl h
keep_unfinished-Agrees (some awaiting) found h = kept-Shows found refl h
keep_unfinished-Agrees (some (returned none)) found h = inl (finished_gone found refl h)
keep_unfinished-Agrees (some (returned (some job))) found h = inl (finished_gone found refl h)

dismiss-cases :
    (id : Text) (entries : UploadEntries) (key : Text)
    → (dismiss id entries key ≡ entries key)
      ⊎ (dismiss id entries key ≡ keep_unfinished (entries key))
unfolding dismiss is_dismissable put_entry keep_unfinished
dismiss-cases id entries key = elim (Bool-cases (is_dismissable (entries id))) [
  | inl gone ↦ elim (Bool-cases (text_eq key id)) [
    | inl same ↦ inr (ground (arith, text_eq_sound key id))
    | inr different ↦ inl (ground arith)
  ]
  | inr kept ↦ inl (rw kept refl)
]

-- Every entry is in step with its call.
abbrev pub AllAgree : UploadPage → Type 0
AllAgree page = (key : Text) → Agrees (page.phase_at key) (page.entries key)

put_phase_self :
    (id : Text) (phase : UploadPhase) (phases : Text → Option UploadPhase)
    → put_phase id phase phases id ≡ some phase
unfolding put_phase
put_phase_self id phase phases = ground (arith, text_eq_refl id)

put_phase_other :
    (id : Text) (phase : UploadPhase) (phases : Text → Option UploadPhase) (key : Text)
    → key ≢ id
    → put_phase id phase phases key ≡ phases key
unfolding put_phase
put_phase_other id phase phases key other = ground (arith, text_eq_sound key id)

-- A change of one call and of its entry.
changed-AllAgree :
    (id : Text) (phase : UploadPhase) (page : UploadPage) (entries : UploadEntries)
    → Agrees (some phase) (entries id)
    → ((key : Text) → key ≢ id → entries key ≡ page.entries key)
    → AllAgree page
    → AllAgree (record { phase_at = put_phase id phase page.phase_at; entries = entries })
changed-AllAgree id phase page entries here others all key = elim (Bool-cases (text_eq key id)) [
  | inl same ↦
      subst (λ k. Agrees (put_phase id phase page.phase_at k) (entries k))
        (sym (text_eq_sound key id same))
        (subst (λ p. Agrees p (entries id)) (sym (put_phase_self id phase page.phase_at)) here)
  | inr different ↦
      let other : key ≢ id = text_eq_differ key id different in
      subst (λ p. Agrees p (entries key)) (sym (put_phase_other id phase page.phase_at key other))
        (subst (Agrees (page.phase_at key)) (sym (others key other)) (all key))
]

step-AllAgree :
    {D : Type 0} {js : JsNumber D} {page next : UploadPage}
    → PageStep js page next
    → AllAgree page
    → AllAgree next
unfolding begin_upload hear dismiss_all new_entry
step-AllAgree {page = page} (begins id file_name file_size fresh) all =
    changed-AllAgree id presigning page
      (put_entry id (some (new_entry id file_name file_size)) page.entries)
      (record {
        entry = new_entry id file_name file_size;
        is_found = put_entry_self id _ page.entries;
        has_status = refl;
        has_job = refl;
      })
      (put_entry_other id _ page.entries) all
step-AllAgree {js = js} {page = page} (hears id phase event at) all =
    changed-AllAgree id (react js id phase event page.entries).0 page
      (react js id phase event page.entries).1
      (react-Agrees js id phase event page.entries
        (subst (λ p. Agrees p (page.entries id)) at (all id)))
      (react_other js id phase event page.entries) all
step-AllAgree {page = page} (dismisses id) all = λ key. elim (dismiss-cases id page.entries key) [
  | inl same ↦ subst (Agrees (page.phase_at key)) (sym same) (all key)
  | inr gone ↦
      subst (Agrees (page.phase_at key)) (sym gone)
        (keep_unfinished-Agrees (page.phase_at key) (page.entries key) (all key))
]
step-AllAgree {page = page} dismisses_all all =
    λ key. keep_unfinished-Agrees (page.phase_at key) (page.entries key) (all key)

-- However uploads begin, hear of their events and are dismissed, in any order: each entry agrees
-- with its call. A call that runs has an entry with the status of its phase, so it cannot be
-- dismissed; one that returned a job is gone or shows 'done' with that job, one that failed is
-- gone or shows 'error'; and an id under which nothing began has no entry.
pub PageReach-AllAgree :
    {D : Type 0} {js : JsNumber D} {page : UploadPage} → PageReach js page → AllAgree page
PageReach-AllAgree at_first = λ key. refl
PageReach-AllAgree (then_step before step) = step-AllAgree step (PageReach-AllAgree before)
