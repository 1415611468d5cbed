-- ===== src/Intake/Draft.antt =====
-- The copy of an unfinished intake in the browser's storage (frontend/src/features/application-intake/
-- hooks/useApplicationIntakeDraft.ts). An event carries whether the storage works then; a throw of the
-- storage leaves what it holds. JSON texts of lists of texts are equal when the lists are, so a
-- fingerprint stands as the fields themselves.
pub mod Recovered
pub mod Truthful
use full_stack_resume.Common.{
  String, Bool, true, false, not, ◌&&◌, ◌||◌, Option, none, some, List, [], ◌∷◌, ◌==◌,
  if◌then◌else◌,
}

-- `ApplicationIntakeFields`
pub record IntakeFields : Type 0 where
  pub company : String
  pub target_role : String
  pub source_url : String
  pub job_text : String

-- `hasContent`
abbrev pub has_content : IntakeFields → Bool
has_content f =
    not (f.company == "")
    || not (f.target_role == "")
    || not (f.source_url == "")
    || not (f.job_text == "")

-- `fingerprint(a) === fingerprint(b)`
abbrev pub same_fields : IntakeFields → IntakeFields → Bool
same_fields a b =
    a.company == b.company
    && a.target_role == b.target_role
    && a.source_url == b.source_url
    && a.job_text == b.job_text

-- What the storage holds under the key: a draft of this version, or something else that is ignored.
pub data StoredDraft : Type 0 where
  draft_of : IntakeFields → StoredDraft
  foreign : StoredDraft

-- `readApplicationIntakeDraft`, with the storage at hand
abbrev pub read_draft : Option StoredDraft → Option IntakeFields
read_draft (some (draft_of fields)) = some fields
read_draft _ = none

pub data IntakeDraftStatus : Type 0 where
  idle restored saving saved failed : IntakeDraftStatus

pub record IntakeDraft : Type 0 where
  pub latest : IntakeFields
  pub timer : Bool
  pub previous : IntakeFields
  pub cleared : Bool
  pub status : IntakeDraftStatus
  pub storage : Option StoredDraft

-- the first render, with the fields that the page opens with
unfoldable pub opened : IntakeFields → Bool → Option StoredDraft → IntakeDraft
opened fields was_restored storage = record {
  latest = fields;
  timer = false;
  previous = fields;
  cleared = false;
  status = if was_restored then restored else idle;
  storage = storage;
}

-- what `persist` leaves in the storage; its answer is whether the storage works
abbrev pub persisted : Bool → IntakeFields → Option StoredDraft → Option StoredDraft
persisted works fields storage =
    if works then (if has_content fields then some (draft_of fields) else none) else storage

abbrev pub persist_latest : Bool → IntakeDraft → IntakeDraft
persist_latest works s = record s { storage = persisted works s.latest s.storage }

-- `clearDraft`
unfoldable pub clear_draft : Bool → IntakeDraft → IntakeDraft
clear_draft works s = record s {
  cleared = true;
  timer = false;
  storage = if works then none else s.storage;
  status = idle;
}

-- `updateDraft`
unfoldable pub update_draft : Bool → IntakeFields → IntakeDraft → IntakeDraft
update_draft works fields s =
    if same_fields s.previous fields
    then s
    else let next = record s {
      previous = fields;
      latest = fields;
      cleared = false;
      timer = false;
    } in
      if has_content fields
      then record next { status = saving; timer = true }
      else record (persist_latest works next) { status = if works then idle else failed }

-- the debounce's timer
unfoldable pub timer_fires : Bool → IntakeDraft → IntakeDraft
timer_fires works s =
    if s.timer
    then record (persist_latest works s) { timer = false; status = if works then saved else failed }
    else s

-- `flush`
unfoldable pub flush : Bool → IntakeDraft → IntakeDraft
flush works s = if s.cleared then s else persist_latest works s

-- `onVisibilityChanged` when the page is hidden
unfoldable pub hide : Bool → IntakeDraft → IntakeDraft
hide works s = if s.cleared then s else record (persist_latest works s) {
  status = if works then (if has_content s.latest then saved else idle) else failed;
}

-- `onBeforeUnload`, and whether it asks the reader to confirm
unfoldable pub before_unload : Bool → IntakeDraft → IntakeDraft
before_unload works s = if not s.cleared && has_content s.latest then persist_latest works s else s

abbrev pub confirms_unload : Bool → IntakeDraft → Bool
confirms_unload works s = not s.cleared && has_content s.latest && not works

pub data IntakeEvent : Type 0 where
  updated : (works : Bool) (fields : IntakeFields) → IntakeEvent
  cleared_after_creation timer_fired page_hidden visibility_hidden unloading :
      (works : Bool) → IntakeEvent

unfoldable pub intake_step : IntakeEvent → IntakeDraft → IntakeDraft
unfolding update_draft clear_draft timer_fires flush hide before_unload
intake_step (updated works fields) s = update_draft works fields s
intake_step (cleared_after_creation works) s = clear_draft works s
intake_step (timer_fired works) s = timer_fires works s
intake_step (page_hidden works) s = flush works s
intake_step (visibility_hidden works) s = hide works s
intake_step (unloading works) s = before_unload works s

abbrev pub intake_run : List IntakeEvent → IntakeDraft → IntakeDraft
intake_run [] s = s
intake_run (e ∷ es) s = intake_run es (intake_step e s)

-- the cleanup of the effect
unfoldable pub unmount : Bool → IntakeDraft → IntakeDraft
unfolding flush
unmount works s = flush works (record s { timer = false })
