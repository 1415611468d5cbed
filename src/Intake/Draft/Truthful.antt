-- ===== src/Intake/Draft/Truthful.antt =====
-- What the status of the stored intake says is so (useApplicationIntakeDraft.ts).
use full_stack_resume.Common.{
  ◌≡◌, refl, Bool, true, false, not, ◌&&◌, Option, some, List, [], ◌∷◌, arith,
}
use full_stack_resume.Intake.Draft.{
  IntakeFields, has_content, StoredDraft, draft_of, IntakeDraftStatus, restored, saving, saved,
  IntakeDraft, opened, IntakeEvent, updated, cleared_after_creation, timer_fired, page_hidden,
  visibility_hidden, unloading, intake_step, intake_run,
}

-- Whether a status says that the fields are stored.
abbrev pub says_stored : IntakeDraftStatus → Bool
says_stored saved = true
says_stored restored = true
says_stored _ = false

abbrev pub is_saving : IntakeDraftStatus → Bool
is_saving saving = true
is_saving _ = false

-- A status that says that the fields are stored is right and they have content, one that says that they are being stored has
-- its timer set, and a timer is set only for fields with content that are not cleared.
pub record IsTruthful (s : IntakeDraft) : Type 0 where
  pub stored : says_stored s.status ≡ true → s.storage ≡ some (draft_of s.latest)
  pub content : says_stored s.status ≡ true → has_content s.latest ≡ true
  pub scheduled : is_saving s.status ≡ true → s.timer ≡ true
  pub wanted : s.timer ≡ true → (has_content s.latest && not s.cleared) ≡ true

opened-IsTruthful :
    (fields : IntakeFields) (was_restored : Bool) (storage : Option StoredDraft)
    → (was_restored ≡ true → (storage ≡ some (draft_of fields)) × (has_content fields ≡ true))
    → IsTruthful (opened fields was_restored storage)
unfolding opened
opened-IsTruthful fields true storage h = record {
  stored = λ (_ : _). (h refl).0;
  content = λ (_ : _). (h refl).1;
  scheduled = λ (k : _). cc;
  wanted = λ (k : _). cc;
}
opened-IsTruthful fields false storage h = record {
  stored = λ (k : _). cc;
  content = λ (k : _). cc;
  scheduled = λ (k : _). cc;
  wanted = λ (k : _). cc;
}

intake_step-IsTruthful :
    (e : IntakeEvent) (s : IntakeDraft) → IsTruthful s → IsTruthful (intake_step e s)
unfolding intake_step
intake_step-IsTruthful (updated works fields) s t = record {
  stored = ground (arith, t.stored, t.content, t.scheduled, t.wanted);
  content = ground (arith, t.stored, t.content, t.scheduled, t.wanted);
  scheduled = ground (arith, t.stored, t.content, t.scheduled, t.wanted);
  wanted = ground (arith, t.stored, t.content, t.scheduled, t.wanted);
}
intake_step-IsTruthful (cleared_after_creation works) s t = record {
  stored = ground (arith, t.stored, t.content, t.scheduled, t.wanted);
  content = ground (arith, t.stored, t.content, t.scheduled, t.wanted);
  scheduled = ground (arith, t.stored, t.content, t.scheduled, t.wanted);
  wanted = ground (arith, t.stored, t.content, t.scheduled, t.wanted);
}
intake_step-IsTruthful (timer_fired works) s t = record {
  stored = ground (arith, t.stored, t.content, t.scheduled, t.wanted);
  content = ground (arith, t.stored, t.content, t.scheduled, t.wanted);
  scheduled = ground (arith, t.stored, t.content, t.scheduled, t.wanted);
  wanted = ground (arith, t.stored, t.content, t.scheduled, t.wanted);
}
intake_step-IsTruthful (page_hidden works) s t = record {
  stored = ground (arith, t.stored, t.content, t.scheduled, t.wanted);
  content = ground (arith, t.stored, t.content, t.scheduled, t.wanted);
  scheduled = ground (arith, t.stored, t.content, t.scheduled, t.wanted);
  wanted = ground (arith, t.stored, t.content, t.scheduled, t.wanted);
}
intake_step-IsTruthful (visibility_hidden works) s t = record {
  stored = ground (arith, t.stored, t.content, t.scheduled, t.wanted);
  content = ground (arith, t.stored, t.content, t.scheduled, t.wanted);
  scheduled = ground (arith, t.stored, t.content, t.scheduled, t.wanted);
  wanted = ground (arith, t.stored, t.content, t.scheduled, t.wanted);
}
intake_step-IsTruthful (unloading works) s t = record {
  stored = ground (arith, t.stored, t.content, t.scheduled, t.wanted);
  content = ground (arith, t.stored, t.content, t.scheduled, t.wanted);
  scheduled = ground (arith, t.stored, t.content, t.scheduled, t.wanted);
  wanted = ground (arith, t.stored, t.content, t.scheduled, t.wanted);
}

run_lem : (es : List IntakeEvent) (s : IntakeDraft) → IsTruthful s → IsTruthful (intake_run es s)
run_lem [] s t = t
run_lem (e ∷ es) s t = run_lem es (intake_step e s) (intake_step-IsTruthful e s t)

-- The status never lies, whatever the storage does: from a page opened with stored fields that have
-- content, or with none restored, over any run of changes, timers, hidings, closings and clearings, a
-- status that says stored means that the storage holds exactly the newest fields, a status that says
-- storing has its timer set, and a timer never waits for empty or cleared fields.
pub intake_run-IsTruthful :
    (es : List IntakeEvent) (fields : IntakeFields) (was_restored : Bool)
    (storage : Option StoredDraft)
    → (was_restored ≡ true → (storage ≡ some (draft_of fields)) × (has_content fields ≡ true))
    → IsTruthful (intake_run es (opened fields was_restored storage))
intake_run-IsTruthful es fields was_restored storage h =
    run_lem es (opened fields was_restored storage)
      (opened-IsTruthful fields was_restored storage h)
