-- ===== src/Intake/Draft/Recovered.antt =====
-- What a page that opens again recovers of an unfinished intake (useApplicationIntakeDraft.ts).
use full_stack_resume.Common.{
  ◌≡◌, refl, Bool, true, false, not, ◌&&◌, Option, none, some, List, [], ◌∷◌, arith, if◌then◌else◌,
  all,
}
use full_stack_resume.Intake.Draft.{
  IntakeFields, has_content, same_fields, StoredDraft, read_draft, IntakeDraft, opened, IntakeEvent,
  updated, cleared_after_creation, timer_fired, page_hidden, visibility_hidden, unloading,
  intake_step, intake_run, flush, unmount,
}

-- What is owed to the reader: the newest fields, unless an application was created since they changed.
pub record Owed : Type 0 where
  pub fields : IntakeFields
  pub created : Bool

abbrev pub owed_step : IntakeEvent → Owed → Owed
owed_step (updated works fields) o =
    if same_fields o.fields fields then o else record { fields = fields; created = false }
owed_step (cleared_after_creation works) o = record o { created = true }
owed_step _ o = o

abbrev pub owed_run : List IntakeEvent → Owed → Owed
owed_run [] o = o
owed_run (e ∷ es) o = owed_run es (owed_step e o)

-- The fields that a reopened page should have, none where there is nothing to keep.
abbrev pub owed_fields : Owed → Option IntakeFields
owed_fields o = if not o.created && has_content o.fields then some o.fields else none

-- Clearing works: the only event in which the storage must.
abbrev pub clears : IntakeEvent → Bool
clears (cleared_after_creation works) = works
clears _ = true

record Follows (s : IntakeDraft) (o : Owed) : Type 0 where
  latest : s.latest ≡ o.fields
  previous : s.previous ≡ o.fields
  cleared : s.cleared ≡ o.created
  gone : s.cleared ≡ true → s.storage ≡ none
  unscheduled : s.cleared ≡ true → s.timer ≡ false

intake_step-Follows :
    (e : IntakeEvent) (s : IntakeDraft) (o : Owed)
    → clears e ≡ true
    → Follows s o
    → Follows (intake_step e s) (owed_step e o)
unfolding intake_step
intake_step-Follows (updated works fields) s o w f = record {
  latest = ground (arith, f.latest, f.previous, f.cleared, f.gone);
  previous = ground (arith, f.latest, f.previous, f.cleared, f.gone);
  cleared = ground (arith, f.latest, f.previous, f.cleared, f.gone);
  gone = ground (arith, f.latest, f.previous, f.cleared, f.gone, f.unscheduled);
  unscheduled = ground (arith, f.latest, f.previous, f.cleared, f.gone, f.unscheduled);
}
intake_step-Follows (cleared_after_creation works) s o w f = record {
  latest = ground (arith, f.latest, f.previous, f.cleared, f.gone);
  previous = ground (arith, f.latest, f.previous, f.cleared, f.gone);
  cleared = ground (arith, f.latest, f.previous, f.cleared, f.gone);
  gone = ground (arith, f.latest, f.previous, f.cleared, f.gone, f.unscheduled);
  unscheduled = ground (arith, f.latest, f.previous, f.cleared, f.gone, f.unscheduled);
}
intake_step-Follows (timer_fired works) s o w f = record {
  latest = ground (arith, f.latest, f.previous, f.cleared, f.gone);
  previous = ground (arith, f.latest, f.previous, f.cleared, f.gone);
  cleared = ground (arith, f.latest, f.previous, f.cleared, f.gone);
  gone = ground (arith, f.latest, f.previous, f.cleared, f.gone, f.unscheduled);
  unscheduled = ground (arith, f.latest, f.previous, f.cleared, f.gone, f.unscheduled);
}
intake_step-Follows (page_hidden works) s o w f = record {
  latest = ground (arith, f.latest, f.previous, f.cleared, f.gone);
  previous = ground (arith, f.latest, f.previous, f.cleared, f.gone);
  cleared = ground (arith, f.latest, f.previous, f.cleared, f.gone);
  gone = ground (arith, f.latest, f.previous, f.cleared, f.gone, f.unscheduled);
  unscheduled = ground (arith, f.latest, f.previous, f.cleared, f.gone, f.unscheduled);
}
intake_step-Follows (visibility_hidden works) s o w f = record {
  latest = ground (arith, f.latest, f.previous, f.cleared, f.gone);
  previous = ground (arith, f.latest, f.previous, f.cleared, f.gone);
  cleared = ground (arith, f.latest, f.previous, f.cleared, f.gone);
  gone = ground (arith, f.latest, f.previous, f.cleared, f.gone, f.unscheduled);
  unscheduled = ground (arith, f.latest, f.previous, f.cleared, f.gone, f.unscheduled);
}
intake_step-Follows (unloading works) s o w f = record {
  latest = ground (arith, f.latest, f.previous, f.cleared, f.gone);
  previous = ground (arith, f.latest, f.previous, f.cleared, f.gone);
  cleared = ground (arith, f.latest, f.previous, f.cleared, f.gone);
  gone = ground (arith, f.latest, f.previous, f.cleared, f.gone, f.unscheduled);
  unscheduled = ground (arith, f.latest, f.previous, f.cleared, f.gone, f.unscheduled);
}

intake_run-Follows :
    (es : List IntakeEvent) (s : IntakeDraft) (o : Owed)
    → all clears es ≡ true
    → Follows s o
    → Follows (intake_run es s) (owed_run es o)
intake_run-Follows [] s o w f = f
intake_run-Follows (e ∷ es) s o w f =
    intake_run-Follows es (intake_step e s) (owed_step e o) (ground arith)
      (intake_step-Follows e s o (ground arith) f)

unmount-owed :
    (s : IntakeDraft) (o : Owed) → Follows s o → read_draft (unmount true s).storage ≡ owed_fields o
unfolding unmount flush
unmount-owed s o f = ground (arith, f.latest, f.previous, f.cleared, f.gone)

opened-Follows :
    (fields : IntakeFields) (was_restored : Bool) (storage : Option StoredDraft)
    → Follows (opened fields was_restored storage) (record { fields = fields; created = false })
unfolding opened
opened-Follows fields was_restored storage = record {
  latest = refl;
  previous = refl;
  cleared = refl;
  gone = λ (k : _). cc;
  unscheduled = λ (k : _). cc;
}

-- Nothing that the reader typed is lost, and nothing that was created comes back: however the page was
-- used and whichever writes failed on the way, a page whose clearings reached the storage and whose
-- last write on leaving does opens again with the newest fields, and with none where they are empty or
-- an application was created of them.
pub unmount-recovers :
    (es : List IntakeEvent) (fields : IntakeFields) (was_restored : Bool)
    (storage : Option StoredDraft)
    → all clears es ≡ true
    → read_draft (unmount true (intake_run es (opened fields was_restored storage))).storage
      ≡ owed_fields (owed_run es (record { fields = fields; created = false }))
unmount-recovers es fields was_restored storage w =
    let start : Owed = record { fields = fields; created = false } in
    unmount-owed (intake_run es (opened fields was_restored storage)) (owed_run es start) (
      intake_run-Follows es (opened fields was_restored storage) start w
        (opened-Follows fields was_restored storage))
