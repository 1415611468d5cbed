-- ===== src/Recruitment/Tests.antt =====
-- The ladder, the lanes and the update form at concrete statuses and commands.
use full_stack_resume.Common.{
  String, ◌≡◌, refl, ◌⊎◌, none, some, [], arith, ◌==◌, if◌then◌else◌, ◌&&◌, ◌||◌, not, inl, inr,
  Bool-cases,
}
use full_stack_resume.Common.Text.{trim}
use full_stack_resume.Recruitment.{recruitment_rung}
use full_stack_resume.Recruitment.Update.{
  RecruitmentDetail, RecruitmentUpdateFields, TrackingCommand, transition_status, set_next_action,
  update_notes, has_next_action_change, has_changes, Saved, saved, failed, save,
}
use full_stack_resume.Recruitment.Update.Saving.{
  Tracked, applied, TrackingServer, detail_of, with_status, with_action, with_notes, sets_action,
  sets_notes, save_accepted,
}

closed_test : (recruitment_rung "rejected").index ≡ none
unfolding recruitment_rung
closed_test = refl

-- A server that refuses a status it does not know, and whose answer to another is lost on its way.
abbrev respond : TrackingCommand → Tracked → Saved Tracked String
respond (transition_status target reason) t =
    if target == "hired"
    then failed "INVALID" t
    else if target == "offer"
    then failed "NETWORK_UNAVAILABLE" (record t { status = target })
    else saved (record t { status = target })
respond c t = saved (applied c t)

respond_accepted :
    (c : TrackingCommand) (s s' : Tracked) → respond c s ≡ saved s' → s' ≡ applied c s
respond_accepted (transition_status target reason) s s' h = ground (arith, h)
respond_accepted (set_next_action a d) s s' h = cc
respond_accepted (update_notes n e) s s' h = cc

respond_refused :
    (c : TrackingCommand) (s s' : Tracked) (e : String)
    → respond c s ≡ failed e s'
    → (s' ≡ s) ⊎ (s' ≡ applied c s)
respond_refused (transition_status target reason) s s' e h = elim (Bool-cases (target == "hired")) [
  | inl k ↦ inl (ground (arith, h, k))
  | inr k ↦ inr (ground (arith, h, k))
]
respond_refused (set_next_action a d) s s' e h = cc
respond_refused (update_notes n e') s s' e h = cc

abbrev server : TrackingServer
server = record {
  State = Tracked;
  Error = String;
  deliver = respond;
  view = λ s. s;
  accepted = respond_accepted;
  refused = respond_refused;
}

abbrev applied_to : Tracked
applied_to = record { status = "applied"; next_action = none; next_action_date = none; notes = "" }

abbrev filled_in : String → RecruitmentUpdateFields
filled_in status = record {
  next_action = " call ";
  next_action_date = "2026-05-01";
  notes = "";
  reason = "";
  target_status = status;
}

abbrev interviewing : Tracked
interviewing = record {
  status = "interview";
  next_action = some "call";
  next_action_date = some "2026-05-01";
  notes = "";
}

-- The form has read an application whose notes have changed since.
abbrev stale : RecruitmentDetail
stale = detail_of [] applied_to

abbrev moved_on : Tracked
moved_on = record applied_to { notes = "called" }

abbrev interviewing_moved : Tracked
interviewing_moved = record interviewing { notes = "called" }

save_test : save respond stale (filled_in "interview") moved_on ≡ saved interviewing_moved
unfolding save has_next_action_change trim
save_test = refl

save_accepted_example :
    let v = filled_in "interview" in
    (interviewing_moved ≡ with_notes stale v (with_action stale v (with_status v moved_on)))
    × (has_changes (detail_of [] interviewing_moved) (record v { target_status = "" }) ≡ (
        not (sets_action stale v) && sets_action (detail_of [] moved_on) v
        || not (sets_notes stale v) && sets_notes (detail_of [] moved_on) v))
save_accepted_example =
    save_accepted server stale (filled_in "interview") [] moved_on interviewing_moved save_test
