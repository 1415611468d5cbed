-- ===== src/Drafts/Tests.antt =====
-- The readings of the draft step at a concrete draft.
use full_stack_resume.Common.{String, ◌≡◌, refl, none, List, [], ◌∷◌, map}
use full_stack_resume.Api.Documents.{DraftClaim, DocumentOutline, canonical, bullet}
use full_stack_resume.Api.Analyses
use full_stack_resume.Api.Analyses.{Requirement}
use full_stack_resume.Api.Documents.{EditableDocument}
use full_stack_resume.Common.{true}
use full_stack_resume.Drafts.Claims.{removability}
use full_stack_resume.Drafts.Coverage.{
  RequirementCoverageRow, requirement_coverage, linked_fact_ids,
}
use full_stack_resume.Drafts.Regeneration.{
  RegenerationChange, claim_target, take_snapshot, change_state, revert_edit,
}
use full_stack_resume.Api.Documents.{outline_claims}
use full_stack_resume.Common.Sort.{sort_by}
use full_stack_resume.Common.{Bool, false, some, ◌++◌, if◌then◌else◌, lookup, insert, inl}
use full_stack_resume.Api.Operations.{Operation, regenerate_claim, succeeded, running, executing}
use full_stack_resume.Drafts.RegenerationRun.{
  RegenerationDiff, captured, bound_to, rendered, diff_step, diff_run, settle_regeneration, capture,
  bind_run,
}
use full_stack_resume.Drafts.RegenerationRun.Result.{waiting_for, settled_result, diff_run-result}
use full_stack_resume.Drafts.Editing.{
  Editing, UserAction, edits, undoes, acts, runs, editing_step, editing_run, forward, history_after,
}
use full_stack_resume.Drafts.Editing.Refines.{
  waiting_text, sheet_of, sheet_run, editing_run-refines,
}
use full_stack_resume.Drafts.Editing.Agrees.{Agrees, action-Agrees}
use full_stack_resume.Autosave.Buffer.{queue, patch_of, empty_patch, restore}
use full_stack_resume.Autosave.Machine.{initial, timer_fires, refused, status_409, step}
use full_stack_resume.Autosave.Machine.Consistent.{IsConsistent}
use full_stack_resume.Autosave.Machine.Invariant.{initial-IsConsistent}
use full_stack_resume.History.{history_limit, opened, edit, undo, apply}
use full_stack_resume.History.Outline.{claim_map, set_outline_text}
use full_stack_resume.History.Shown.{shown_text}
use full_stack_resume.Common.{add}
use full_stack_resume.Api.Analyses.{Classification}
use full_stack_resume.Drafts.Fit.{DraftFit, claim_requirements, requirements_for_facts}

drafts : Unit {0}
unfolding requirement_coverage sort_by removability change_state revert_edit outline_claims
    linked_fact_ids diff_step settle_regeneration capture bind_run take_snapshot editing_step
    forward history_after queue patch_of empty_patch restore initial step opened edit undo apply
    claim_map set_outline_text lookup insert history_limit
drafts = tt

abbrev line : String → String → DraftClaim
line id text = record {
  claim_id = id;
  claim_type = canonical;
  fact_ids = "f1" ∷ [];
  pending_reason = none;
  style = bullet;
  text = text;
}

abbrev outline_with : String → DocumentOutline
outline_with text = record {
  contacts = [];
  headline = line "top" "CV";
  sections = record { claims = line "c1" text ∷ []; name = "work" } ∷ [];
}

abbrev needs : String → List String → Requirement
needs id facts = record {
  requirement_id = id;
  text = id;
  importance = Analyses.mandatory;
  coverage = Analyses.matched;
  shortfall_severity = none;
  shortfall_reason = none;
  rationale = none;
  supporting_fact_ids = facts;
  boundary_fact_ids = [];
}

abbrev requirements : List Requirement
requirements = needs "r1" ("f1" ∷ []) ∷ needs "r2" ("f2" ∷ []) ∷ needs "r3" [] ∷ []

order_test :
    map
      (λ (r : RequirementCoverageRow). r.requirement.requirement_id)
      (requirement_coverage requirements (outline_with "one")).rows
    ≡ "r2" ∷ "r3" ∷ "r1" ∷ []
unfolding drafts
order_test = refl

abbrev rewritten : RegenerationChange
rewritten = record { claim_id = "c1"; before = line "c1" "one"; after = line "c1" "two" }

abbrev document : EditableDocument
document = record { id = "d"; document_hash = "h"; language = "en"; outline = outline_with "one" }

abbrev retitled : EditableDocument
retitled = record { id = "d"; document_hash = "h2"; language = "en"; outline = outline_with "two" }

abbrev rewriting : Bool → Operation
rewriting ended = record {
  id = "o1";
  application_id = "a1";
  operation_type = regenerate_claim;
  status = if ended then succeeded else running;
  phase = executing;
  is_terminal = ended;
  outputs = [];
  failure_code = none;
  failure_reason = none;
  safe_failure_detail = none;
  created_at = "1";
  started_at = none;
  finished_at = none;
  withheld_claims = 0;
  page_fit = none;
}

abbrev before_press : RegenerationDiff
before_press = record { pending = none; result = none }

-- A regeneration of before that has ended is on the screen when the new one is pressed.
abbrev old_run : Operation
old_run = record (rewriting true) { id = "o0" }

diff_run-result_example :
    let before = take_snapshot document.outline "h" (claim_target "c1") in
    let press =
      captured (claim_target "c1") (some document) ∷ (rendered (some document) (some old_run) ∷ [])
      ++ bound_to "o1" ∷ rendered (some document) (some (rewriting false)) ∷ [] in
    let waited = diff_run press before_press in
    let shown = diff_run (rendered (some retitled) (some (rewriting true)) ∷ []) waited in
    (waited ≡ waiting_for (some "o1") before)
    × (shown ≡ settled_result before retitled (rewriting true))
    × (diff_run (rendered (some document) (some old_run) ∷ []) shown
        ≡ settled_result before retitled (rewriting true))
unfolding drafts
diff_run-result_example =
    diff_run-result before_press (claim_target "c1") document retitled "o1"
      (rendered (some document) (some old_run) ∷ [])
      (rendered (some document) (some (rewriting false)) ∷ []) (rewriting true) (some document)
      (some old_run) refl refl refl refl

abbrev on_screen : Editing
on_screen = record {
  autosave = initial (some "a1") (some "t0") none;
  history = opened (some document) (some "k");
}

on_screen-IsConsistent : IsConsistent on_screen.autosave
on_screen-IsConsistent = initial-IsConsistent (some "a1") (some "t0") none tt

abbrev typing : UserAction
typing = edits (line "c1" "one") "uno" 1000

-- Typed, then undone: the first text is what waits for the server and what shows.
undone_test :
    let e = editing_run (acts typing ∷ runs timer_fires ∷ acts undoes ∷ []) on_screen in
    (waiting_text "c1" e.autosave ≡ some "one") × (shown_text "c1" e.history ≡ some "one")
unfolding drafts
undone_test = (refl, refl)

editing_run-refines_example :
    let es = acts typing ∷ runs timer_fires ∷ runs (refused status_409) ∷ acts undoes ∷ [] in
    sheet_of "c1" (editing_run es on_screen) ≡ sheet_run "c1" es (sheet_of "c1" on_screen)
unfolding drafts
editing_run-refines_example =
    editing_run-refines "c1"
      (acts typing ∷ runs timer_fires ∷ runs (refused status_409) ∷ acts undoes ∷ []) on_screen
      on_screen-IsConsistent refl

action-Agrees_example : Agrees "c1" (editing_step (acts typing) on_screen)
unfolding drafts
action-Agrees_example = action-Agrees "c1" typing on_screen refl refl refl (inl refl)

abbrev classified : Classification
classified = record {
  track = none;
  profile = none;
  emphasis = none;
  language = none;
  fit = none;
  gaps =
      record {
        requirement_id = "r3";
        requirement = "r3";
        severity = Analyses.warning;
        reason = "none";
      }
      ∷ record {
        requirement_id = "r2";
        requirement = "r2";
        severity = Analyses.hard;
        reason = "none";
      }
      ∷ [];
  decided = [];
  summary = none;
  keywords = [];
  requirements = requirements;
  unreadable_requirement_count = 0;
  issues = [];
}

answered_test :
    requirements_for_facts (claim_requirements (some classified)) ("f2" ∷ "f1" ∷ "f2" ∷ [])
    ≡ "r2" ∷ "r1" ∷ []
unfolding requirements_for_facts claim_requirements drafts add
answered_test = refl

abbrev fitted : DraftFit
fitted = record {
  matched = 3;
  total = 3;
  gaps =
      record {
        requirement_id = "r2";
        requirement = "r2";
        severity = Analyses.hard;
        reason = "none";
      }
      ∷ record {
        requirement_id = "r3";
        requirement = "r3";
        severity = Analyses.warning;
        reason = "none";
      }
      ∷ [];
}
