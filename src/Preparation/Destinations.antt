-- ===== src/Preparation/Destinations.antt =====
-- Which screen each action is done on, and where a record is resumed
-- (frontend/src/features/preparation/model/actionDestinations.ts). An action is looked up among the
-- table's own keys.
use full_stack_resume.Common.{
  String, ◌≡◌, refl, true, Option, none, some, List, [], ◌∷◌, arith, ◌==◌, if◌then◌else◌, or_else,
  All, includes, lookup,
}
use mathlib.Core.Option
use text.Mathlib.TextPositions.{eq_refl}
use full_stack_resume.Api.Operations.{
  OperationType, Operation, analyze_job, create_draft, regenerate_section, regenerate_claim,
  render_document, ask_gap_questions, draft_gap_fact,
}
use full_stack_resume.Api.Applications.{
  PreparationState, needs_analysis, ready_to_draft, draft_in_progress, approved, ready,
  ApplicationDetail, ApplicationListItem,
}
use full_stack_resume.Navigation

abbrev pub destinations : List (String × (String → String))
destinations =
    ("analyze", Navigation.analysis)
    ∷ ("edit_matching_configuration", Navigation.matching)
    ∷ ("ask_gap_questions", Navigation.analysis)
    ∷ ("build_from_analysis", Navigation.verification)
    ∷ ("create_draft", Navigation.verification)
    ∷ ("edit", Navigation.draft)
    ∷ ("confirm_and_use_fact", Navigation.draft)
    ∷ ("regenerate_claim", Navigation.draft)
    ∷ ("regenerate_section", Navigation.draft)
    ∷ ("check", Navigation.draft)
    ∷ ("approve", Navigation.draft)
    ∷ ("render", Navigation.draft)
    ∷ ("submit", Navigation.ready)
    ∷ ("download_pdf", Navigation.ready)
    ∷ []

-- `actionDestination`
unfoldable pub action_destination : String → String → Option String
action_destination action id =
    Option.map (λ (path : String → String). path id) (lookup action destinations)

-- the fields that a resumption reads
pub record ResumeProjection : Type 0 where
  pub id : String
  pub preparation_state : PreparationState
  pub recommended_action : Option String
  pub active_operation : Option Operation

-- `operationActions`
abbrev pub operation_action : OperationType → String
operation_action analyze_job = "analyze"
operation_action create_draft = "create_draft"
operation_action regenerate_section = "regenerate_section"
operation_action regenerate_claim = "regenerate_claim"
operation_action render_document = "render"
operation_action ask_gap_questions = "ask_gap_questions"
operation_action draft_gap_fact = "ask_gap_questions"

-- the screen of the application's own running work
unfoldable pub running_destination : String → Option Operation → Option String
running_destination id none = none
running_destination id (some operation) =
    if operation.application_id == id
    then action_destination (operation_action operation.operation_type) id
    else none

unfoldable pub recommended_destination : String → Option String → Option String
recommended_destination id none = none
recommended_destination id (some action) = action_destination action id

-- what the document already is
unfoldable pub state_destination : String → PreparationState → String
state_destination id ready = Navigation.ready id
state_destination id draft_in_progress = Navigation.draft id
state_destination id approved = Navigation.draft id
state_destination id needs_analysis = Navigation.analysis id
state_destination id ready_to_draft = Navigation.analysis id

-- `resumeDestination`
unfoldable pub resume_destination : ResumeProjection → String
unfolding running_destination recommended_destination state_destination
resume_destination a = or_else (running_destination a.id a.active_operation) (
    or_else (recommended_destination a.id a.recommended_action)
      (state_destination a.id a.preparation_state))

unfoldable pub preparation_resume_destination : ApplicationListItem → String
preparation_resume_destination item = resume_destination (record {
  id = item.id;
  preparation_state = item.preparation_state;
  recommended_action = item.recommended_action;
  active_operation = item.active_operation;
})

unfoldable pub preparation_resume_destination_from_detail : String → ApplicationDetail → String
preparation_resume_destination_from_detail id detail = resume_destination (record {
  id = id;
  preparation_state = detail.preparation_state;
  recommended_action = detail.recommended_action;
  active_operation = detail.active_operation;
})

pub data PreparationScreen : Type 0 where
  preparation draft ready_step : PreparationScreen

unfoldable pub screen_path : PreparationScreen → String → String
screen_path draft id = Navigation.draft id
screen_path ready_step id = Navigation.ready id
screen_path preparation id = Navigation.verification id

-- The screens of one application that a resumption may open.
abbrev pub steps : String → List String
steps id =
    Navigation.analysis id
    ∷ Navigation.matching id
    ∷ Navigation.verification id
    ∷ Navigation.draft id
    ∷ Navigation.ready id
    ∷ []

module _ (id : String) where
  analysis_in : includes (Navigation.analysis id) (steps id) ≡ true
  analysis_in = ground (arith, eq_refl (Navigation.analysis id))

  matching_in : includes (Navigation.matching id) (steps id) ≡ true
  matching_in = ground (arith, eq_refl (Navigation.matching id))

  verification_in : includes (Navigation.verification id) (steps id) ≡ true
  verification_in = ground (arith, eq_refl (Navigation.verification id))

  draft_in : includes (Navigation.draft id) (steps id) ≡ true
  draft_in = ground (arith, eq_refl (Navigation.draft id))

  ready_in : includes (Navigation.ready id) (steps id) ≡ true
  ready_in = ground (arith, eq_refl (Navigation.ready id))

  -- A path of a table whose paths are all among the steps is.
  table_in_steps :
      (action : String) (table : List (String × (String → String))) (to : String)
      → All (λ (e : String × (String → String)). includes (e.1 id) (steps id) ≡ true) table
      → Option.map (λ (path : String → String). path id) (lookup action table) ≡ some to
      → includes to (steps id) ≡ true
  unfolding lookup
  table_in_steps action [] to a h = cc
  table_in_steps action ((k, path) ∷ table) to (p, a) h =
      ground (arith, table_in_steps action table to a)

  pub action_destination-in_steps :
      (action to : String) → action_destination action id ≡ some to → includes to (steps id) ≡ true
  unfolding action_destination
  action_destination-in_steps action to h =
      table_in_steps action destinations to
        (
          analysis_in,
          (
            matching_in,
            (
              analysis_in,
              (
                verification_in,
                (
                  verification_in,
                  (
                    draft_in,
                    (
                      draft_in,
                      (
                        draft_in,
                        (draft_in, (draft_in, (draft_in, (draft_in, (ready_in, (ready_in, tt)))))),
                      ),
                    ),
                  ),
                ),
              ),
            ),
          ),
        )
        h

  state_destination-in_steps :
      (state : PreparationState) → includes (state_destination id state) (steps id) ≡ true
  unfolding state_destination
  state_destination-in_steps needs_analysis = analysis_in
  state_destination-in_steps ready_to_draft = analysis_in
  state_destination-in_steps draft_in_progress = draft_in
  state_destination-in_steps approved = draft_in
  state_destination-in_steps ready = ready_in

  recommended-in_steps :
      (o : Option String) (to : String)
      → recommended_destination id o ≡ some to
      → includes to (steps id) ≡ true
  unfolding recommended_destination
  recommended-in_steps none to h = cc
  recommended-in_steps (some action) to h = action_destination-in_steps action to h

  running-in_steps :
      (o : Option Operation) (to : String)
      → running_destination id o ≡ some to
      → includes to (steps id) ≡ true
  unfolding running_destination
  running-in_steps none to h = cc
  running-in_steps (some op) to h =
      ground (arith, action_destination-in_steps (operation_action op.operation_type) to)

  or_else-in_steps :
      (o : Option String) (d : String)
      → ((to : String) → o ≡ some to → includes to (steps id) ≡ true)
      → includes d (steps id) ≡ true
      → includes (or_else o d) (steps id) ≡ true
  or_else-in_steps none d h k = k
  or_else-in_steps (some to) d h k = h to refl

-- Whatever runs, is recommended or is already there, a record is resumed on one of the five screens
-- of its own application.
pub resume_destination-in_steps :
    (a : ResumeProjection) → includes (resume_destination a) (steps a.id) ≡ true
unfolding resume_destination
resume_destination-in_steps a =
    or_else-in_steps a.id (running_destination a.id a.active_operation) _
      (running-in_steps a.id a.active_operation)
      (or_else-in_steps a.id (recommended_destination a.id a.recommended_action) _
        (recommended-in_steps a.id a.recommended_action)
        (state_destination-in_steps a.id a.preparation_state))
