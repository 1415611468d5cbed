-- ===== src/Preparation/Stages.antt =====
-- The stages of the wizard (frontend/src/features/preparation/model/workflowStages.ts) and when an
-- operation counts as under way (frontend/src/features/operations/model/operationLive.ts). The names
-- of the stages are left out.
use full_stack_resume.Common.{
  String, ◌≡◌, refl, Bool, true, false, not, ◌&&◌, ◌||◌, Option, none, some, arith, if◌then◌else◌,
  present,
}
use full_stack_resume.Api.Operations.{Operation, is_succeeded, is_terminal_operation}
use full_stack_resume.Api.Applications.{
  PreparationState, needs_analysis, ready_to_draft, draft_in_progress, approved, ready,
  ApplicationDetail, is_ready, is_past_drafting,
}
use full_stack_resume.Navigation
use full_stack_resume.Preparation.Destinations.{state_destination}

pub data WorkflowStage : Type 0 where
  intake analysis_stage draft_stage ready_stage : WorkflowStage

-- `stageForPreparationState`
abbrev pub stage_for_preparation_state : PreparationState → WorkflowStage
stage_for_preparation_state needs_analysis = analysis_stage
stage_for_preparation_state ready_to_draft = analysis_stage
stage_for_preparation_state draft_in_progress = draft_stage
stage_for_preparation_state approved = draft_stage
stage_for_preparation_state ready = ready_stage

abbrev pub draft_step : String → ApplicationDetail → Option String
draft_step id detail =
    if present detail.document_id && is_past_drafting detail.preparation_state
    then some (Navigation.draft id)
    else if present detail.latest_analysis_id && present detail.document_id
    then some (Navigation.verification id)
    else none

-- `workflowDestinations`, as the function of the stage that it is a table of
unfoldable pub workflow_destinations :
    String → Option ApplicationDetail → WorkflowStage → Option String
workflow_destinations id detail intake = none
workflow_destinations id detail analysis_stage = some (Navigation.analysis id)
workflow_destinations id none draft_stage = none
workflow_destinations id (some detail) draft_stage = draft_step id detail
workflow_destinations id none ready_stage = none
workflow_destinations id (some detail) ready_stage =
    if is_ready detail.preparation_state then some (Navigation.ready id) else none

own_stage :
    (id : String) (detail : ApplicationDetail) (state : PreparationState)
    → detail.preparation_state ≡ state
    → present detail.document_id ≡ true
    → workflow_destinations id (some detail) (stage_for_preparation_state state)
      ≡ some (state_destination id state)
unfolding workflow_destinations state_destination
own_stage id detail needs_analysis e h = refl
own_stage id detail ready_to_draft e h = refl
own_stage id detail draft_in_progress e h = ground arith
own_stage id detail approved e h = ground arith
own_stage id detail ready e h = ground arith

-- For an application with a document, the stage that the landmark marks leads to the very screen on
-- which a resumption opens when nothing runs and nothing is recommended.
pub workflow_destinations-own_stage :
    (id : String) (detail : ApplicationDetail)
    → present detail.document_id ≡ true
    → workflow_destinations id (some detail) (stage_for_preparation_state detail.preparation_state)
      ≡ some (state_destination id detail.preparation_state)
workflow_destinations-own_stage id detail h = own_stage id detail detail.preparation_state refl h

-- `OperationLiveness`; the text of a continuation is not read
pub record OperationLiveness : Type 0 where
  pub awaiting_record : Bool
  pub continuation : Option String
  pub operation : Option Operation
  pub pending : Bool
  pub settled : Bool

abbrev pub is_open : Option Operation → Bool
is_open none = false
is_open (some operation) = not (is_terminal_operation (some operation))

abbrev pub has_succeeded : Option Operation → Bool
has_succeeded none = false
has_succeeded (some operation) = is_succeeded operation.status

-- `isOperationStarting`
unfoldable pub is_operation_starting : OperationLiveness → Bool
is_operation_starting l =
    l.pending || (l.awaiting_record || (is_open l.operation || present l.continuation))

-- `isOperationLive`
unfoldable pub is_operation_live : OperationLiveness → Bool
unfolding is_operation_starting
is_operation_live l = is_operation_starting l || (has_succeeded l.operation && not l.settled)

-- Once the screen has settled, actions wait exactly while work is starting or under way.
pub is_operation_live-settled :
    (l : OperationLiveness) → l.settled ≡ true → is_operation_live l ≡ is_operation_starting l
unfolding is_operation_live
is_operation_live-settled l h = ground arith
