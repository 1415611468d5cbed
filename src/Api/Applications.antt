-- ===== src/Api/Applications.antt =====
-- The projection of one Application and its row on the board (openapi/types.ts). Fields that no
-- modelled function reads are left out.
use full_stack_resume.Common.{String, Bool, true, false, Option, List}
use full_stack_resume.Api.Operations.{Operation}
use full_stack_resume.Api.Analyses.{JobAnalysis, Classification, classification_from}

pub data PreparationState : Type 0 where
  needs_analysis ready_to_draft draft_in_progress approved ready : PreparationState

pub record BlockedAction : Type 0 where
  pub action : String
  pub reasons : List String

-- `ReasonResponse` and `WarningResponse`; the references are a dictionary of ids.
pub record Notice : Type 0 where
  pub code : String
  pub entity_references : List (String × String)
  pub message : String

pub data TimelineItemType : Type 0 where
  status_transition status_correction next_action submission : TimelineItemType

pub record RecruitmentTimelineItem : Type 0 where
  pub id : String
  pub item_type : TimelineItemType
  pub occurred_at : String
  pub from_status : Option String
  pub to_status : Option String
  pub next_action : Option String
  pub next_action_date : Option String
  pub corrects_event_id : Option String
  pub is_internal : Bool

-- `application_id` is `application.id`, and `job_text_updated_at` that of `job_posting`.
pub record ApplicationDetail : Type 0 where
  pub application_id : String
  pub active_operation : Option Operation
  pub latest_operation : Option Operation
  pub available_actions : List String
  pub blocked_actions : List BlockedAction
  pub document_analysis_id : Option String
  pub document_hash : Option String
  pub document_id : Option String
  pub job_text_updated_at : String
  pub job_text_hash : String
  pub latest_analysis : Option JobAnalysis
  pub latest_analysis_id : Option String
  pub preparation_state : PreparationState
  pub recommended_action : Option String
  pub recruitment_status : String
  pub recruitment_timeline : List RecruitmentTimelineItem
  pub review_reasons : List Notice
  pub terminal_outcome : Option String
  pub warnings : List Notice

pub record ApplicationListItem : Type 0 where
  pub id : String
  pub active_operation : Option Operation
  pub latest_operation : Option Operation
  pub company : String
  pub target_role : String
  pub is_closed : Bool
  pub next_action : Option String
  pub next_action_date : Option String
  pub preparation_state : PreparationState
  pub recommended_action : Option String
  pub recruitment_status : String
  pub review_reasons : List Notice
  pub warnings : List Notice

-- `preparation_state === "ready"`
abbrev pub is_ready : PreparationState → Bool
is_ready ready = true
is_ready _ = false

-- neither `needs_analysis` nor `ready_to_draft`
abbrev pub is_past_drafting : PreparationState → Bool
is_past_drafting needs_analysis = false
is_past_drafting ready_to_draft = false
is_past_drafting _ = true

-- `classificationFromAnalysis(detail)`
unfoldable pub classification_from_analysis : ApplicationDetail → Option Classification
unfolding classification_from
classification_from_analysis detail =
    classification_from detail.latest_analysis detail.latest_analysis_id detail.job_text_hash
