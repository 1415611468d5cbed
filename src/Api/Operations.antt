-- ===== src/Api/Operations.antt =====
-- Operations, the durable background runs (openapi/types.ts, frontend/src/api/operations.ts).
-- Of the response records the fields stand here that the modelled functions read.
use full_stack_resume.Common.{ℕ, String, Bool, true, false, Option, none, some, List}

pub data OperationStatus : Type 0 where
  queued running succeeded failed cancelled interrupted : OperationStatus

pub data OperationType : Type 0 where
  analyze_job create_draft regenerate_section regenerate_claim : OperationType
  render_document ask_gap_questions draft_gap_fact : OperationType

pub data OperationPhase : Type 0 where
  queued waiting_for_application waiting_for_render_slot executing completed : OperationPhase

pub data OperationFailureCode : Type 0 where
  source_changed provider_timeout provider_rate_limited : OperationFailureCode
  provider_quota_exhausted provider_unavailable provider_refused : OperationFailureCode
  invalid_output claim_review_uncertain claim_review_unsupported : OperationFailureCode
  render_failed browser_start_failed missing_fact_rendering : OperationFailureCode
  validation_execution_failed cancelled_before_activation : OperationFailureCode
  provider_not_configured precondition_failed infrastructure_failed : OperationFailureCode

pub data OutputType : Type 0 where
  job_analysis cv_document gap_question fact : OutputType

pub record OperationOutput : Type 0 where
  pub output_id : String
  pub output_type : OutputType

-- The union of failure reasons, told apart by `code`: the refused draft of a fact with its
-- optional list, and any other.
pub data FailureReason : Type 0 where
  fact_draft : Option (List String) → FailureReason
  other : (code : String) → FailureReason

pub data PageFitStatus : Type 0 where
  fits trimmed over unavailable : PageFitStatus

-- `withheld_claims` stands as the number of the lines that it names, 0 where it is absent, and
-- `page_fit` as its status.
pub record Operation : Type 0 where
  pub id : String
  pub application_id : String
  pub operation_type : OperationType
  pub status : OperationStatus
  pub phase : OperationPhase
  pub is_terminal : Bool
  pub outputs : List OperationOutput
  pub failure_code : Option OperationFailureCode
  pub failure_reason : Option FailureReason
  pub safe_failure_detail : Option String
  pub created_at : String
  pub started_at : Option String
  pub finished_at : Option String
  pub withheld_claims : ℕ
  pub page_fit : Option PageFitStatus

-- `status === "…"`, `operation_type === "…"`
abbrev pub is_succeeded : OperationStatus → Bool
is_succeeded succeeded = true
is_succeeded _ = false

abbrev pub is_failed : OperationStatus → Bool
is_failed failed = true
is_failed _ = false

abbrev pub is_interrupted : OperationStatus → Bool
is_interrupted interrupted = true
is_interrupted _ = false

abbrev pub is_analyze_job : OperationType → Bool
is_analyze_job analyze_job = true
is_analyze_job _ = false

abbrev pub is_create_draft : OperationType → Bool
is_create_draft create_draft = true
is_create_draft _ = false

abbrev pub is_ask_gap_questions : OperationType → Bool
is_ask_gap_questions ask_gap_questions = true
is_ask_gap_questions _ = false

abbrev pub is_job_analysis : OutputType → Bool
is_job_analysis job_analysis = true
is_job_analysis _ = false

-- `isTerminalOperation`
abbrev pub is_terminal_operation : Option Operation → Bool
is_terminal_operation none = false
is_terminal_operation (some operation) = operation.is_terminal
