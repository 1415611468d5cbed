-- ===== src/Preparation/Following.antt =====
-- Following the server's automatic draft (frontend/src/features/preparation/model/autoDraft.ts).
-- `Settings` stands as its one field that is read, `auto_generate_when_review_not_required`.
use full_stack_resume.Common.{
  String, ◌≡◌, refl, Bool, true, false, not, ◌&&◌, ◌||◌, Option, none, some, arith, ◌==◌, eq_iff,
  if◌then◌else◌, present, any,
}
use full_stack_resume.Api.Operations.{
  Operation, OperationType, analyze_job, create_draft, regenerate_section, regenerate_claim,
  render_document, ask_gap_questions, draft_gap_fact, OperationOutput, is_succeeded, is_analyze_job,
  is_create_draft, is_job_analysis,
}
use full_stack_resume.Api.Applications.{ApplicationDetail}

-- `settings?.auto_generate_when_review_not_required === true`
abbrev pub opted_in : Option Bool → Bool
opted_in none = false
opted_in (some b) = b

abbrev pub is_running : (Operation → Bool) → Option Operation → Bool
is_running p none = false
is_running p (some operation) = p operation

-- `autoDraftIsAnticipated`
unfoldable pub auto_draft_is_anticipated : Option Bool → Option ApplicationDetail → Bool
auto_draft_is_anticipated settings none = false
auto_draft_is_anticipated settings (some detail) =
    opted_in settings
    && not (present detail.document_id)
    && is_running (λ (o : Operation). is_analyze_job o.operation_type) detail.active_operation

-- `output.output_id === detail.document_analysis_id`
abbrev pub same_id : String → Option String → Bool
same_id id none = false
same_id id (some pinned) = id == pinned

-- the document is pinned to an analysis of this run
abbrev pub created_document : Operation → ApplicationDetail → Bool
created_document operation detail =
    any
      (λ (o : OperationOutput).
        is_job_analysis o.output_type && same_id o.output_id detail.document_analysis_id)
      operation.outputs

-- `continuedDraft`
unfoldable pub continued_draft : Option Operation → Option ApplicationDetail → Option Operation
continued_draft (some operation) (some detail) =
    if not (is_analyze_job operation.operation_type)
      || (not (is_succeeded operation.status)
          || (not (detail.application_id == operation.application_id)
              || (not (
                    is_running (λ (o : Operation). is_create_draft o.operation_type)
                      detail.active_operation)
                  || not (created_document operation detail))))
    then none
    else detail.active_operation
continued_draft _ _ = none

-- `continuationAwaitsProjection`
unfoldable pub continuation_awaits_projection :
    Option Operation → Option Bool → Option ApplicationDetail → Bool
continuation_awaits_projection (some operation) settings (some detail) =
    opted_in settings
    && is_analyze_job operation.operation_type
    && is_succeeded operation.status
    && detail.application_id == operation.application_id
    && not (present detail.document_id)
continuation_awaits_projection _ _ _ = false

draft_not_analysis : (t : OperationType) → is_create_draft t ≡ true → is_analyze_job t ≡ false
draft_not_analysis create_draft h = refl
draft_not_analysis analyze_job h = cc
draft_not_analysis regenerate_section h = cc
draft_not_analysis regenerate_claim h = cc
draft_not_analysis render_document h = cc
draft_not_analysis ask_gap_questions h = cc
draft_not_analysis draft_gap_fact h = cc

own_lem :
    (settings : Option Bool) (operation : Operation) (detail : ApplicationDetail)
    (followed : Operation) (o : Option Operation)
    → detail.active_operation ≡ o
    → continued_draft (some operation) (some detail) ≡ some followed
    → (detail.active_operation ≡ some followed)
      × (is_create_draft followed.operation_type ≡ true)
      × (is_analyze_job operation.operation_type ≡ true)
      × (is_succeeded operation.status ≡ true)
      × (detail.application_id ≡ operation.application_id)
      × (created_document operation detail ≡ true)
      × (auto_draft_is_anticipated settings (some detail) ≡ false)
unfolding continued_draft auto_draft_is_anticipated
own_lem settings operation detail followed none e h = ground arith
own_lem settings operation detail followed (some o) e h = ground (
  arith,
  draft_not_analysis o.operation_type,
  eq_iff detail.application_id operation.application_id,
)

-- What is followed into a draft is the application's own active `create_draft`, after a succeeded
-- analysis of that application whose output the document is pinned to; and no draft is then still
-- anticipated.
pub continued_draft-own :
    (settings : Option Bool) (operation : Operation) (detail : ApplicationDetail)
    (followed : Operation)
    → continued_draft (some operation) (some detail) ≡ some followed
    → (detail.active_operation ≡ some followed)
      × (is_create_draft followed.operation_type ≡ true)
      × (is_analyze_job operation.operation_type ≡ true)
      × (is_succeeded operation.status ≡ true)
      × (detail.application_id ≡ operation.application_id)
      × (created_document operation detail ≡ true)
      × (auto_draft_is_anticipated settings (some detail) ≡ false)
continued_draft-own settings operation detail followed h =
    own_lem settings operation detail followed detail.active_operation refl h
