-- ===== src/Preparation/ViewState.antt =====
-- The one state that the preparation page shows
-- (frontend/src/features/preparation/model/analysisViewState.ts, and its identical copy in
-- application-detail/model). `Date.parse` is the parameter `parse`: the milliseconds of a time, or
-- none for what is not one.
use mathlib.Core.Option
use full_stack_resume.Common.{
  ℕ, String, ◌≡◌, refl, Bool, true, false, not, ◌&&◌, Option, none, some, List, arith, ◌==◌, ltb,
  leb, if◌then◌else◌, present, find,
}
use full_stack_resume.Api.Operations.{
  Operation, OperationOutput, is_succeeded, is_analyze_job, is_job_analysis,
}
use full_stack_resume.Api.Analyses.{JobAnalysis}
use full_stack_resume.Api.Applications.{ApplicationDetail}

pub data AnalysisViewState : Type 0 where
  loading processing analysis_failed content : AnalysisViewState

abbrev pub is_failed_view : AnalysisViewState → Bool
is_failed_view analysis_failed = true
is_failed_view _ = false

-- Two times are compared only when both are finite.
abbrev pub is_after : Option ℕ → Option ℕ → Bool
is_after (some a) (some b) = ltb b a
is_after _ _ = false

abbrev pub is_not_before : Option ℕ → Option ℕ → Bool
is_not_before (some a) (some b) = leb b a
is_not_before _ _ = false

-- `detail.latest_analysis_id === id`
abbrev pub is_latest : String → Option String → Bool
is_latest id none = false
is_latest id (some latest) = latest == id

-- `activatedAnalysisId`
abbrev pub analysis_output : List OperationOutput → Option String
analysis_output outputs =
    Option.map (λ (o : OperationOutput). o.output_id)
      (find (λ (o : OperationOutput). is_job_analysis o.output_type) outputs)

module _ (parse : String → Option ℕ) where
  abbrev pub time : Option String → Option ℕ
  time none = none
  time (some text) = parse text

  -- `activeAnalysisTime`
  abbrev pub active_time : Option JobAnalysis → Option String → Option ℕ
  active_time none latest = none
  active_time (some analysis) latest =
      if is_latest analysis.id latest then parse analysis.created_at else none

  -- `editedTime > finishedTime`
  abbrev pub edited_since : ApplicationDetail → Operation → Bool
  edited_since detail operation =
      is_after (parse detail.job_text_updated_at) (time operation.finished_at)

  -- the screen of a succeeded analysis
  unfoldable pub succeeded_state : ApplicationDetail → Operation → Option String → AnalysisViewState
  succeeded_state detail operation none =
      if present detail.latest_analysis_id then content else processing
  succeeded_state detail operation (some activated) =
      if is_latest activated detail.latest_analysis_id
      then content
      else if is_not_before (active_time detail.latest_analysis detail.latest_analysis_id)
          (time operation.finished_at)
      then content
      else processing

  -- `analysisViewState`
  unfoldable pub analysis_view_state :
      Bool → Option ApplicationDetail → Option Operation → AnalysisViewState
  unfolding succeeded_state
  analysis_view_state queued none operation = if queued then processing else loading
  analysis_view_state queued (some detail) none = content
  analysis_view_state queued (some detail) (some operation) =
      if not (is_analyze_job operation.operation_type)
      then content
      else if not operation.is_terminal
      then processing
      else if edited_since detail operation
      then content
      else if not (is_succeeded operation.status)
      then analysis_failed
      else succeeded_state detail operation (analysis_output operation.outputs)

  active_time-present :
      (analysis : Option JobAnalysis) (latest : Option String) (finished : Option ℕ)
      → is_not_before (active_time analysis latest) finished ≡ true
      → present latest ≡ true
  active_time-present none latest finished h = cc
  active_time-present (some a) none finished h = cc
  active_time-present (some a) (some l) finished h = refl

  is_latest-present :
      (id : String) (latest : Option String) → is_latest id latest ≡ true → present latest ≡ true
  is_latest-present id none h = cc
  is_latest-present id (some l) h = refl

  succeeded_state-present :
      (detail : ApplicationDetail) (operation : Operation) (activated : Option String)
      → succeeded_state detail operation activated ≡ content
      → present detail.latest_analysis_id ≡ true
  unfolding succeeded_state
  succeeded_state-present detail operation none h = ground arith
  succeeded_state-present detail operation (some a) h = ground (
    arith,
    is_latest-present a detail.latest_analysis_id,
    active_time-present detail.latest_analysis detail.latest_analysis_id
        (time operation.finished_at),
  )

  -- While an analysis run is watched and the posting was not edited after it finished, the content is
  -- shown only once the run has ended, succeeded, and the projection carries an analysis.
  pub content-has_analysis :
      (queued : Bool) (detail : ApplicationDetail) (operation : Operation)
      → is_analyze_job operation.operation_type ≡ true
      → edited_since detail operation ≡ false
      → analysis_view_state queued (some detail) (some operation) ≡ content
      → (operation.is_terminal ≡ true)
        × (is_succeeded operation.status ≡ true)
        × (present detail.latest_analysis_id ≡ true)
  unfolding analysis_view_state
  content-has_analysis queued detail operation a e h =
      ground (arith, succeeded_state-present detail operation (analysis_output operation.outputs))

  -- A watched analysis run that ended without success, the posting not edited since.
  abbrev pub failed_run : Option ApplicationDetail → Option Operation → Bool
  failed_run (some detail) (some operation) =
      is_analyze_job operation.operation_type
      && operation.is_terminal
      && not (is_succeeded operation.status)
      && not (edited_since detail operation)
  failed_run _ _ = false

  succeeded_state-is_failed :
      (detail : ApplicationDetail) (operation : Operation) (activated : Option String)
      → is_failed_view (succeeded_state detail operation activated) ≡ false
  unfolding succeeded_state
  succeeded_state-is_failed detail operation none = ground arith
  succeeded_state-is_failed detail operation (some a) = ground arith

  -- A failure is shown exactly for a watched analysis run that ended without success and whose
  -- posting was not edited since.
  pub failed-exact :
      (queued : Bool) (detail : Option ApplicationDetail) (operation : Option Operation)
      → is_failed_view (analysis_view_state queued detail operation) ≡ failed_run detail operation
  unfolding analysis_view_state
  failed-exact queued none o = ground arith
  failed-exact queued (some d) none = refl
  failed-exact queued (some d) (some o) =
      ground (arith, succeeded_state-is_failed d o (analysis_output o.outputs))
