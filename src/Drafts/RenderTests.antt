-- ===== src/Drafts/RenderTests.antt =====
-- The render of an approved document at a concrete projection.
use full_stack_resume.Common.{◌≡◌, refl, true, false, none, some, List, [], ◌∷◌, any, inl, inr}
use full_stack_resume.Api.Applications.{ApplicationDetail, approved}
use full_stack_resume.Drafts.RenderDocument.{
  RenderInput, approved_hash, in_flight, RenderEvent, rendered, command_ended, render_step,
  render_run, unrendered, starts, sent_once, render_run-once,
}

abbrev approved_cv : ApplicationDetail
approved_cv = record {
  application_id = "a1";
  active_operation = none;
  latest_operation = none;
  available_actions = [];
  blocked_actions = [];
  document_analysis_id = some "j1";
  document_hash = some "h";
  document_id = some "d1";
  job_text_updated_at = "1";
  job_text_hash = "t";
  latest_analysis = none;
  latest_analysis_id = some "j1";
  preparation_state = approved;
  recommended_action = none;
  recruitment_status = "applied";
  recruitment_timeline = [];
  review_reasons = [];
  terminal_outcome = none;
  warnings = [];
}

abbrev unread : RenderInput
unread = record { auto_start = true; detail = none; rendering = false }

abbrev read : RenderInput
read = record { auto_start = true; detail = some approved_cv; rendering = false }

abbrev screen : List RenderEvent
screen = rendered unread ∷ rendered read ∷ rendered read ∷ command_ended false ∷ rendered read ∷ []

run_test : (render_run screen unrendered).commands ≡ "h" ∷ []
unfolding render_step approved_hash
run_test = refl

render_run-once_example :
    ((render_run screen unrendered).commands ≡ sent_once (any starts screen) "h")
    × (in_flight read unrendered ≡ true)
    × (in_flight unread (render_run (rendered read ∷ rendered read ∷ []) unrendered) ≡ true)
render_run-once_example =
    unfold approved_hash in
    render_run-once screen (rendered read ∷ []) "h" read unread
      (inl refl, (inr refl, (inr refl, (tt, (inr refl, tt))))) (tt, tt) refl refl
