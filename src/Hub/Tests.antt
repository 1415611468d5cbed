-- ===== src/Hub/Tests.antt =====
-- The progress of a preparation at a concrete projection.
use full_stack_resume.Common.{◌≡◌, refl, some, none, true, []}
use full_stack_resume.Api.Applications.{ApplicationDetail, approved}
use full_stack_resume.Navigation
use full_stack_resume.Navigation.Encode.{encode}
use full_stack_resume.Preparation.Destinations.{resume_destination}
use full_stack_resume.Hub.{is_application_closed, continuation, render_file}

abbrev approved_cv : ApplicationDetail
approved_cv = record {
  application_id = "a1";
  active_operation = none;
  latest_operation = none;
  available_actions = [];
  blocked_actions = [];
  document_analysis_id = some "j1";
  document_hash = some "h";
  document_id = some "d1";
  job_text_updated_at = "1";
  job_text_hash = "t";
  latest_analysis = none;
  latest_analysis_id = some "j1";
  preparation_state = approved;
  recommended_action = none;
  recruitment_status = "closed";
  recruitment_timeline = [];
  review_reasons = [];
  terminal_outcome = none;
  warnings = [];
}

closed_test : is_application_closed approved_cv ≡ true
unfolding is_application_closed
closed_test = refl

continuation_test : (continuation approved_cv).label ≡ render_file
unfolding continuation resume_destination Navigation.draft encode Navigation.ready
continuation_test = refl
