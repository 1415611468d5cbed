-- ===== src/Preparation/Tests.antt =====
-- The readings of the preparation at concrete projections.
use full_stack_resume.Api.Analyses.Values.{Track, ProfileName, Emphasis, Language}
use full_stack_resume.Preparation.Matching.{MatchingValues, changed_keys, language_key}
use full_stack_resume.Common.{
  ℕ, String, ◌≡◌, refl, true, false, Option, none, some, List, [], ◌∷◌, map, ◌==◌, if◌then◌else◌,
  lookup,
}
use full_stack_resume.Api.Operations.{
  Operation, succeeded, analyze_job, create_draft, running, executing, completed, job_analysis,
}
use full_stack_resume.Api.Applications.{needs_analysis, draft_in_progress, ApplicationDetail}
use full_stack_resume.Api.Analyses
use full_stack_resume.Api.Analyses.{Requirement}
use full_stack_resume.Navigation
use full_stack_resume.Preparation.Destinations.{
  action_destination, ResumeProjection, resume_destination,
}
use full_stack_resume.Preparation.Plan.{DraftControl, check, workflow_action_plan}
use full_stack_resume.Preparation.ViewState.{analysis_view_state}
use full_stack_resume.Preparation.Requirements.{RequirementGroup, attention, requirement_groups}
use full_stack_resume.Common.Sort.{sort_by}
use full_stack_resume.Preparation.Following.{continued_draft}

preparation : Unit {0}
unfolding workflow_action_plan action_destination lookup analysis_view_state resume_destination
    continued_draft requirement_groups sort_by
preparation = tt

abbrev analyzed : Operation
analyzed = record {
  id = "o1";
  application_id = "a1";
  operation_type = analyze_job;
  status = succeeded;
  phase = completed;
  is_terminal = true;
  outputs = record { output_id = "j1"; output_type = job_analysis } ∷ [];
  failure_code = none;
  failure_reason = none;
  safe_failure_detail = none;
  created_at = "1";
  started_at = none;
  finished_at = some "5";
  withheld_claims = 0;
  page_fit = none;
}

abbrev drafting : Operation
drafting = record {
  id = "o2";
  application_id = "a1";
  operation_type = create_draft;
  status = running;
  phase = executing;
  is_terminal = false;
  outputs = [];
  failure_code = none;
  failure_reason = none;
  safe_failure_detail = none;
  created_at = "6";
  started_at = none;
  finished_at = none;
  withheld_claims = 0;
  page_fit = none;
}

abbrev editing : ApplicationDetail
editing = record {
  application_id = "a1";
  active_operation = some drafting;
  latest_operation = some analyzed;
  available_actions = "analyze" ∷ "edit" ∷ "check" ∷ [];
  blocked_actions = [];
  document_analysis_id = some "j1";
  document_hash = some "h";
  document_id = some "d1";
  job_text_updated_at = "1";
  job_text_hash = "t";
  latest_analysis = none;
  latest_analysis_id = some "j1";
  preparation_state = draft_in_progress;
  recommended_action = some "check";
  recruitment_status = "saved";
  recruitment_timeline = [];
  review_reasons = [];
  terminal_outcome = none;
  warnings = [];
}

abbrev checking : DraftControl
checking = record { action = check; emphasized = true; href = Navigation.draft "a1" }

-- Digits only, as far as the runs here need.
abbrev parse : String → Option ℕ
parse t = if t == "1" then some 1 else if t == "5" then some 5 else none

abbrev resuming : ResumeProjection
resuming = record {
  id = "a1";
  preparation_state = needs_analysis;
  recommended_action = some "edit";
  active_operation = some analyzed;
}

abbrev skill : String → Analyses.RequirementImportance → Analyses.RequirementCoverage → Requirement
skill id importance coverage = record {
  requirement_id = id;
  text = id;
  importance = importance;
  coverage = coverage;
  shortfall_severity = none;
  shortfall_reason = none;
  rationale = none;
  supporting_fact_ids = [];
  boundary_fact_ids = [];
}

abbrev skills : List Requirement
skills =
    skill "r1" Analyses.preferred Analyses.matched
    ∷ skill "r2" Analyses.mandatory Analyses.matched
    ∷ skill "r3" Analyses.mandatory Analyses.unsupported
    ∷ []

groups_test :
    map (λ (g : RequirementGroup). g.total) (requirement_groups skills attention) ≡ 2 ∷ 1 ∷ []
unfolding preparation
groups_test = refl

abbrev selling : MatchingValues
selling = record {
  emphasis = Emphasis.balanced_sales;
  language = Language.he;
  profile = ProfileName.sdr_bdr;
  track = Track.sales;
}

abbrev selling_in_english : MatchingValues
selling_in_english = record selling { language = Language.en }

changed_keys_test : changed_keys selling selling_in_english ≡ language_key ∷ []
unfolding changed_keys
changed_keys_test = refl
