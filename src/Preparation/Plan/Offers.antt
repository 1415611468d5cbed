-- ===== src/Preparation/Plan/Offers.antt =====
-- Which controls workflowActionPlan.ts offers.
use full_stack_resume.Common.{
  String, ◌≡◌, refl, true, false, ◌&&◌, ◌||◌, some, List, [], ◌∷◌, arith, present, All, includes,
  lookup,
}
use full_stack_resume.Api.Applications.{ApplicationDetail, is_ready}
use full_stack_resume.Navigation
use full_stack_resume.Preparation.Destinations.{action_destination}
use full_stack_resume.Preparation.Plan.{
  DraftAction, render, approve, check, edit, DraftControl, workflow_action_plan,
}

abbrev pub action_name : DraftAction → String
action_name render = "render"
action_name approve = "approve"
action_name check = "check"
action_name edit = "edit"

-- The actions that are further along.
abbrev pub further : DraftAction → List String
further render = []
further approve = "render" ∷ []
further check = "render" ∷ "approve" ∷ []
further edit = "render" ∷ "approve" ∷ "check" ∷ []

destinations_of_draft :
    (id : String)
    → (action_destination "render" id ≡ some (Navigation.draft id))
      × (action_destination "approve" id ≡ some (Navigation.draft id))
      × (action_destination "check" id ≡ some (Navigation.draft id))
      × (action_destination "edit" id ≡ some (Navigation.draft id))
unfolding action_destination lookup
destinations_of_draft id = (refl, refl, refl, refl)

-- The draft control leads to the editor, stands for an available action, and for the furthest along
-- of the four: none further is available.
pub draft_screen_furthest :
    (detail : ApplicationDetail) (c : DraftControl)
    → (workflow_action_plan detail).draft_screen ≡ some c
    → (includes (action_name c.action) detail.available_actions ≡ true)
      × All (λ (a : String). includes a detail.available_actions ≡ false) (further c.action)
      × (c.href ≡ Navigation.draft detail.application_id)
unfolding workflow_action_plan
draft_screen_furthest detail c h = ground (arith, destinations_of_draft detail.application_id)

-- The controls are there exactly when the projection allows them: each needs its action to be
-- available, a command that is addressed to the document its hash, the rebuild a newer analysis, the
-- editor one of its four actions, and the ready step a Ready document.
pub controls_offered :
    (detail : ApplicationDetail)
    → let plan = workflow_action_plan detail in
      let offers = λ (a : String). includes a detail.available_actions in
      (present plan.analyze ≡ offers "analyze")
      × (present plan.create_draft ≡ (offers "create_draft" && present detail.document_hash))
      × (present plan.build_from_analysis ≡ (
          offers "build_from_analysis"
          && (present detail.document_hash && present detail.latest_analysis_id)))
      × (present plan.draft_screen
          ≡ (offers "render" || (offers "approve" || (offers "check" || offers "edit"))))
      × (present plan.ready ≡ is_ready detail.preparation_state)
unfolding workflow_action_plan
controls_offered detail = ground (arith, destinations_of_draft detail.application_id)
