-- ===== src/Preparation/Plan/Unbuilt.antt =====
-- When workflowActionPlan.ts reports a recommendation that has no screen.
use full_stack_resume.Common.{
  All-append, String, ◌≡◌, refl, Bool, true, false, not, ◌&&◌, Option, none, some, List, [], ◌∷◌,
  arith, eq_iff, if◌then◌else◌, present, All, includes, lookup,
}
use full_stack_resume.Api.Applications.{ApplicationDetail}
use full_stack_resume.Preparation.Destinations.{action_destination}
use full_stack_resume.Preparation.Plan.{
  analyze_control, create_on, build_on, destination_for, handled_here, unbuilt,
  workflow_action_plan,
}

module _ (id : String) where
  abbrev Built : String → Type 0
  Built action = present (action_destination action id) ≡ true

  Built-if : (b : Bool) (action : String) → Built action → All Built (if b then action ∷ [] else [])
  Built-if true action p = (p, tt)
  Built-if false action p = tt

  Built-includes : (xs : List String) (r : String) → All Built xs → includes r xs ≡ true → Built r
  Built-includes [] r a h = cc
  Built-includes (x ∷ xs) r (p, a) h = ground (arith, eq_iff x r, Built-includes xs r a)

handled_here-Built :
    (detail : ApplicationDetail) → All (Built detail.application_id) (handled_here detail)
unfolding handled_here action_destination lookup
handled_here-Built detail =
    let id = detail.application_id in
    All-append (Built id) _ _
      (All-append (Built id) _ _
        (All-append (Built id) _ _
          (All-append (Built id) _ _
            (All-append (Built id) _ _
              (All-append (Built id) _ _
                (Built-if id (present (analyze_control detail)) "analyze" refl)
                (Built-if id (present (create_on detail detail.document_hash)) "create_draft" refl))
              (Built-if id
                (present (build_on detail detail.document_hash detail.latest_analysis_id))
                "build_from_analysis" refl))
            (Built-if id (present (destination_for detail "edit")) "edit" refl))
          (Built-if id (present (destination_for detail "check")) "check" refl))
        (Built-if id (present (destination_for detail "approve")) "approve" refl))
      (Built-if id (present (destination_for detail "render")) "render" refl)

-- What is expected of the report.
abbrev pub without_screen : String → Option String → Option String
without_screen id none = none
without_screen id (some r) = if present (action_destination r id) then none else some r

settled :
    (here there : Bool) (r : String)
    → (here ≡ true → there ≡ true)
    → (if not here && not there then some r else none) ≡ (if there then none else some r)
settled here there r h = ground arith

unbuilt_lem :
    (detail : ApplicationDetail) (o : Option String)
    → unbuilt detail o ≡ without_screen detail.application_id o
unfolding unbuilt
unbuilt_lem detail none = refl
unbuilt_lem detail (some r) =
    settled (includes r (handled_here detail)) _ r
      (Built-includes detail.application_id (handled_here detail) r (handled_here-Built detail))

-- A recommendation is reported as unbuilt exactly when no screen does its action: the controls of
-- this screen never hide one, since every action they stand for has a destination.
pub unbuilt-exact :
    (detail : ApplicationDetail)
    → (workflow_action_plan detail).unbuilt_recommendation
      ≡ without_screen detail.application_id detail.recommended_action
unfolding workflow_action_plan
unbuilt-exact detail = unbuilt_lem detail detail.recommended_action
