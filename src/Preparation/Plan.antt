-- ===== src/Preparation/Plan.antt =====
-- What the preparation screen offers (frontend/src/features/preparation/model/workflowActionPlan.ts)
-- and the destinations of its stages (workflowStages.ts). The Hebrew words of labels are left out.
pub mod Offers
pub mod Unbuilt
use full_stack_resume.Common.{
  ◌+◌, String, Bool, true, false, not, ◌&&◌, ◌||◌, Option, none, some, List, [], ◌∷◌, ◌++◌, map,
  ◌==◌, if◌then◌else◌, present, first_of_two, includes,
}
use full_stack_resume.Api.Operations.{create_draft}
use full_stack_resume.Api.Applications.{ready, ApplicationDetail, is_ready, is_past_drafting}
use full_stack_resume.Navigation
use mathlib.Core.Option
use full_stack_resume.Preparation.Destinations.{action_destination}

pub data DraftAction : Type 0 where
  render approve check edit : DraftAction

pub record AnalyzeControl : Type 0 where
  pub emphasized : Bool
  pub reanalysis : Bool

pub record CreateControl : Type 0 where
  pub document_hash : String
  pub emphasized : Bool

pub record BuildControl : Type 0 where
  pub analysis_id : String
  pub discards_content : Bool
  pub document_hash : String
  pub emphasized : Bool

pub record DraftControl : Type 0 where
  pub action : DraftAction
  pub emphasized : Bool
  pub href : String

pub record ReadyControl : Type 0 where
  pub emphasized : Bool
  pub href : String

pub record WorkflowActionPlan : Type 0 where
  pub analyze : Option AnalyzeControl
  pub create_draft : Option CreateControl
  pub build_from_analysis : Option BuildControl
  pub draft_screen : Option DraftControl
  pub ready : Option ReadyControl
  pub unbuilt_recommendation : Option String

-- `recommended === action`
abbrev pub is_recommended : String → Option String → Bool
is_recommended action none = false
is_recommended action (some r) = r == action

-- `hasContent`
abbrev pub has_content : ApplicationDetail → Bool
has_content detail = present detail.document_id && is_past_drafting detail.preparation_state

module _ (detail : ApplicationDetail) where
  open detail use {
    application_id, recommended_action, available_actions, document_hash, latest_analysis_id,
  }

  available : String → Bool
  available action = includes action available_actions

  analyze_control : Option AnalyzeControl
  unfolding available
  analyze_control =
      if available "analyze"
      then some (record {
        emphasized = is_recommended "analyze" recommended_action;
        reanalysis = not (is_recommended "analyze" recommended_action);
      })
      else none

  create_on : Option String → Option CreateControl
  unfolding available
  create_on none = none
  create_on (some hash) =
      if available "create_draft"
      then some (record {
        document_hash = hash;
        emphasized = is_recommended "create_draft" recommended_action;
      })
      else none

  build_on : Option String → Option String → Option BuildControl
  unfolding available
  build_on (some hash) (some newer) =
      if available "build_from_analysis"
      then some (record {
        analysis_id = newer;
        discards_content = has_content detail;
        document_hash = hash;
        emphasized = is_recommended "build_from_analysis" recommended_action;
      })
      else none
  build_on _ _ = none

  destination_for : String → Option String
  unfolding available
  destination_for action =
      if available action then action_destination action application_id else none

  -- the furthest along of the four
  draft_target : Option (DraftAction × String)
  unfolding destination_for
  draft_target =
      first_of_two (Option.map (λ (href : String). (render, href)) (destination_for "render")) (
        first_of_two (Option.map (λ (href : String). (approve, href)) (destination_for "approve")) (
          first_of_two (Option.map (λ (href : String). (check, href)) (destination_for "check"))
            (Option.map (λ (href : String). (edit, href)) (destination_for "edit"))))

  draft_control : Option DraftControl
  unfolding draft_target
  draft_control = elim draft_target [
    | none ↦ none
    | some (action, href) ↦ some (record {
      action = action;
      href = href;
      emphasized =
          is_recommended "render" recommended_action
          || is_recommended "approve" recommended_action
          || is_recommended "check" recommended_action
          || is_recommended "edit" recommended_action;
    })
  ]

  -- `handledHere`: the actions with a control of their own here
  handled_here : List String
  unfolding analyze_control create_on build_on destination_for
  handled_here =
      (if present analyze_control then "analyze" ∷ [] else [])
      ++ (if present (create_on document_hash) then "create_draft" ∷ [] else [])
      ++ (if present (build_on document_hash latest_analysis_id)
          then "build_from_analysis" ∷ []
          else [])
      ++ (if present (destination_for "edit") then "edit" ∷ [] else [])
      ++ (if present (destination_for "check") then "check" ∷ [] else [])
      ++ (if present (destination_for "approve") then "approve" ∷ [] else [])
      ++ (if present (destination_for "render") then "render" ∷ [] else [])

  unbuilt : Option String → Option String
  unfolding handled_here
  unbuilt none = none
  unbuilt (some r) =
      if not (includes r handled_here) && not (present (action_destination r application_id))
      then some r
      else none

  -- `workflowActionPlan`
  unfoldable pub workflow_action_plan : WorkflowActionPlan
  unfolding analyze_control create_on build_on draft_control unbuilt
  workflow_action_plan = record {
    analyze = analyze_control;
    create_draft = create_on document_hash;
    build_from_analysis = build_on document_hash latest_analysis_id;
    draft_screen = draft_control;
    ready =
        if is_ready detail.preparation_state
        then some (record { emphasized = true; href = Navigation.ready application_id })
        else none;
    unbuilt_recommendation = unbuilt recommended_action;
  }
