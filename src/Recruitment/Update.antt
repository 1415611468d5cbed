-- ===== src/Recruitment/Update.antt =====
-- The form that updates the recruitment of an application
-- (frontend/src/features/recruitment/hooks/useRecruitmentUpdate.ts, with the commands of
-- frontend/src/api/tracking.ts). The form's library and the query cache are left out; the server is a
-- parameter.
pub mod Saving
use full_stack_resume.Common.{
  String, ◌≡◌, refl, ◌⊎◌, inl, inr, Bool, true, false, not, ◌&&◌, ◌||◌, Option, List, ◌∷◌, ◌==◌,
  if◌then◌else◌, or_else, includes,
}
use full_stack_resume.Common.Text.{trim, filled, same_option}

-- What the form reads of `ApplicationDetail`.
pub record RecruitmentDetail : Type 0 where
  pub allowed_recruitment_transitions : List String
  pub next_action : Option String
  pub next_action_date : Option String
  pub notes : String

-- An empty target status is no change.
pub record RecruitmentUpdateFields : Type 0 where
  pub next_action : String
  pub next_action_date : String
  pub notes : String
  pub reason : String
  pub target_status : String

pub data TrackingCommand : Type 0 where
  transition_status : (target reason : String) → TrackingCommand
  set_next_action : (action date : Option String) → TrackingCommand
  update_notes : (notes expected : String) → TrackingCommand

-- `initialFields`
unfoldable pub initial_fields : RecruitmentDetail → RecruitmentUpdateFields
initial_fields d = record {
  next_action = or_else d.next_action "";
  next_action_date = or_else d.next_action_date "";
  notes = d.notes;
  reason = "";
  target_status = "";
}

-- `hasNextActionChange`, which is also the condition of the command
unfoldable pub has_next_action_change : RecruitmentDetail → RecruitmentUpdateFields → Bool
has_next_action_change d v =
    not (same_option (filled (trim v.next_action)) d.next_action)
    || not (same_option (filled v.next_action_date) d.next_action_date)

-- `hasChanges`
unfoldable pub has_changes : RecruitmentDetail → RecruitmentUpdateFields → Bool
unfolding has_next_action_change
has_changes d v =
    not (v.target_status == "") || has_next_action_change d v || not (v.notes == d.notes)

-- `statusOptions`
unfoldable pub status_options : RecruitmentDetail → RecruitmentUpdateFields → List String
status_options d v =
    if not (v.target_status == "")
      && not (includes v.target_status d.allowed_recruitment_transitions)
    then v.target_status ∷ d.allowed_recruitment_transitions
    else d.allowed_recruitment_transitions

-- What comes of commands: the server's state, with the error that stopped them if one did.
pub data Saved (S E : Type 0) : Type 0 where
  saved : S → Saved S E
  failed : (error : E) (state : S) → Saved S E

-- One after the other: an error ends the whole.
module _ {S E : Type 0} where
  abbrev pub and_then : Saved S E → (S → Saved S E) → Saved S E
  and_then (saved s) next = next s
  and_then (failed e s) next = failed e s

  infixl 5 ◌>>◌
  abbrev pub ◌>>◌ : (S → Saved S E) → (S → Saved S E) → S → Saved S E
  ◌>>◌ first next s = and_then (first s) next

  pub and_then-saved :
      (r : Saved S E) (k : S → Saved S E) {s : S}
      → and_then r k ≡ saved s
      → (t : S) × (r ≡ saved t) × (k t ≡ saved s)
  and_then-saved (saved t) k h = (t, refl, h)
  and_then-saved (failed e t) k h = cc

  pub and_then-failed :
      (r : Saved S E) (k : S → Saved S E) {e : E} {s : S}
      → and_then r k ≡ failed e s
      → (r ≡ failed e s) ⊎ ((t : S) × (r ≡ saved t) × (k t ≡ failed e s))
  and_then-failed (saved t) k h = inr (t, refl, h)
  and_then-failed (failed e t) k h = inl h

module _ {S E : Type 0} (send : TrackingCommand → S → Saved S E) where
  abbrev pub send_if : Bool → TrackingCommand → S → Saved S E
  send_if true c s = send c s
  send_if false c s = saved s

  -- the `mutationFn` of `save`
  unfoldable pub save : RecruitmentDetail → RecruitmentUpdateFields → S → Saved S E
  save d v = do
    send_if (not (v.target_status == "")) (transition_status v.target_status v.reason)
    send_if (has_next_action_change d v)
        (set_next_action (filled (trim v.next_action)) (filled v.next_action_date))
    send_if (not (v.notes == d.notes)) (update_notes v.notes d.notes)
