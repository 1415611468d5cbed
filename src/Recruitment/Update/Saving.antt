-- ===== src/Recruitment/Update/Saving.antt =====
-- What a save of the recruitment form leaves on the server, accepted or stopped by an error
-- (useRecruitmentUpdate.ts), over a server that does what a command says when it accepts it. A command that
-- fails may have been done, where only its answer was lost.
use full_stack_resume.Common.{
  String, ◌≡◌, ◌≢◌, ◌&&◌, ◌||◌, refl, ap, ◌∙◌, ◌⊎◌, inl, inr, Bool, true, false, not, Option, List,
  arith, ◌==◌, eq_iff, if◌then◌else◌, Bool-cases,
}
use full_stack_resume.Common.Text.{trim, filled, same_option, same_option_refl}
use full_stack_resume.Recruitment.Update.{
  RecruitmentDetail, RecruitmentUpdateFields, TrackingCommand, transition_status, set_next_action,
  update_notes, has_next_action_change, has_changes, Saved, saved, failed, send_if, and_then,
  and_then-saved, save,
}

-- The part of an application that the commands change.
pub record Tracked : Type 0 where
  pub status : String
  pub next_action : Option String
  pub next_action_date : Option String
  pub notes : String

abbrev pub applied : TrackingCommand → Tracked → Tracked
applied (transition_status target reason) t = record t { status = target }
applied (set_next_action action date) t = record t { next_action = action; next_action_date = date }
applied (update_notes notes expected) t = record t { notes = notes }

pub record TrackingServer : Type 1 where
  pub State : Type 0
  pub Error : Type 0
  pub deliver : TrackingCommand → State → Saved State Error
  pub view : State → Tracked
  pub accepted :
      (c : TrackingCommand) (s s' : State) → deliver c s ≡ saved s' → view s' ≡ applied c (view s)
  pub refused :
      (c : TrackingCommand) (s s' : State) (e : Error)
      → deliver c s ≡ failed e s'
      → (view s' ≡ view s) ⊎ (view s' ≡ applied c (view s))

abbrev pub detail_of : List String → Tracked → RecruitmentDetail
detail_of allowed t = record {
  allowed_recruitment_transitions = allowed;
  next_action = t.next_action;
  next_action_date = t.next_action_date;
  notes = t.notes;
}

-- Whether a part of the form differs from the detail that the form has read.
abbrev pub sets_action : RecruitmentDetail → RecruitmentUpdateFields → Bool
sets_action d v = not (
    same_option (filled (trim v.next_action)) d.next_action
    && same_option (filled v.next_action_date) d.next_action_date)

abbrev pub sets_notes : RecruitmentDetail → RecruitmentUpdateFields → Bool
sets_notes d v = not (v.notes == d.notes)

-- The application with the parts of the form that differ from what the form has read.
abbrev pub with_status : RecruitmentUpdateFields → Tracked → Tracked
with_status v t = record t { status = if v.target_status == "" then t.status else v.target_status }

abbrev pub with_action : RecruitmentDetail → RecruitmentUpdateFields → Tracked → Tracked
with_action d v t =
    if sets_action d v
    then record t {
      next_action = filled (trim v.next_action);
      next_action_date = filled v.next_action_date;
    }
    else t

abbrev pub with_notes : RecruitmentDetail → RecruitmentUpdateFields → Tracked → Tracked
with_notes d v t = if sets_notes d v then record t { notes = v.notes } else t

sets_action_lem :
    (d : RecruitmentDetail) (v : RecruitmentUpdateFields)
    → has_next_action_change d v ≡ sets_action d v
unfolding has_next_action_change
sets_action_lem d v = ground (
  arith,
  Bool-cases (same_option (filled (trim v.next_action)) d.next_action),
  Bool-cases (same_option (filled v.next_action_date) d.next_action_date),
)

left_changes :
    (allowed : List String) (d : RecruitmentDetail) (v : RecruitmentUpdateFields) (t : Tracked)
    → has_changes
        (detail_of allowed (with_notes d v (with_action d v t)))
        (record v { target_status = "" })
      ≡ (not (sets_action d v) && sets_action (detail_of allowed t) v
          || not (sets_notes d v) && sets_notes (detail_of allowed t) v)
unfolding has_changes has_next_action_change
left_changes allowed d v t = at_tests (sets_action d v) (sets_notes d v)
  where
    at_tests :
        (b c : Bool)
        → has_changes
            (detail_of allowed (
              let u =
                if b
                then record t {
                  next_action = filled (trim v.next_action);
                  next_action_date = filled v.next_action_date;
                }
                else t in
              if c then record u { notes = v.notes } else u))
            (record v { target_status = "" })
          ≡ (not b && sets_action (detail_of allowed t) v
              || not c && sets_notes (detail_of allowed t) v)
    at_tests true true =
        rw
          (
            same_option_refl (filled (trim v.next_action)),
            same_option_refl (filled v.next_action_date),
          )
          (ground (arith, eq_iff v.notes v.notes))
    at_tests true false =
        rw
          (
            same_option_refl (filled (trim v.next_action)),
            same_option_refl (filled v.next_action_date),
          )
          (ground arith)
    at_tests false true = ground (arith, eq_iff v.notes v.notes)
    at_tests false false = ground arith

-- What the server may have of a command that failed.
abbrev pub IsEither : Tracked → Tracked → Tracked → Type 0
IsEither t before after = (t ≡ before) ⊎ (t ≡ after)

module _ (server : TrackingServer) where
  open server use {State, Error, deliver, view, accepted, refused}

  -- Under a test, a command that is sent or not.
  sent :
      (b : Bool) (c : TrackingCommand) (s s' : State)
      → send_if deliver b c s ≡ saved s'
      → view s' ≡ (if b then applied c (view s) else view s)
  sent true c s s' h = accepted c s s' h
  sent false c s s' h = ap view (cc h)

  module _ (d : RecruitmentDetail) (v : RecruitmentUpdateFields) (s : State) where
    abbrev status_command : TrackingCommand
    status_command = transition_status v.target_status v.reason

    abbrev action_command : TrackingCommand
    action_command = set_next_action (filled (trim v.next_action)) (filled v.next_action_date)

    abbrev after_status : Saved State Error
    after_status = send_if deliver (not (v.target_status == "")) status_command s

    abbrev then_action : State → Saved State Error
    then_action = send_if deliver (has_next_action_change d v) action_command

    abbrev then_notes : State → Saved State Error
    then_notes = send_if deliver (sets_notes d v) (update_notes v.notes d.notes)

    abbrev then_rest : State → Saved State Error
    then_rest t = and_then (then_action t) then_notes

    status_done :
        (t : Tracked)
        → (if not (v.target_status == "") then applied status_command t else t) ≡ with_status v t
    status_done t = elim (Bool-cases (v.target_status == "")) [
      | inl h ↦ rw h refl
      | inr h ↦ rw h refl
    ]

    action_done :
        (t : Tracked)
        → (if has_next_action_change d v then applied action_command t else t) ≡ with_action d v t
    action_done t =
        ap (λ (b : Bool). if b then applied action_command t else t) (sets_action_lem d v)

    status_sent : (s' : State) → after_status ≡ saved s' → view s' ≡ with_status v (view s)
    status_sent s' h =
        sent (not (v.target_status == "")) status_command s s' h ∙ status_done (view s)

    action_sent : (t t' : State) → then_action t ≡ saved t' → view t' ≡ with_action d v (view t)
    action_sent t t' h =
        sent (has_next_action_change d v) action_command t t' h ∙ action_done (view t)

    notes_sent : (t t' : State) → then_notes t ≡ saved t' → view t' ≡ with_notes d v (view t)
    notes_sent t t' h = sent (sets_notes d v) (update_notes v.notes d.notes) t t' h

    save_view :
        (s' : State)
        → save deliver d v s ≡ saved s'
        → view s' ≡ with_notes d v (with_action d v (with_status v (view s)))
    unfolding save
    save_view s' h =
        let first = and_then-saved after_status then_rest h in
        let later = and_then-saved (then_action first.0) then_notes first.2 in
        notes_sent later.0 s' later.2
        ∙ ap (with_notes d v) (
            action_sent first.0 later.0 later.1
            ∙ ap (with_action d v) (status_sent first.0 first.1))

    -- What a save that stopped may have done.
    abbrev Stopped : State → Type 0
    Stopped s' =
        let one = with_status v (view s) in
        let two = with_action d v one in
        ((v.target_status ≢ "") × IsEither (view s') (view s) one)
        ⊎ ((sets_action d v ≡ true) × IsEither (view s') one two)
        ⊎ ((sets_notes d v ≡ true) × IsEither (view s') two (with_notes d v two))

  -- A save whose commands are all accepted leaves on the server what was there when it began, with the
  -- parts of the form that differ from what the form had read, whether or not that was still the server's:
  -- the chosen status where one was chosen, the next action and its date, trimmed and an empty one as
  -- none, and the notes. Of what the server had, a part that the form had not changed stays. Read again
  -- with no status chosen, the form has changes exactly where the server had moved away from the form
  -- under a part that was not sent.
  pub save_accepted :
      (d : RecruitmentDetail) (v : RecruitmentUpdateFields) (allowed : List String) (s s' : State)
      → save deliver d v s ≡ saved s'
      → (view s' ≡ with_notes d v (with_action d v (with_status v (view s))))
        × (has_changes (detail_of allowed (view s')) (record v { target_status = "" }) ≡ (
            not (sets_action d v) && sets_action (detail_of allowed (view s)) v
            || not (sets_notes d v) && sets_notes (detail_of allowed (view s)) v))
  unfolding has_changes
  save_accepted d v allowed s s' h =
      let end = save_view d v s s' h in
      (end, rw end (left_changes allowed d v (with_status v (view s))))
