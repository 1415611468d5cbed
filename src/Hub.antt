-- ===== src/Hub.antt =====
-- How far the preparation has come, as the application's page shows it
-- (frontend/src/features/application-detail/model/applicationHub.ts). The words of labels are left out.
mod Tests
use full_stack_resume.Common.{
  ℕ, suc, ◌+◌, ◌-◌, min, String, ◌≡◌, refl, Bool, true, false, ◌&&◌, ◌||◌, Option, none, some, List,
  [], ◌∷◌, arith, ◌==◌, eq_iff, ltb, leb, if◌then◌else◌, present, length, get_elem?, includes,
}
use full_stack_resume.Api.Applications.{
  PreparationState, needs_analysis, ready_to_draft, draft_in_progress, approved, ready,
  ApplicationDetail, is_ready,
}
use full_stack_resume.Navigation
use full_stack_resume.Preparation.Destinations.{
  state_destination, preparation_resume_destination_from_detail, steps, resume_destination-in_steps,
}

-- `isApplicationClosed`
unfoldable pub is_application_closed : ApplicationDetail → Bool
is_application_closed detail =
    present detail.terminal_outcome
    || includes detail.recruitment_status ("rejected" ∷ "withdrawn" ∷ "closed" ∷ [])

pub data PreparationRowKey : Type 0 where
  analysis create draft approve ready_row : PreparationRowKey

pub data PreparationRowState : Type 0 where
  done current upcoming : PreparationRowState

pub record PreparationRow : Type 0 where
  pub href : Option String
  pub key : PreparationRowKey
  pub state : PreparationRowState

pub record PreparationProgress : Type 0 where
  pub rows : List PreparationRow
  pub position : ℕ
  pub total : ℕ

abbrev pub row_keys : List PreparationRowKey
row_keys = analysis ∷ create ∷ draft ∷ approve ∷ ready_row ∷ []

-- `doneCount`
abbrev pub done_count : PreparationState → ℕ
done_count needs_analysis = 0
done_count ready_to_draft = 1
done_count draft_in_progress = 2
done_count approved = 3
done_count ready = 5

-- `index === done`
abbrev pub index_is : ℕ → ℕ → Bool
index_is index n = leb index n && leb n index

module _ (detail : ApplicationDetail) where
  -- `hrefFor`
  abbrev pub href_for : PreparationRowKey → Option String
  href_for analysis = some (Navigation.analysis detail.application_id)
  href_for create = some (Navigation.analysis detail.application_id)
  href_for ready_row =
      if is_ready detail.preparation_state
      then some (Navigation.ready detail.application_id)
      else none
  href_for _ =
      if leb 2 (done_count detail.preparation_state) && present detail.document_id
      then some (Navigation.draft detail.application_id)
      else none

  abbrev pub row_state : ℕ → PreparationRowState
  row_state index =
      if ltb index (done_count detail.preparation_state)
      then done
      else if index_is index (done_count detail.preparation_state)
      then current
      else upcoming

  abbrev pub row_href : PreparationRowState → PreparationRowKey → Option String
  row_href upcoming key = none
  row_href _ key = href_for key

  rows_from : ℕ → List PreparationRowKey → List PreparationRow
  rows_from index [] = []
  rows_from index (key ∷ keys) =
      record { href = row_href (row_state index) key; key = key; state = row_state index }
      ∷ rows_from (suc index) keys

  -- `preparationProgress`
  unfoldable pub preparation_progress : PreparationProgress
  unfolding rows_from
  preparation_progress = record {
    rows = rows_from 0 row_keys;
    position = min (done_count detail.preparation_state + 1) (length row_keys);
    total = length row_keys;
  }

  abbrev pub href_at : ℕ → Option String
  href_at n = elim (get_elem? preparation_progress.rows n) [ none ↦ none | some row ↦ row.href ]

  href_lem :
      (state : PreparationState)
      → detail.preparation_state ≡ state
      → present detail.document_id ≡ true
      → href_at (preparation_progress.position - 1)
        ≡ some (state_destination detail.application_id state)
  unfolding preparation_progress state_destination
  href_lem needs_analysis e h = ground arith
  href_lem ready_to_draft e h = ground arith
  href_lem draft_in_progress e h = ground arith
  href_lem approved e h = ground arith
  href_lem ready e h = ground arith

  -- For an application with a document, the row on which the work stands leads to the screen on which a
  -- resumption opens when nothing runs and nothing is recommended.
  pub preparation_progress-href :
      present detail.document_id ≡ true
      → href_at (preparation_progress.position - 1)
        ≡ some (state_destination detail.application_id detail.preparation_state)
  preparation_progress-href h = href_lem detail.preparation_state refl h

-- The labels of the command forward.
pub data ContinuationLabel : Type 0 where
  open_ready render_file edit_draft analyze_job create_draft : ContinuationLabel

pub record Continuation : Type 0 where
  pub label : ContinuationLabel
  pub to : String

abbrev pub is_approved_state : PreparationState → Bool
is_approved_state approved = true
is_approved_state _ = false

abbrev pub is_unanalyzed : PreparationState → Bool
is_unanalyzed needs_analysis = true
is_unanalyzed _ = false

abbrev pub label_for : String → String → PreparationState → ContinuationLabel
label_for id to state =
    if to == Navigation.ready id
    then open_ready
    else if to == Navigation.draft id
    then (if is_approved_state state then render_file else edit_draft)
    else (if is_unanalyzed state then analyze_job else create_draft)

-- `continuation`
unfoldable pub continuation : ApplicationDetail → Continuation
unfolding preparation_resume_destination_from_detail
continuation detail =
    let to = preparation_resume_destination_from_detail detail.application_id detail in
    record { label = label_for detail.application_id to detail.preparation_state; to = to }

-- The screens on which what a label names is done.
abbrev pub screens_of : String → ContinuationLabel → List String
screens_of id open_ready = Navigation.ready id ∷ []
screens_of id render_file = Navigation.draft id ∷ []
screens_of id edit_draft = Navigation.draft id ∷ []
screens_of id _ = Navigation.analysis id ∷ Navigation.matching id ∷ Navigation.verification id ∷ []

in_one : (a b : String) → (a == b) ≡ true → includes a (b ∷ []) ≡ true
in_one a b e = ground (arith, eq_iff a b, eq_iff b a, e)

in_rest :
    (to a m v d r : String)
    → includes to (a ∷ m ∷ v ∷ d ∷ r ∷ []) ≡ true
    → (to == r) ≡ false
    → (to == d) ≡ false
    → includes to (a ∷ m ∷ v ∷ []) ≡ true
in_rest to a m v d r h e f =
    ground (arith, h, e, f, eq_iff to r, eq_iff r to, eq_iff to d, eq_iff d to)

label_for-screens :
    (id to : String) (state : PreparationState)
    → includes to (steps id) ≡ true
    → includes to (screens_of id (label_for id to state)) ≡ true
label_for-screens id to state h =
    at_tests (to == Navigation.ready id) refl (to == Navigation.draft id) refl state
  where
    at_tests :
        (p : Bool)
        → (to == Navigation.ready id) ≡ p
        → (q : Bool) → (to == Navigation.draft id) ≡ q
        → (s : PreparationState)
        → includes to (
            screens_of id (
              if p
              then open_ready
              else if q
              then (if is_approved_state s then render_file else edit_draft)
              else (if is_unanalyzed s then analyze_job else create_draft)))
          ≡ true
    at_tests true e q f s = in_one to (Navigation.ready id) e
    at_tests false e true f approved = in_one to (Navigation.draft id) f
    at_tests false e true f needs_analysis = in_one to (Navigation.draft id) f
    at_tests false e true f ready_to_draft = in_one to (Navigation.draft id) f
    at_tests false e true f draft_in_progress = in_one to (Navigation.draft id) f
    at_tests false e true f ready = in_one to (Navigation.draft id) f
    at_tests false e false f approved = in_rest to _ _ _ _ _ h e f
    at_tests false e false f needs_analysis = in_rest to _ _ _ _ _ h e f
    at_tests false e false f ready_to_draft = in_rest to _ _ _ _ _ h e f
    at_tests false e false f draft_in_progress = in_rest to _ _ _ _ _ h e f
    at_tests false e false f ready = in_rest to _ _ _ _ _ h e f

-- The command forward leads to the screen that its label names, whatever runs and whatever is
-- recommended: to the finished document, to the editor, or to one of the screens before it.
pub continuation-screens :
    (detail : ApplicationDetail)
    → includes
        (continuation detail).to
        (screens_of detail.application_id (continuation detail).label)
      ≡ true
unfolding continuation
continuation-screens detail =
    label_for-screens detail.application_id
      (preparation_resume_destination_from_detail detail.application_id detail)
      detail.preparation_state
      (resume_destination-in_steps (record {
        id = detail.application_id;
        preparation_state = detail.preparation_state;
        recommended_action = detail.recommended_action;
        active_operation = detail.active_operation;
      }))
