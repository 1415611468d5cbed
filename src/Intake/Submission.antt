-- ===== src/Intake/Submission.antt =====
-- The submission of an intake (frontend/src/features/application-intake/hooks/
-- useApplicationIntakeSubmission.ts) and the duplicates that it reports (frontend/src/api/applications.ts).
-- A run of the mutation is a function of what it waits for: the answer of the check, the intake on the
-- page when that answer comes, and the answer of the command. The errors of the fields are left out.

pub mod Answers
pub mod Refused
use full_stack_resume.Common.{
  String, Bool, true, false, not, ◌&&◌, ◌||◌, Option, none, some, List, [], ◌∷◌, ◌==◌,
  if◌then◌else◌, present, first_of_two,
}
use full_stack_resume.Api.Analyses.Document.{
  Json, Entries, with_entry, no_entries, array, property, text_value,
}
use full_stack_resume.Client.{ApiError, problem}

pub record ApplicationIntake : Type 0 where
  pub company : String
  pub target_role : String
  pub job_text : String
  pub source_url : Option String

pub data DuplicateMatchReason : Type 0 where
  source_url normalized_text company_title : DuplicateMatchReason

pub record DuplicateMatch : Type 0 where
  pub application_id : String
  pub company : String
  pub target_role : String
  pub matched_on : List DuplicateMatchReason

abbrev pub same_url : Option String → Option String → Bool
same_url none none = true
same_url (some a) (some b) = a == b
same_url _ _ = false

-- `intakeFingerprint(a) === intakeFingerprint(b)`: JSON texts of lists of texts and null
abbrev pub same_intake : ApplicationIntake → ApplicationIntake → Bool
same_intake a b =
    a.company == b.company
    && a.target_role == b.target_role
    && a.job_text == b.job_text
    && same_url a.source_url b.source_url

-- `acknowledgementApplies`
abbrev pub acknowledgement_applies : Option ApplicationIntake → ApplicationIntake → Bool
acknowledgement_applies none current = false
acknowledgement_applies (some answered) current = same_intake answered current

-- `isDuplicateMatchReason`, with the reason
abbrev pub reason_of : Option String → Option DuplicateMatchReason
reason_of none = none
reason_of (some t) =
    if t == "source_url"
    then some source_url
    else if t == "normalized_text"
    then some normalized_text
    else if t == "company_title"
    then some company_title
    else none

abbrev pub cons_some {ℓ} : {A : Type ℓ} → Option A → Option (List A) → Option (List A)
cons_some (some x) (some xs) = some (x ∷ xs)
cons_some _ _ = none

-- `matched_on.every(isDuplicateMatchReason)`
abbrev pub as_reasons : Entries → Option (List DuplicateMatchReason)
as_reasons no_entries = some []
as_reasons (with_entry j rest) = cons_some (reason_of (text_value (some j))) (as_reasons rest)

abbrev pub as_array : Option Json → Option Entries
as_array (some (array items)) = some items
as_array _ = none

abbrev pub match_of :
    Option String → Option String → Option String → Option Entries → Option DuplicateMatch
match_of (some id) (some company) (some role) (some reasons) = elim (as_reasons reasons) [
  | none ↦ none
  | some rs ↦
      some (record { application_id = id; company = company; target_role = role; matched_on = rs })
]
match_of _ _ _ _ = none

-- `isDuplicateMatch`, with the match
abbrev pub as_match : Json → Option DuplicateMatch
as_match j =
    match_of (text_value (property "application_id" j)) (text_value (property "company" j))
      (text_value (property "target_role" j)) (as_array (property "matched_on" j))

-- `matches.filter(isDuplicateMatch)`
abbrev pub matches_of : Entries → List DuplicateMatch
matches_of no_entries = []
matches_of (with_entry j rest) = elim (as_match j) [
  | none ↦ matches_of rest
  | some m ↦ m ∷ matches_of rest
]

abbrev pub duplicate_acknowledgement_required : String
duplicate_acknowledgement_required = "DUPLICATE_ACKNOWLEDGEMENT_REQUIRED"

abbrev pub context_matches : Option Json → Option Entries
context_matches none = none
context_matches (some context) = as_array (property "matches" context)

-- `duplicateMatchesFromProblem`
unfoldable pub duplicate_matches_from_problem : Option ApiError → Option (List DuplicateMatch)
duplicate_matches_from_problem (some (problem p)) =
    if p.code == duplicate_acknowledgement_required
    then some (elim (context_matches p.context) [ none ↦ [] | some items ↦ matches_of items ])
    else none
duplicate_matches_from_problem _ = none

-- What an await of the mutation gives: an answer, or what it throws.
pub data Awaited {ℓ} (A : Type ℓ) : Type ℓ where
  gave : A → Awaited A
  failed_with : ApiError → Awaited A

-- `SubmissionResult`, over what the create command gives
pub data SubmissionResult {ℓ} (R : Type ℓ) : Type ℓ where
  duplicates : List DuplicateMatch → SubmissionResult R
  created : R → SubmissionResult R
  stale : SubmissionResult R

-- How far a run has come: it has its result or its error, or it sends the create command next.
pub data AfterCheck : Type 0 where
  creates : AfterCheck
  answers : List DuplicateMatch → AfterCheck
  is_outdated : AfterCheck
  fails : ApiError → AfterCheck

-- `mutationFn` up to its create command: `current` is the intake on the page when the check answers
unfoldable pub after_check :
    Bool → ApplicationIntake → Awaited (List DuplicateMatch) → ApplicationIntake → AfterCheck
after_check true intake check current = creates
after_check false intake (failed_with e) current = fails e
after_check false intake (gave (m ∷ ms)) current = answers (m ∷ ms)
after_check false intake (gave []) current =
    if acknowledgement_applies (some intake) current then creates else is_outdated

-- The observer of the mutation: its input, its data and its error, with a run that has ended.
pub record Submitted {ℓ} (R : Type ℓ) : Type ℓ where
  pub intake : ApplicationIntake
  pub result : Option (SubmissionResult R)
  pub error : Option ApiError

-- What the hook returns of a settled run, against the intake on the page.
pub record SubmissionView : Type 0 where
  pub duplicate_matches : Option (List DuplicateMatch)
  pub error : Option ApiError
  pub is_stale : Bool

module _ {ℓ} {R : Type ℓ} where
  abbrev pub ended : ApplicationIntake → AfterCheck → Awaited R → Submitted R
  ended intake creates (gave r) = record {
    intake = intake;
    result = some (created r);
    error = none;
  }
  ended intake creates (failed_with e) = record { intake = intake; result = none; error = some e }
  ended intake (answers ms) create = record {
    intake = intake;
    result = some (duplicates ms);
    error = none;
  }
  ended intake is_outdated create = record { intake = intake; result = some stale; error = none }
  ended intake (fails e) create = record { intake = intake; result = none; error = some e }

  -- `mutationFn`
  unfoldable pub submit :
      Bool
      → ApplicationIntake
      → Awaited (List DuplicateMatch)
      → ApplicationIntake
      → Awaited R
      → Submitted R
  unfolding after_check
  submit acknowledged intake check current create =
      ended intake (after_check acknowledged intake check current) create

  -- `onSuccess`: what `onCreated` is called with, where it is
  unfoldable pub on_success : Submitted R → ApplicationIntake → Option (R × Bool)
  on_success s current = elim s.result [
    | none ↦ none
    | some r ↦ elim r [
      | duplicates ms ↦ none
      | created x ↦ some (x, acknowledgement_applies (some s.intake) current)
      | stale ↦ none
    ]
  ]

  abbrev pub result_matches : Option (SubmissionResult R) → Option (List DuplicateMatch)
  result_matches (some (duplicates ms)) = some ms
  result_matches _ = none

  abbrev pub reported : Submitted R → Option (List DuplicateMatch)
  reported s = first_of_two (duplicate_matches_from_problem s.error) (result_matches s.result)

  unfoldable pub submission_view : Submitted R → ApplicationIntake → SubmissionView
  submission_view s current =
      let is_current = acknowledgement_applies (some s.intake) current in
      record {
        duplicate_matches = if is_current then reported s else none;
        error =
            if is_current && not (present (duplicate_matches_from_problem s.error))
            then s.error
            else none;
        is_stale = (present s.result || present s.error) && not is_current;
      }
