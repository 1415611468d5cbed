-- ===== src/Intake/Tests.antt =====
-- The intake at concrete fields, and its theorems there.
use full_stack_resume.Common.{
  ℕ, ◌+◌, String, ◌≡◌, refl, true, false, ◌&&◌, none, some, List, [], ◌∷◌, present,
}
use full_stack_resume.Intake.Draft.{
  IntakeFields, draft_of, read_draft, opened, IntakeEvent, updated, timer_fired, intake_run,
  unmount,
}
use full_stack_resume.Intake.Draft.Truthful.{IsTruthful, intake_run-IsTruthful}
use full_stack_resume.Intake.Draft.Recovered.{unmount-recovers}
use full_stack_resume.Intake.Submission.{
  ApplicationIntake, DuplicateMatch, same_intake, Awaited, gave, submit, submission_view,
}
use full_stack_resume.Intake.Submission.Answers.{bit, is_quiet, submit-one_shown}
use full_stack_resume.Intake.Submission.{company_title, normalized_text}

abbrev fields_with : String → IntakeFields
fields_with text = record { company = "Acme"; target_role = ""; source_url = ""; job_text = text }

abbrev blank_fields : IntakeFields
blank_fields = record { company = ""; target_role = ""; source_url = ""; job_text = "" }

abbrev typing : List IntakeEvent
typing = updated true (fields_with "a") ∷ timer_fired false ∷ updated true (fields_with "ab") ∷ []

unmount-recovers_example :
    read_draft (unmount true (intake_run typing (opened blank_fields false none))).storage
    ≡ some (fields_with "ab")
unmount-recovers_example = unmount-recovers typing blank_fields false none refl

intake_run-IsTruthful_example :
    IsTruthful
      (intake_run typing (opened (fields_with "x") true (some (draft_of (fields_with "x")))))
intake_run-IsTruthful_example =
    intake_run-IsTruthful typing (fields_with "x") true (some (draft_of (fields_with "x")))
      (λ (h : _). (refl, refl))

abbrev intake_with : String → ApplicationIntake
intake_with text = record {
  company = "Acme";
  target_role = "Sales";
  job_text = text;
  source_url = none;
}

abbrev no_matches : Awaited (List DuplicateMatch)
no_matches = gave []

submit-one_shown_example :
    let s = submit {R = ℕ} false (intake_with "a") (gave []) (intake_with "a") (gave 7) in
    let v = submission_view s (intake_with "b") in
    bit v.is_stale
      + bit (present v.duplicate_matches)
      + bit (present v.error)
      + bit (same_intake (intake_with "a") (intake_with "b") && is_quiet s.result)
    ≡ 1
submit-one_shown_example =
    submit-one_shown false (intake_with "a") (gave []) (intake_with "a") (gave 7) (intake_with "b")

abbrev known_posting : DuplicateMatch
known_posting = record {
  application_id = "a-1";
  company = "Acme";
  target_role = "Sales";
  matched_on = company_title ∷ normalized_text ∷ [];
}
