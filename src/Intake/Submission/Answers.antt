-- ===== src/Intake/Submission/Answers.antt =====
-- What a submitted intake comes to and what the page shows of it
-- (frontend/src/features/application-intake/hooks/useApplicationIntakeSubmission.ts).
use full_stack_resume.Common.{
  ℕ, ◌+◌, String, ◌≡◌, refl, ◌↔◌, ◌⊎◌, inl, inr, Bool, true, false, not, ◌&&◌, Option, none, some,
  List, [], ◌∷◌, arith, eq_iff, if◌then◌else◌, Bool-cases, present, first_of_two,
}
use full_stack_resume.Client.{ApiError}
use full_stack_resume.Intake.Submission.{
  ApplicationIntake, DuplicateMatch, same_url, same_intake, duplicate_matches_from_problem, Awaited,
  gave, failed_with, SubmissionResult, created, stale, AfterCheck, creates, answers, is_outdated,
  fails, after_check, ended, submit, submission_view,
}

-- The create command is sent for an acknowledged intake, or for one whose check found no duplicates and
-- which is still the intake on the page when the check answers, and for no other.
pub after_check-creates :
    (acknowledged : Bool) (intake : ApplicationIntake) (check : Awaited (List DuplicateMatch))
    (current : ApplicationIntake)
    → (after_check acknowledged intake check current ≡ creates)
      ↔ ((acknowledged ≡ true) ⊎ ((check ≡ gave []) × (same_intake intake current ≡ true)))
unfolding after_check
after_check-creates true intake check current = (λ (_ : _). inl refl, λ (_ : _). refl)
after_check-creates false intake (failed_with e) current = (λ (h : _). cc, λ (h : _). ground arith)
after_check-creates false intake (gave (m ∷ ms)) current = (λ (h : _). cc, λ (h : _). ground arith)
after_check-creates false intake (gave []) current =
    (λ (h : _). inr (refl, ground arith), λ (h : _). ground arith)

abbrev pub bit : Bool → ℕ
bit true = 1
bit false = 0

same_url_self : (u : Option String) → same_url u u ≡ true
same_url_self none = refl
same_url_self (some u) = ground (arith, eq_iff u u)

pub same_intake_self : (i : ApplicationIntake) → same_intake i i ≡ true
same_intake_self i = ground (
  arith,
  eq_iff i.company i.company,
  eq_iff i.target_role i.target_role,
  eq_iff i.job_text i.job_text,
  same_url_self i.source_url,
)

error_lem :
    (d : Option (List DuplicateMatch)) (e : ApiError)
    → 0
        + bit (present (first_of_two d none))
        + bit (present (if not (present d) then some e else none))
        + 0
      ≡ 1
error_lem none e = refl
error_lem (some ms) e = refl

module _ {ℓ} {R : Type ℓ} where
  -- Whether a run ended with nothing to say for the intake that it was submitted with: it created the
  -- application, or it found its input outdated.
  abbrev pub is_quiet : Option (SubmissionResult R) → Bool
  is_quiet (some (created r)) = true
  is_quiet (some stale) = true
  is_quiet _ = false

  ended_lem :
      (intake current : ApplicationIntake) (next : AfterCheck) (create : Awaited R)
      → let s = ended intake next create in
        let v = submission_view s current in
        bit v.is_stale
          + bit (present v.duplicate_matches)
          + bit (present v.error)
          + bit (same_intake intake current && is_quiet s.result)
        ≡ 1
  unfolding submission_view duplicate_matches_from_problem
  ended_lem intake current creates (gave r) = elim (Bool-cases (same_intake intake current)) [
    | inl h ↦ rw h refl
    | inr h ↦ rw h refl
  ]
  ended_lem intake current creates (failed_with e) =
      elim (Bool-cases (same_intake intake current)) [
        | inl h ↦ rw h (error_lem (duplicate_matches_from_problem (some e)) e)
        | inr h ↦ rw h refl
      ]
  ended_lem intake current (answers ms) create = elim (Bool-cases (same_intake intake current)) [
    | inl h ↦ rw h refl
    | inr h ↦ rw h refl
  ]
  ended_lem intake current is_outdated create = elim (Bool-cases (same_intake intake current)) [
    | inl h ↦ rw h refl
    | inr h ↦ rw h refl
  ]
  ended_lem intake current (fails e) create = elim (Bool-cases (same_intake intake current)) [
    | inl h ↦ rw h (error_lem (duplicate_matches_from_problem (some e)) e)
    | inr h ↦ rw h refl
  ]

  -- Of a run that has ended, whatever its check and its command gave, the page shows exactly one thing
  -- for any intake that stands on it: that the answer is outdated, the duplicates, the error, or nothing
  -- where the intake is the submitted one and was created or found outdated.
  pub submit-one_shown :
      (acknowledged : Bool) (intake : ApplicationIntake) (check : Awaited (List DuplicateMatch))
      (at_answer : ApplicationIntake) (create : Awaited R) (current : ApplicationIntake)
      → let s = submit acknowledged intake check at_answer create in
        let v = submission_view s current in
        bit v.is_stale
          + bit (present v.duplicate_matches)
          + bit (present v.error)
          + bit (same_intake intake current && is_quiet s.result)
        ≡ 1
  unfolding submit
  submit-one_shown acknowledged intake check at_answer create current =
      ended_lem intake current (after_check acknowledged intake check at_answer) create
