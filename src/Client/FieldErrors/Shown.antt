-- ===== src/Client/FieldErrors/Shown.antt =====
-- Where a refused field is shown: under the form's own field, or in the list of the callout.
use full_stack_resume.Common.{
  String, ◌≡◌, Bool, false, Option, none, some, List, [], ◌∷◌, ◌==◌, if◌then◌else◌, select, has,
}
use full_stack_resume.Client.FieldErrors.{SetError, FieldIssue}

-- A field has one refusal at most.
abbrev pub IsOnce : List (String × FieldIssue) → Type 0
IsOnce [] = Unit
IsOnce ((field, issue) ∷ later) = (has field later ≡ false) × IsOnce later

module _ (keeps : String → Bool) where
  abbrev kept : List (String × FieldIssue) → List (String × FieldIssue)
  kept errors = select (λ (e : String × FieldIssue). keeps e.0) errors

-- What is set for a field of the server.
abbrev pub set_for : String → List SetError → Option (String × FieldIssue)
set_for field [] = none
set_for field (e ∷ later) =
    let rest = set_for field later in if e.name == field then some (e.form_field, e.issue) else rest

abbrev pub under : Option String → Option FieldIssue → Option (String × FieldIssue)
under (some form_field) (some issue) = some (form_field, issue)
under _ _ = none
