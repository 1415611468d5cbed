-- ===== src/Client/FieldErrors.antt =====
-- The refusals of single fields: what a problem says of them (`problemFieldErrors` of
-- frontend/src/ui/errorMessages.ts), which of them a form shows under its own fields
-- (frontend/src/hooks/useServerFieldErrors.ts) and which its callout lists
-- (frontend/src/ui/ErrorCallout.tsx). A sentence is a constructor of `FieldIssue`.
pub mod Issues
pub mod Shown
use package.text.Mathlib.Text.{starts_with}
use full_stack_resume.Common.{
  lookup, Bool, false, String, not, ◌||◌, Option, none, some, List, [], ◌∷◌, ◌++◌, ◌==◌,
  if◌then◌else◌, first_of_two, map, select, includes, has,
}
use full_stack_resume.Api.Analyses.Document.{Json, text, array_items, property, text_value}
use full_stack_resume.Client.{ProblemDetails, ApiError, problem}

pub data FieldIssue : Type 0 where
  invalid required too_long bad_url bad_date : FieldIssue

-- `fieldIssueMessage`
unfoldable pub field_issue_message : Option String → FieldIssue
field_issue_message none = invalid
field_issue_message (some kind) =
    if kind == "missing" || kind == "string_too_short"
    then required
    else if kind == "string_too_long" || kind == "too_long"
    then too_long
    else if starts_with kind "url"
    then bad_url
    else if starts_with kind "datetime" || starts_with kind "date"
    then bad_date
    else invalid

-- `problemDetailsFrom`
abbrev pub problem_details_from : Option ApiError → Option ProblemDetails
problem_details_from (some (problem p)) = some p
problem_details_from _ = none

abbrev pub named_part : Json → Option String
named_part (text part) = if part == "body" then none else some part
named_part _ = none

-- the last named part of a location
unfoldable pub last_named : List Json → Option String
last_named [] = none
last_named (part ∷ parts) = first_of_two (last_named parts) (named_part part)

abbrev pub issue_field : Json → Option String
issue_field issue = last_named (array_items (property "location" issue))

abbrev pub issue_message : Json → FieldIssue
issue_message issue = field_issue_message (text_value (property "type" issue))

-- `!fields.has(field)` and `fields.set(field, …)`
abbrev pub set_first :
    Option String → FieldIssue → List (String × FieldIssue) → List (String × FieldIssue)
set_first none issue fields = fields
set_first (some field) issue fields =
    if has field fields then fields else fields ++ (field, issue) ∷ []

unfoldable pub collect : List Json → List (String × FieldIssue) → List (String × FieldIssue)
collect [] fields = fields
collect (issue ∷ issues) fields =
    collect issues (set_first (issue_field issue) (issue_message issue) fields)

abbrev pub context_value : String → ProblemDetails → Option Json
context_value key p = elim p.context [ none ↦ none | some context ↦ property key context ]

abbrev pub collected : ProblemDetails → List (String × FieldIssue)
collected p =
    if p.code == "REQUEST_VALIDATION_FAILED"
    then collect (array_items (context_value "issues" p)) []
    else []

abbrev pub field_errors_of : ProblemDetails → List (String × FieldIssue)
field_errors_of p = elim (text_value (context_value "field" p)) [
  | none ↦ collected p
  | some field ↦
      if p.code == "APPLICATION_INTAKE_INVALID" then (field, invalid) ∷ [] else collected p
]

-- `problemFieldErrors`
unfoldable pub problem_field_errors : Option ApiError → List (String × FieldIssue)
unfolding collect field_issue_message last_named
problem_field_errors error = elim (problem_details_from error) [
  | none ↦ []
  | some p ↦ field_errors_of p
]

-- `placed`: the refusals whose field the form owns, by a map from the server's names to the form's
abbrev pub placed : List (String × String) → List (String × FieldIssue) → List (String × FieldIssue)
placed fields errors = select (λ (e : String × FieldIssue). has e.0 fields) errors

-- What `setError` is called with: the form's own field and the sentence, and whether it takes the focus,
-- which the first does; with the server's name of the field, for which it is called.
pub record SetError : Type 0 where
  pub name : String
  pub form_field : String
  pub issue : FieldIssue
  pub should_focus : Bool

-- the effect of `useServerFieldErrors`, from the first placed refusal or from a later one
unfoldable pub set_errors :
    (first : Bool) → List (String × String) → List (String × FieldIssue) → List SetError
set_errors first fields [] = []
set_errors first fields ((field, issue) ∷ later) =
    let rest = set_errors false fields later in
    elim (lookup field fields) [
      | none ↦ rest
      | some form_field ↦
          record { name = field; form_field = form_field; issue = issue; should_focus = first }
          ∷ rest
    ]

-- the names that `useServerFieldErrors` returns
abbrev pub inline_fields : List (String × String) → Option ApiError → List String
inline_fields fields error =
    map (λ (e : String × FieldIssue). e.0) (placed fields (problem_field_errors error))

-- `listed` of `ErrorCallout`
abbrev pub listed : List String → Option ApiError → List (String × FieldIssue)
listed inline error =
    select (λ (e : String × FieldIssue). not (includes e.0 inline)) (problem_field_errors error)
