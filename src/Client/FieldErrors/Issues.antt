-- ===== src/Client/FieldErrors/Issues.antt =====
-- The refusals that a problem of a request's validation names (`problemFieldErrors` of
-- frontend/src/ui/errorMessages.ts), against the issues as the server writes them.
use full_stack_resume.Common.{
  String, ◌≡◌, refl, sym, ap, ◌∙◌, inl, inr, Bool, true, false, not, Option, none, some, List, [],
  ◌∷◌, ◌++◌, all, arith, ◌==◌, eq_iff, if◌then◌else◌, Bool-cases, present, first_of_two, lookup,
  has,
}
use full_stack_resume.Api.Analyses.Document
use full_stack_resume.Api.Analyses.Document.{
  Json, Entries, Fields, property, text_value, entries_of,
}
use full_stack_resume.Client.{ProblemDetails, problem}
use full_stack_resume.Client.FieldErrors.{
  FieldIssue, field_issue_message, last_named, issue_message, set_first, collect,
  problem_field_errors,
}

-- An issue as the server writes it: where its field stands, the field's name, and the rule that it broke.
pub record RefusedField : Type 0 where
  pub before : List Json
  pub field : String
  pub kind : Option String

abbrev pub location_json : List Json → String → Entries
location_json [] field = Document.with_entry (Document.text field) Document.no_entries
location_json (part ∷ parts) field = Document.with_entry part (location_json parts field)

abbrev pub kind_json : Option String → Fields
kind_json none = Document.no_fields
kind_json (some kind) = Document.with_field "type" (Document.text kind) Document.no_fields

abbrev pub issue_json : RefusedField → Json
issue_json r = Document.object (
    Document.with_field "location" (Document.array (location_json r.before r.field))
      (kind_json r.kind))

abbrev pub issues_json : List RefusedField → Entries
issues_json [] = Document.no_entries
issues_json (r ∷ rs) = Document.with_entry (issue_json r) (issues_json rs)

abbrev pub validation_problem : List RefusedField → ProblemDetails
validation_problem rs = record {
  kind = "about:blank";
  title = "Invalid";
  status = 422;
  code = "REQUEST_VALIDATION_FAILED";
  detail = "";
  context = some (
      Document.object
        (Document.with_field "issues" (Document.array (issues_json rs)) Document.no_fields));
}

-- The name of a field is not that of the request's body.
abbrev pub is_named : RefusedField → Bool
is_named r = not (r.field == "body")

-- What the first issue of a field says.
abbrev pub first_issue : String → List RefusedField → Option FieldIssue
first_issue field [] = none
first_issue field (r ∷ rs) =
    let rest = first_issue field rs in
    if r.field == field then some (field_issue_message r.kind) else rest

last_named-location :
    (parts : List Json) (field : String)
    → (field == "body") ≡ false
    → last_named (entries_of (location_json parts field)) ≡ some field
unfolding last_named
last_named-location [] field h = rw h refl
last_named-location (part ∷ parts) field h = rw (last_named-location parts field h) refl

kind-issue : (r : RefusedField) → issue_message (issue_json r) ≡ field_issue_message r.kind
kind-issue r = ap field_issue_message (at_kind r.kind)
  where
    at_kind :
        (k : Option String)
        → text_value (
            property "type" (
              Document.object (
                Document.with_field "location"
                  (Document.array (location_json r.before r.field))
                  (kind_json k))))
          ≡ k
    at_kind none = refl
    at_kind (some k) = refl

lookup-append :
    (field added : String) (issue : FieldIssue) (errors : List (String × FieldIssue))
    → lookup field (errors ++ (added, issue) ∷ [])
      ≡ first_of_two (lookup field errors) (if added == field then some issue else none)
unfolding lookup
lookup-append field added issue [] = ground arith
lookup-append field added issue ((here, old) ∷ later) =
    ground (arith, lookup-append field added issue later)

or_added :
    (o : Option FieldIssue) (b : Bool) (issue : FieldIssue)
    → (b ≡ true → present o ≡ true)
    → o ≡ first_of_two o (if b then some issue else none)
or_added (some i) b issue h = refl
or_added none true issue h = absurd_false (h refl)
  where
    absurd_false : false ≡ true → none ≡ some issue
    absurd_false e = cc
or_added none false issue h = refl

lookup-set_first :
    (field added : String) (issue : FieldIssue) (errors : List (String × FieldIssue))
    → lookup field (set_first (some added) issue errors)
      ≡ first_of_two (lookup field errors) (if added == field then some issue else none)
lookup-set_first field added issue errors = elim (Bool-cases (has added errors)) [
  | inl h ↦ rw h (
      or_added (lookup field errors) (added == field) issue
        (λ (k : _). ap (λ f. has f errors) (sym ((eq_iff added field).0 k)) ∙ h))
  | inr h ↦ rw h (lookup-append field added issue errors)
]

first_assoc :
    (a : Option FieldIssue) (b : Bool) (issue : FieldIssue) (c : Option FieldIssue)
    → first_of_two (first_of_two a (if b then some issue else none)) c
      ≡ first_of_two a (if b then some issue else c)
first_assoc none true issue c = refl
first_assoc none false issue c = refl
first_assoc (some i) b issue c = refl

first_none : (o : Option FieldIssue) → o ≡ first_of_two o none
first_none none = refl
first_none (some i) = refl

lookup-collect :
    (field : String) (rs : List RefusedField) (errors : List (String × FieldIssue))
    → all is_named rs ≡ true
    → lookup field (collect (entries_of (issues_json rs)) errors)
      ≡ first_of_two (lookup field errors) (first_issue field rs)
unfolding collect
lookup-collect field [] errors h = first_none (lookup field errors)
lookup-collect field (r ∷ rs) errors h =
    let named = last_named-location r.before r.field (ground (arith, h)) in
    let kept = set_first (some r.field) (field_issue_message r.kind) errors in
    ap
      (λ (o : Option String).
        lookup field (
          collect (entries_of (issues_json rs))
            (set_first o (issue_message (issue_json r)) errors)))
      named
    ∙ ap
        (λ (i : FieldIssue).
          lookup field (collect (entries_of (issues_json rs)) (set_first (some r.field) i errors)))
        (kind-issue r)
    ∙ lookup-collect field rs kept (ground (arith, h))
    ∙ ap (λ o. first_of_two o (first_issue field rs))
        (lookup-set_first field r.field (field_issue_message r.kind) errors)
    ∙ first_assoc (lookup field errors) (r.field == field) (field_issue_message r.kind)
        (first_issue field rs)

pub problem_field_errors-first :
    (field : String) (rs : List RefusedField)
    → all is_named rs ≡ true
    → lookup field (problem_field_errors (some (problem (validation_problem rs))))
      ≡ first_issue field rs
unfolding problem_field_errors lookup
problem_field_errors-first field rs h = lookup-collect field rs [] h
