-- ===== src/Intake/Submission/Refused.antt =====
-- The duplicates that the server names when it refuses the create command (`duplicateMatchesFromProblem` of
-- frontend/src/api/applications.ts, over client.ts and useApplicationIntakeSubmission.ts).
use full_stack_resume.Common.{ℕ, String, true, Option, none, some, List, [], ◌∷◌}
use full_stack_resume.Api.Analyses.Document.{Json}
use full_stack_resume.Client.{ProblemDetails, Response}
use full_stack_resume.Intake.Submission.{DuplicateMatch, duplicate_acknowledgement_required}
use full_stack_resume.Api.Analyses.Document
use full_stack_resume.Intake.Submission.{
  DuplicateMatchReason, source_url, normalized_text, company_title,
}
use full_stack_resume.Api.Analyses.Document.{Entries}

-- How the server writes a duplicate, by the contract of the refusal.
abbrev pub reason_text : DuplicateMatchReason → String
reason_text source_url = "source_url"
reason_text normalized_text = "normalized_text"
reason_text company_title = "company_title"

abbrev pub reasons_json : List DuplicateMatchReason → Entries
reasons_json [] = Document.no_entries
reasons_json (r ∷ rs) = Document.with_entry (Document.text (reason_text r)) (reasons_json rs)

abbrev pub match_json : DuplicateMatch → Json
match_json m = Document.object (
    Document.with_field "application_id" (Document.text m.application_id) (
      Document.with_field "company" (Document.text m.company) (
        Document.with_field "target_role" (Document.text m.target_role) (
          Document.with_field "matched_on" (Document.array (reasons_json m.matched_on))
            Document.no_fields))))

-- An entry is a duplicate, or a text, which is none.
abbrev pub entries_json : List (Option DuplicateMatch) → Entries
entries_json [] = Document.no_entries
entries_json (some m ∷ entries) = Document.with_entry (match_json m) (entries_json entries)
entries_json (none ∷ entries) = Document.with_entry (Document.text "") (entries_json entries)

abbrev pub named : List (Option DuplicateMatch) → List DuplicateMatch
named [] = []
named (some m ∷ entries) = m ∷ named entries
named (none ∷ entries) = named entries

abbrev pub context_json : List (Option DuplicateMatch) → Json
context_json entries =
    Document.object
      (Document.with_field "matches" (Document.array (entries_json entries)) Document.no_fields)

abbrev pub refusal_of : ℕ → List (Option DuplicateMatch) → ProblemDetails
refusal_of status entries = record {
  kind = "about:blank";
  title = "Duplicate";
  status = status;
  code = duplicate_acknowledgement_required;
  detail = "";
  context = some (context_json entries);
}

abbrev pub refusal_json : ℕ → List (Option DuplicateMatch) → Json
refusal_json status entries = Document.object (
    Document.with_field "type" (Document.text "about:blank") (
      Document.with_field "title" (Document.text "Duplicate") (
        Document.with_field "status" (Document.number status) (
          Document.with_field "code" (Document.text duplicate_acknowledgement_required) (
            Document.with_field "detail" (Document.text "")
              (Document.with_field "context" (context_json entries) Document.no_fields))))))

abbrev pub refused_response : ℕ → List (Option DuplicateMatch) → Response
refused_response status entries = record {
  status = status;
  is_json = true;
  json = some (refusal_json status entries);
  etag = none;
  location = none;
}
