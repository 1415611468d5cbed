-- ===== src/Client/Tests.antt =====
-- Requests of client.ts at concrete responses.
use full_stack_resume.Common.{
  ℕ, ◌≡◌, refl, true, false, none, some, String, Option, List, [], ◌∷◌, lookup,
}
use full_stack_resume.Api.Analyses.Document
use full_stack_resume.Api.Analyses.Document.{Json}
use full_stack_resume.Client.{
  ApiError, ProblemDetails, Fetched, answered, problem, raised, api_request, as_problem,
  retries_query, refetch_interval, fallback_problem,
}
use full_stack_resume.Client.Errors.{expected_outcome, api_request-expected}
use full_stack_resume.Client.FieldErrors.{
  required, invalid, problem_field_errors, inline_fields, listed,
}
use full_stack_resume.Client.FieldErrors.Issues.{RefusedField, validation_problem}
use full_stack_resume.Client.Reads.{api_request-retry}

abbrev signed_out : Json
signed_out = Document.object (
    Document.with_field "type" (Document.text "about:blank") (
      Document.with_field "title" (Document.text "Sign in") (
        Document.with_field "status" (Document.number 401) (
          Document.with_field "code" (Document.text "AUTHENTICATION_REQUIRED")
            (Document.with_field "detail" (Document.text "none") Document.no_fields)))))

abbrev answer_with : ℕ → Json → Fetched
answer_with status body =
    answered (record {
      status = status;
      is_json = true;
      json = some body;
      etag = some "e";
      location = none;
    })

-- The session is lost under a screen, and not under the sign-in routes; a page of a proxy is an error of
-- its status.
session_test :
    (expected_outcome "/api/v1/facts" (answer_with 401 signed_out)
      ≡ raised true (
          problem (record {
            kind = "about:blank";
            title = "Sign in";
            status = 401;
            code = "AUTHENTICATION_REQUIRED";
            detail = "none";
            context = none;
          })))
    × (expected_outcome "/api/v1/auth/me" (answer_with 401 signed_out)
        ≡ raised false (
            problem (record {
              kind = "about:blank";
              title = "Sign in";
              status = 401;
              code = "AUTHENTICATION_REQUIRED";
              detail = "none";
              context = none;
            })))
    × (api_request "/api/v1/facts" (answer_with 502 Document.null)
        ≡ raised false (problem (fallback_problem 502)))
unfolding as_problem api_request
session_test = (refl, refl, refl)

api_request-expected_example :
    api_request "/api/v1/facts" (answer_with 401 signed_out)
    ≡ expected_outcome "/api/v1/facts" (answer_with 401 signed_out)
api_request-expected_example = api_request-expected "/api/v1/facts" (answer_with 401 signed_out)

honest_null :
    (j : Json) (p : ProblemDetails)
    → some Document.null ≡ some j
    → as_problem j ≡ some p
    → p.status ≡ 404
unfolding as_problem
honest_null Document.null p e q = cc
honest_null (Document.boolean b) p e q = cc
honest_null (Document.number n) p e q = cc
honest_null (Document.text t) p e q = cc
honest_null (Document.array is) p e q = cc
honest_null (Document.object fs) p e q = cc

api_request-retry_example :
    (retries_query 0 (problem (fallback_problem 404)) ≡ false)
    × (refetch_interval none (some (problem (fallback_problem 404))) ≡ none)
unfolding api_request as_problem
api_request-retry_example =
    api_request-retry "/api/v1/facts" (answer_with 404 Document.null) false
      (problem (fallback_problem 404)) 0 none honest_null refl refl

-- A field of the form's own, under another name there, twice, and one that the form does not have.
abbrev refused_fields : List RefusedField
refused_fields =
    record { before = Document.text "body" ∷ []; field = "notes"; kind = some "missing" }
    ∷ record { before = []; field = "notes"; kind = some "too_long" }
    ∷ record { before = Document.text "body" ∷ []; field = "source"; kind = none }
    ∷ []

abbrev refused_error : Option ApiError
refused_error = some (problem (validation_problem refused_fields))

abbrev form_fields : List (String × String)
form_fields = ("notes", "recruitment_notes") ∷ []

field_errors_test :
    problem_field_errors refused_error ≡ ("notes", required) ∷ ("source", invalid) ∷ []
unfolding problem_field_errors lookup
field_errors_test = refl

listed_test :
    listed (inline_fields form_fields refused_error) refused_error ≡ ("source", invalid) ∷ []
unfolding problem_field_errors lookup
listed_test = refl
