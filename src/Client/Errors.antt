-- ===== src/Client/Errors.antt =====
-- What a request of frontend/src/api/client.ts comes to, for every response and failure of `fetch`.
use full_stack_resume.Common.{
  ℕ, String, ◌≡◌, refl, inl, inr, Bool, true, false, not, ◌&&◌, ◌||◌, Option, none, some, ◌==◌, eqb,
  if◌then◌else◌, Bool-cases, present, or_else,
}
use text.Mathlib.Text.{starts_with}
use full_stack_resume.Api.Analyses.Document.{Json}
use full_stack_resume.Client.{
  ProblemDetails, as_problem, Response, is_ok, Fetched, answered, aborted, unreachable, problem,
  abort, ApiResponse, ApiOutcome, returned, raised, fallback_problem, network_unavailable,
  invalid_server_response, read_json, auth_path_prefix, answer, api_request,
}

-- The JSON that a response carries: of a JSON content type, and readable.
abbrev pub carried : Response → Option Json
carried r = if r.is_json then r.json else none

-- Whether a response is a success that a caller can read: a 2xx with JSON, or a 204 that claims none.
abbrev pub is_readable : Response → Bool
is_readable r = is_ok r.status && (present (carried r) || (eqb r.status 204 && not r.is_json))

-- What such a success gives: of a 204 nothing but the status.
abbrev pub success_of : Response → ApiResponse
success_of r =
    if eqb r.status 204
    then record { payload = none; status = 204; etag = none; location = none }
    else record { payload = carried r; status = r.status; etag = r.etag; location = r.location }

-- The problem that a response of another kind is reported as.
abbrev pub problem_of_response : Response → ProblemDetails
problem_of_response r =
    if is_ok r.status
    then invalid_server_response
    else or_else (elim (carried r) [ none ↦ none | some j ↦ as_problem j ])
        (fallback_problem r.status)

-- Whether a response says that the session is gone, to a request outside the sign-in routes.
abbrev pub ends_session : String → Response → Bool
ends_session path r =
    not (is_ok r.status)
    && (problem_of_response r).code == "AUTHENTICATION_REQUIRED"
    && not (starts_with path auth_path_prefix)

-- The outcome by the response alone.
abbrev pub expected_outcome : String → Fetched → ApiOutcome
expected_outcome path aborted = raised false abort
expected_outcome path (unreachable message) = raised false (problem (network_unavailable message))
expected_outcome path (answered r) =
    if is_readable r
    then returned (success_of r)
    else raised (ends_session path r) (problem (problem_of_response r))

fallback_code : (status : ℕ) → ((fallback_problem status).code == "AUTHENTICATION_REQUIRED") ≡ false
fallback_code status = refl

answer-expected :
    (path : String) (r : Response) (j : Option Json) (is_json : Bool)
    → r.json ≡ j
    → r.is_json ≡ is_json
    → answer path r (read_json r) ≡ expected_outcome path (answered r)
answer-expected path r none true e k =
    rw (e, k)
      (elim (Bool-cases (is_ok r.status)) [
        | inl h ↦
            rw h (elim (Bool-cases (eqb r.status 204)) [ inl n ↦ rw n refl | inr n ↦ rw n refl ])
        | inr h ↦ rw h refl
      ])
answer-expected path r (some j) true e k =
    rw (e, k)
      (elim (Bool-cases (is_ok r.status)) [
        | inl h ↦
            rw h (elim (Bool-cases (eqb r.status 204)) [ inl n ↦ rw n refl | inr n ↦ rw n refl ])
        | inr h ↦ rw h refl
      ])
answer-expected path r j false e k = rw k (elim (Bool-cases (is_ok r.status)) [
  | inl h ↦ rw h (elim (Bool-cases (eqb r.status 204)) [ inl n ↦ rw n refl | inr n ↦ rw n refl ])
  | inr h ↦ rw h refl
])

-- A request ends as its response says, for every response and every failure of the fetch: with the
-- data of a readable success, with the problem that the response carries or stands for, with a network
-- problem, or with the abort; and the handler of a lost session runs exactly for a refused request
-- outside the sign-in routes whose problem says that authentication is required.
pub api_request-expected :
    (path : String) (f : Fetched) → api_request path f ≡ expected_outcome path f
unfolding api_request
api_request-expected path aborted = refl
api_request-expected path (unreachable message) = refl
api_request-expected path (answered r) = answer-expected path r r.json r.is_json refl refl
