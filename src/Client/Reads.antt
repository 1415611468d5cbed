-- ===== src/Client/Reads.antt =====
-- When a failed read is tried again, and when the poll of an operation ends (frontend/src/api/client.ts,
-- frontend/src/app/queryClient.ts, frontend/src/api/operations.ts).
use full_stack_resume.Common.{
  ℕ, String, ◌≡◌, refl, sym, ap, ◌∙◌, inl, inr, Bool, false, not, ◌&&◌, Option, none, some, arith,
  ltb, leb, ◌||◌, if◌then◌else◌, Bool-cases, or_else,
}
use full_stack_resume.Api.Analyses.Document.{Json}
use full_stack_resume.Client.{
  ProblemDetails, as_problem, Response, is_ok, Fetched, answered, aborted, unreachable, ApiError,
  ApiOutcome, returned, raised, fallback_problem, api_request, is_permanent_status,
  is_permanent_failure, retries_query, refetch_interval,
}
use full_stack_resume.Client.Errors.{
  carried, problem_of_response, expected_outcome, api_request-expected,
}
use full_stack_resume.Api.Operations.{Operation, is_terminal_operation}

-- Whether the status of an answer says that repeating the request cannot help: a 4xx but 408 (a timeout)
-- and 429 (too many requests).
abbrev pub is_final : Fetched → Bool
is_final (answered r) =
    leb 400 r.status && leb r.status 407
    || leb 409 r.status && leb r.status 428
    || leb 430 r.status && leb r.status 499
is_final _ = false

-- A response is told honestly when a problem that it carries states the response's own status.
abbrev pub IsHonest : Fetched → Type 0
IsHonest (answered r) =
    (j : Json) (p : ProblemDetails)
    → carried r ≡ some j
    → as_problem j ≡ some p
    → p.status ≡ r.status
IsHonest _ = Unit

abbrev carried_problem : Option Json → Option ProblemDetails
carried_problem none = none
carried_problem (some j) = as_problem j

honest_lem :
    (status : ℕ) (j : Option Json) (p : Option ProblemDetails)
    → ((k : Json) (q : ProblemDetails) → j ≡ some k → as_problem k ≡ some q → q.status ≡ status)
    → carried_problem j ≡ p
    → (or_else p (fallback_problem status)).status ≡ status
honest_lem status j none h e = refl
honest_lem status none (some p) h e = cc
honest_lem status (some j) (some p) h e = h j p refl e

problem_of_response-status :
    (r : Response)
    → IsHonest (answered r)
    → (problem_of_response r).status ≡ (if is_ok r.status then 0 else r.status)
problem_of_response-status r h = elim (Bool-cases (is_ok r.status)) [
  | inl k ↦ rw k refl
  | inr k ↦ rw k (honest_lem r.status (carried r) _ h refl)
]

permanent_lem :
    (r : Response)
    → IsHonest (answered r)
    → is_permanent_status (problem_of_response r).status ≡ is_permanent_status r.status
permanent_lem r h = ap is_permanent_status (problem_of_response-status r h) ∙ ground arith

final_status : (r : Response) → is_permanent_status r.status ≡ is_final (answered r)
final_status r = ground arith

abbrev error_of : ApiOutcome → Option ApiError
error_of (raised lost e) = some e
error_of (returned r) = none

permanent_error :
    (path : String) (f : Fetched) (e : ApiError)
    → IsHonest f
    → error_of (expected_outcome path f) ≡ some e
    → is_permanent_failure e ≡ is_final f
unfolding is_permanent_failure
permanent_error path aborted e h k = ground arith
permanent_error path (unreachable message) e h k = ground arith
permanent_error path (answered r) e h k = ground (arith, permanent_lem r h, final_status r)

-- A failed read is tried again exactly once, and a running operation is polled on, exactly where
-- another answer is possible: with problems that state the status of their response, a request that
-- threw is retried only as the first failure and not after a 4xx other than 408 and 429, and it ends
-- the poll of an operation that has not ended only after such a 4xx.
pub api_request-retry :
    (path : String) (f : Fetched) (lost : Bool) (e : ApiError) (failure_count : ℕ)
    (o : Option Operation)
    → IsHonest f
    → api_request path f ≡ raised lost e
    → is_terminal_operation o ≡ false
    → (retries_query failure_count e ≡ (ltb failure_count 1 && not (is_final f)))
      × (refetch_interval o (some e) ≡ (if is_final f then none else some 1500))
unfolding retries_query refetch_interval
api_request-retry path f lost e n o h r t =
    let p = permanent_error path f e h (ap error_of (sym (api_request-expected path f) ∙ r)) in
    (ground (arith, p), ground (arith, p))
