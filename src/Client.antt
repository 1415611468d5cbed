-- ===== src/Client.antt =====
-- The one function that speaks to the server (frontend/src/api/client.ts), the retry of reads
-- (frontend/src/app/queryClient.ts) and the poll of an operation (frontend/src/api/operations.ts). What
-- `fetch` and the reading of a body give is the argument `Fetched`; numbers of a body are naturals.
pub mod Errors
pub mod FieldErrors
pub mod Reads
mod Tests
use full_stack_resume.Common.{
  ℕ, ◌-◌, ◌/◌, ◌<◌, String, Bool, false, not, ◌&&◌, ◌||◌, Option, none, some, ◌==◌, ltb, eqb, leb,
  if◌then◌else◌, or_else, without,
}
use text.Mathlib.Text.{starts_with}
use full_stack_resume.Common.Text.{decimal}
use full_stack_resume.Api.Analyses.Document.{Json, property, text_value, number_value}
use full_stack_resume.Navigation.{◌<>◌}
use full_stack_resume.Navigation.Encode.{encode}
use full_stack_resume.Api.Operations.{Operation, is_terminal_operation}

pub record ProblemDetails : Type 0 where
  pub kind : String
  pub title : String
  pub status : ℕ
  pub code : String
  pub detail : String
  pub context : Option Json

abbrev pub problem_of :
    Option Json
    → Option String
    → Option String
    → Option ℕ
    → Option String
    → Option String
    → Option ProblemDetails
problem_of context (some kind) (some title) (some status) (some code) (some detail) = some (record {
  kind = kind;
  title = title;
  status = status;
  code = code;
  detail = detail;
  context = context;
})
problem_of context _ _ _ _ _ = none

-- `isProblemDetails`, with the details it then reads
unfoldable pub as_problem : Json → Option ProblemDetails
as_problem value =
    problem_of (property "context" value) (text_value (property "type" value))
      (text_value (property "title" value)) (number_value (property "status" value))
      (text_value (property "code" value)) (text_value (property "detail" value))

-- A response: its status, whether its Content-Type names one of the two JSON types, what reading its
-- body as JSON gives (none when that throws), and its two headers.
pub record Response : Type 0 where
  pub status : ℕ
  pub is_json : Bool
  pub json : Option Json
  pub etag : Option String
  pub location : Option String

-- `response.ok`
abbrev pub is_ok : ℕ → Bool
is_ok status = leb 200 status && ltb status 300

-- What `fetch` comes to: a response, an abort, or another failure with its message.
pub data Fetched : Type 0 where
  answered : Response → Fetched
  aborted : Fetched
  unreachable : (message : Option String) → Fetched

-- What a request throws: an `ApiProblem`, or the abort as it is.
pub data ApiError : Type 0 where
  problem : ProblemDetails → ApiError
  abort : ApiError

pub record ApiResponse : Type 0 where
  pub payload : Option Json
  pub status : ℕ
  pub etag : Option String
  pub location : Option String

-- The end of a request, and whether it called the handler of a lost session.
pub data ApiOutcome : Type 0 where
  returned : ApiResponse → ApiOutcome
  raised : (session_lost : Bool) → ApiError → ApiOutcome

abbrev pub fallback_problem : ℕ → ProblemDetails
fallback_problem status = record {
  kind = "about:blank#unexpected-http-error";
  title = "Request failed";
  status = status;
  code = "UNEXPECTED_HTTP_ERROR";
  detail = "HTTP " <> decimal status <> " without a Problem Details body";
  context = none;
}

-- `clientProblem`, with the lower-case code that its type ends in
abbrev pub client_problem : String → String → String → String → ProblemDetails
client_problem lower_code code title detail = record {
  kind = "about:blank#" <> lower_code;
  title = title;
  status = 0;
  code = code;
  detail = detail;
  context = none;
}

abbrev pub network_unavailable : Option String → ProblemDetails
network_unavailable message =
    client_problem "network_unavailable" "NETWORK_UNAVAILABLE" "Network unavailable"
      (or_else message "The request did not reach the server.")

abbrev pub invalid_server_response : ProblemDetails
invalid_server_response =
    client_problem "invalid_server_response" "INVALID_SERVER_RESPONSE" "Invalid server response"
      "The response body could not be read as JSON."

-- `readJson`: undefined for another content type, a value, or a throw
pub data ReadBody : Type 0 where
  undefined : ReadBody
  value : Json → ReadBody
  unreadable : ReadBody

abbrev pub read_json : Response → ReadBody
read_json r = if r.is_json then elim r.json [ none ↦ unreadable | some j ↦ value j ] else undefined

abbrev pub auth_path_prefix : String
auth_path_prefix = "/api/v1/auth/"

-- the throw of a response that is not ok, with the problem that it carries
abbrev pub refused : String → ProblemDetails → ApiOutcome
refused path p =
    raised (p.code == "AUTHENTICATION_REQUIRED" && not (starts_with path auth_path_prefix))
      (problem p)

-- from the body read on
abbrev pub answer : String → Response → ReadBody → ApiOutcome
answer path r unreadable =
    raised false
      (problem (if is_ok r.status then invalid_server_response else fallback_problem r.status))
answer path r undefined =
    if not (is_ok r.status)
    then refused path (fallback_problem r.status)
    else if eqb r.status 204
    then returned (record { payload = none; status = 204; etag = none; location = none })
    else raised false (problem invalid_server_response)
answer path r (value j) =
    if not (is_ok r.status)
    then refused path (or_else (as_problem j) (fallback_problem r.status))
    else if eqb r.status 204
    then returned (record { payload = none; status = 204; etag = none; location = none })
    else returned
        (record { payload = some j; status = r.status; etag = r.etag; location = r.location })

-- `apiRequest`, from its `fetch` on
unfoldable pub api_request : String → Fetched → ApiOutcome
unfolding as_problem
api_request path aborted = raised false abort
api_request path (unreachable message) = raised false (problem (network_unavailable message))
api_request path (answered r) = answer path r (read_json r)

-- `isPermanentFailure`
abbrev pub is_permanent_status : ℕ → Bool
is_permanent_status status =
    leb 400 status && ltb status 500 && not (eqb status 408 || eqb status 429)

unfoldable pub is_permanent_failure : ApiError → Bool
is_permanent_failure (problem p) = is_permanent_status p.status
is_permanent_failure abort = false

unfoldable pub max_query_retries : ℕ
max_query_retries = 1

-- the `retry` of the queries
unfoldable pub retries_query : ℕ → ApiError → Bool
unfolding max_query_retries is_permanent_failure
retries_query failure_count error =
    ltb failure_count max_query_retries && not (is_permanent_failure error)

unfoldable pub operation_poll_interval_ms : ℕ
operation_poll_interval_ms = 1500

-- `refetchInterval`, of the query's data and error; none is false
unfoldable pub refetch_interval : Option Operation → Option ApiError → Option ℕ
unfolding is_permanent_failure operation_poll_interval_ms
refetch_interval operation error =
    if is_terminal_operation operation
      || elim error [ none ↦ false | some e ↦ is_permanent_failure e ]
    then none
    else some operation_poll_interval_ms

-- `operationPath`
unfoldable pub operation_path : String → String
operation_path id = "/api/v1/operations/" <> encode id

-- `queuedOperation`: none is its throw
unfoldable pub queued_operation : Operation → ℕ → Option String → Option Operation
unfolding operation_path
queued_operation operation status location =
    if eqb status 202 && elim location [ none ↦ false | some l ↦ l == operation_path operation.id ]
    then some operation
    else none
