-- ===== src/Api.antt =====
-- src/enterprise_orchestrator/api/: what a route answers, the handlers of api/app.py for what it
-- raises, and the dependencies that run before it.
pub mod Summaries
pub mod Runs
pub mod Human
pub mod Handled
pub mod Authorized
pub mod Cancelled
pub mod Submitted
pub mod Duplicates
mod Tests
use enterprise_multi_agent_o.Base.{
  ℕ, String, ◌<>◌, ◌==◌, Bool, true, false, Option, none, some, if◌then◌else◌, string_eq, nat_eq,
}
use enterprise_multi_agent_o.Errors.{
  ErrorClass, OrchestratorError, Exception, orchestrator_error, other, cancelled, Result, ok,
  raises,
}
use enterprise_multi_agent_o.Security.Roles.{Permission, AuthenticatedIdentity, require_permission}
use enterprise_multi_agent_o.Security.RateLimiter.{Store, Quota, check_rate_limit}
use enterprise_multi_agent_o.Execution.Models.{Backend}

-- What a route ends in: its response, an `HTTPException`, or another exception. An exception's
-- headers are left out.
pub data Response {ℓ} (A : Type ℓ) : Type ℓ where
  answers : A → Response A
  http_exception : (status_code : ℕ) (detail : String) → Response A
  fails : Exception → Response A

-- The status code and the body of an `ErrorResponse`, less its details.
pub record ErrorReply : Type 0 where
  pub status_code : ℕ
  pub error : String
  pub code : String

-- The handler that FastAPI picks for a class of the hierarchy, by the nearest of its bases.
unfoldable pub framework_status : OrchestratorError → ℕ
framework_status e = elim e.kind [
  | ErrorClass.authentication ↦ 401
  | ErrorClass.authorization ↦ 403
  | ErrorClass.idempotency_conflict ↦ 409
  | _ ↦ if e.code == "RUN_NOT_FOUND" then 404 else 400
]

-- The handlers of `create_app`. A cancellation is no `Exception`, so none of them sees it.
unfoldable pub error_reply : {A : Type 0} → Response A → Option ErrorReply
unfolding framework_status
error_reply (answers _) = none
error_reply (http_exception status_code detail) =
    some (record { status_code = status_code; error = detail; code = "HTTP_ERROR" })
error_reply (fails (orchestrator_error e)) =
    some (record { status_code = framework_status e; error = e.message; code = e.code })
error_reply (fails (other _)) = some (record {
  status_code = 500;
  error = "An unexpected internal server error occurred.";
  code = "INTERNAL_SERVER_ERROR";
})
error_reply (fails cancelled) = none

-- The settings that limit requests, with the key limit and the clock of the limiter's check and
-- with how its waiting time is printed.
pub record Limits : Type 0 where
  pub rate_limit_enabled : Bool
  pub rate_limit_authenticated_per_minute : ℕ
  pub max_keys : ℕ
  pub now : ℕ
  pub show_seconds : ℕ → String

-- `max_requests or settings.rate_limit_authenticated_per_minute`
unfoldable pub limit_of : Option ℕ → ℕ → ℕ
limit_of none limit = limit
limit_of (some n) limit = if n == 0 then limit else n

unfoldable pub on_quota :
    Limits → AuthenticatedIdentity → Result Quota → Response AuthenticatedIdentity
on_quota limits identity (ok q) =
    if q.is_allowed
    then answers identity
    else http_exception 429
        ("Rate limit exceeded. Try again in " <> limits.show_seconds q.retry_after <> " seconds.")
on_quota limits identity (raises e) = fails e

-- `_rate_limit_dependency`, with the window in hundredths of a second.
unfoldable pub require_rate_limit :
    (max_requests : Option ℕ) (window : ℕ)
    → Limits
    → AuthenticatedIdentity
    → Store
    → Response AuthenticatedIdentity × Store
unfolding limit_of on_quota check_rate_limit
require_rate_limit max_requests window limits identity limiter =
    if limits.rate_limit_enabled
    then (let (quota, limiter) =
          check_rate_limit limits.max_keys limits.now ("sub:" <> identity.subject_id)
            (limit_of max_requests limits.rate_limit_authenticated_per_minute) window limiter in
        (on_quota limits identity quota, limiter))
    else (answers identity, limiter)

-- `Depends(require_permission(...))`, or `Depends(get_current_user)` where a route asks for none.
unfoldable pub require : Option Permission → AuthenticatedIdentity → Result AuthenticatedIdentity
unfolding require_permission
require none identity = ok identity
require (some p) identity = require_permission p identity

-- A handler runs on the backend, once the limiter has let the request pass.
unfoldable pub run_handler :
    {A : Type 0}
    → (Backend → Response A × Backend)
    → Backend
    → Response AuthenticatedIdentity × Store
    → Response A × (Store × Backend)
run_handler handler b (answers _, limiter) =
    let (response, b) = handler b in (response, (limiter, b))
run_handler handler b (http_exception status_code detail, limiter) =
    (http_exception status_code detail, (limiter, b))
run_handler handler b (fails e, limiter) = (fails e, (limiter, b))

-- A route of the runs: its dependencies in the order of its parameters, and then its handler.
unfoldable pub route :
    {A : Type 0}
    → Option Permission
    → Limits
    → AuthenticatedIdentity
    → (Backend → Response A × Backend)
    → Store × Backend
    → Response A × (Store × Backend)
unfolding require require_rate_limit run_handler
route p limits identity handler (limiter, b) = elim (require p identity) [
  | raises e ↦ (fails e, (limiter, b))
  | ok principal ↦ run_handler handler b (require_rate_limit none 6000 limits principal limiter)
]
