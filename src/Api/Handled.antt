-- ===== src/Api/Handled.antt =====
-- A route of the API that answers: its permission, and its handler.
use enterprise_multi_agent_o.Base.{
  ◌≡◌, refl, Option, none, some, string_eq, nat_eq, inl, inr, Bool-cases, arith,
}
use enterprise_multi_agent_o.Errors.{ok}
use enterprise_multi_agent_o.Security.Roles.{
  Permission, AuthenticatedIdentity, has_permission, require_permission,
}
use enterprise_multi_agent_o.Security.RateLimiter.{Store}
use enterprise_multi_agent_o.Execution.Models.{Backend}
use enterprise_multi_agent_o.Api.{
  Response, answers, http_exception, fails, Limits, route, run_handler, require, require_rate_limit,
}

run_handler-answers :
    {A : Type 0} (h : Backend → Response A × Backend) (b : Backend)
    (q : Response AuthenticatedIdentity × Store) (x : A)
    → (run_handler h b q).0 ≡ answers x
    → ((h b).0 ≡ answers x) × ((run_handler h b q).1.1 ≡ (h b).1)
unfolding run_handler
run_handler-answers h b (answers _, limiter) x e = (e, refl)
run_handler-answers h b (http_exception c d, limiter) x e = absurd (ground (arith, e))
run_handler-answers h b (fails y, limiter) x e = absurd (ground (arith, e))

-- A route that answers has met its permission, and its handler has answered.
abbrev pub IsHandled :
    {A : Type 0}
    → Option Permission
    → AuthenticatedIdentity
    → A
    → Response A × Backend
    → Response A × (Store × Backend)
    → Type 0
IsHandled p identity x handled routed =
    (require p identity ≡ ok identity) × (handled.0 ≡ answers x) × (routed.1.1 ≡ handled.1)

pub route-IsHandled :
    {A : Type 0} (p : Option Permission) (limits : Limits) (identity : AuthenticatedIdentity)
    (h : Backend → Response A × Backend) (limiter : Store) (b : Backend) (x : A)
    → (route p limits identity h (limiter, b)).0 ≡ answers x
    → IsHandled p identity x (h b) (route p limits identity h (limiter, b))
unfolding route require require_permission
route-IsHandled none limits identity h limiter b x e =
    let q = require_rate_limit none 6000 limits identity limiter in
    let (handled, after) = run_handler-answers h b q x e in (refl, handled, after)
route-IsHandled (some p) limits identity h limiter b x e =
    elim (Bool-cases (has_permission p identity)) [
      | inr lacks ↦ absurd (ground (arith, e, lacks))
      | inl has ↦
          let q = require_rate_limit none 6000 limits identity limiter in
          let (handled, after) = run_handler-answers h b q x (ground (arith, e, has)) in
          (ground (arith, has), handled, ground (arith, has, after))
    ]
