-- ===== src/Errors.antt =====
-- src/enterprise_orchestrator/errors/exceptions.py: the exceptions, less their `details`. A class
-- of the hierarchy is a constructor of `ErrorClass`.
use enterprise_multi_agent_o.Base.{String, ◌<>◌, ◌≡◌, refl, ◌⊎◌, inl, inr, Bool, true, false}

pub data ErrorClass : Type 0 where
  orchestrator validation configuration provider provider_unavailable : ErrorClass
  tool tool_not_found tool_execution retrieval orchestration task_dependency : ErrorClass
  timeout human_intervention authentication authorization idempotency_conflict : ErrorClass

pub record OrchestratorError : Type 0 where
  pub kind : ErrorClass
  pub message : String
  pub code : String
  pub retryable : Bool

-- What a Python `except` clause may meet. `other` is any exception from outside the hierarchy,
-- by its text, and `cancelled` is `asyncio.CancelledError`, which `except Exception` lets pass.
pub data Exception : Type 0 where
  orchestrator_error : OrchestratorError → Exception
  other : String → Exception
  cancelled : Exception

-- `str(e)`
abbrev pub text_of : Exception → String
text_of (orchestrator_error e) = e.message
text_of (other s) = s
text_of cancelled = ""

pub data Result {ℓ} (A : Type ℓ) : Type ℓ where
  ok : A → Result A
  raises : Exception → Result A

infixl 5 ◌>>=◌ ◌>>◌
abbrev pub ◌>>=◌ {ℓ κ} : {A : Type ℓ} {B : Type κ} → Result A → (A → Result B) → Result B
ok a >>= f = f a
raises e >>= f = raises e

abbrev pub ◌>>◌ {ℓ} : {B : Type ℓ} → Result (Unit {0}) → Result B → Result B
m >> k = m >>= λ _. k

-- `if test: raise e`
abbrev pub raise_if : Bool → OrchestratorError → Result (Unit {0})
raise_if true e = raises (orchestrator_error e)
raise_if false e = ok tt

unfoldable pub validation_error : String → String → OrchestratorError
validation_error message code = record {
  kind = ErrorClass.validation;
  message = message;
  code = code;
  retryable = true;
}

unfoldable pub configuration_error : String → String → OrchestratorError
configuration_error message code = record {
  kind = ErrorClass.configuration;
  message = message;
  code = code;
  retryable = false;
}

unfoldable pub provider_error : String → String → Bool → OrchestratorError
provider_error message code retryable = record {
  kind = ErrorClass.provider;
  message = message;
  code = code;
  retryable = retryable;
}

unfoldable pub tool_not_found_error : String → OrchestratorError
tool_not_found_error tool_name = record {
  kind = ErrorClass.tool_not_found;
  message = "Tool '" <> tool_name <> "' is not registered in the tool registry.";
  code = "TOOL_NOT_FOUND";
  retryable = false;
}

unfoldable pub tool_execution_error : String → Bool → OrchestratorError
tool_execution_error message retryable = record {
  kind = ErrorClass.tool_execution;
  message = message;
  code = "TOOL_EXECUTION_ERROR";
  retryable = retryable;
}

unfoldable pub timeout_error : String → OrchestratorError
timeout_error message = record {
  kind = ErrorClass.timeout;
  message = message;
  code = "TIMEOUT_ERROR";
  retryable = true;
}

unfoldable pub orchestration_error : String → String → Bool → OrchestratorError
orchestration_error message code retryable = record {
  kind = ErrorClass.orchestration;
  message = message;
  code = code;
  retryable = retryable;
}

unfoldable pub authorization_error : String → OrchestratorError
authorization_error message = record {
  kind = ErrorClass.authorization;
  message = message;
  code = "FORBIDDEN";
  retryable = false;
}

unfoldable pub authentication_error : String → String → OrchestratorError
authentication_error message code = record {
  kind = ErrorClass.authentication;
  message = message;
  code = code;
  retryable = false;
}

-- execution/idempotency.py
unfoldable pub idempotency_conflict_error : OrchestratorError
idempotency_conflict_error = record {
  kind = ErrorClass.idempotency_conflict;
  message = "Idempotency key already used with a different request payload.";
  code = "IDEMPOTENCY_CONFLICT";
  retryable = false;
}

-- `isinstance(e, ProviderError)`
abbrev pub is_provider_error : ErrorClass → Bool
is_provider_error ErrorClass.provider = true
is_provider_error ErrorClass.provider_unavailable = true
is_provider_error _ = false

-- `isinstance(e, AuthenticationError)`
abbrev pub is_authentication_error : ErrorClass → Bool
is_authentication_error ErrorClass.authentication = true
is_authentication_error _ = false

pub Result-cases {ℓ} :
    {A : Type ℓ} (r : Result A) → ((a : A) × (r ≡ ok a)) ⊎ ((e : Exception) × (r ≡ raises e))
Result-cases (ok a) = inl (a, refl)
Result-cases (raises e) = inr (e, refl)
