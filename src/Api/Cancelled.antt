-- ===== src/Api/Cancelled.antt =====
-- The route of api/routes/runs.py that cancels a run.
use enterprise_multi_agent_o.Base.{ℕ, String, ◌≡◌, some, string_eq, nat_eq}
use enterprise_multi_agent_o.Base.Dict.{lookup}
use enterprise_multi_agent_o.Core.Types.{ExecutionStatus}
use enterprise_multi_agent_o.Core.State.{OrchestrationState, set_status}
use enterprise_multi_agent_o.Errors.{ok}
use enterprise_multi_agent_o.Execution.Models.{Backend}
use enterprise_multi_agent_o.Api.Summaries.{RunResponse, state_to_run_response}

-- What a cancellation leaves, for a run that was in the state `s`.
abbrev pub IsCancelled : (now : ℕ) → OrchestrationState → String → RunResponse → Backend → Type 0
IsCancelled now s run_id x b =
    (lookup run_id b.store ≡ some (set_status now ExecutionStatus.cancelled s))
    × (state_to_run_response (set_status now ExecutionStatus.cancelled s) ≡ ok x)
