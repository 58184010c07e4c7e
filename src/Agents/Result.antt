-- ===== src/Agents/Result.antt =====
-- src/enterprise_orchestrator/agents/result.py. The payload of a result is of the type that the
-- agent fills it with. The time that an execution takes and its diagnostic metadata are left out.
use enterprise_multi_agent_o.Base.{String, Bool, true, false, Option, none, some, if◌then◌else◌}

pub data AgentStatus : Type 0 where
  success failure retryable_failure escalate_human cancelled : AgentStatus

pub record AgentResult (O : Type 0) : Type 0 where
  pub agent_name : String
  pub status : AgentStatus
  pub output : Option O
  pub raw_response : Option String
  pub error : Option String
  pub retryable : Bool
  pub requires_human : Bool

module _ {O : Type 0} where
  unfoldable pub success_result : String → O → Option String → AgentResult O
  success_result agent_name output raw_response = record {
    agent_name = agent_name;
    status = AgentStatus.success;
    output = some output;
    raw_response = raw_response;
    error = none;
    retryable = false;
    requires_human = false;
  }

  unfoldable pub failure_result : String → String → Bool → AgentResult O
  failure_result agent_name error retryable = record {
    agent_name = agent_name;
    status = if retryable then AgentStatus.retryable_failure else AgentStatus.failure;
    output = none;
    raw_response = none;
    error = some error;
    retryable = retryable;
    requires_human = false;
  }

  unfoldable pub escalate_result : String → String → Option O → AgentResult O
  escalate_result agent_name reason context = record {
    agent_name = agent_name;
    status = AgentStatus.escalate_human;
    output = context;
    raw_response = none;
    error = some reason;
    retryable = false;
    requires_human = true;
  }

abbrev pub is_success : AgentStatus → Bool
is_success AgentStatus.success = true
is_success _ = false

abbrev pub is_escalation : AgentStatus → Bool
is_escalation AgentStatus.escalate_human = true
is_escalation _ = false
