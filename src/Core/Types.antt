-- ===== src/Core/Types.antt =====
-- src/enterprise_orchestrator/core/types.py, the enumerations, and the values of `Dict[str, Any]`.
use enterprise_multi_agent_o.Base.{
  ℕ, String, ◌<>◌, Bool, true, false, not, ◌==◌, if◌then◌else◌, string_eq, Option, none, some, List,
  [], ◌∷◌,
}
use enterprise_multi_agent_o.Base.Dict.{Dict}

pub data TaskStatus : Type 0 where
  pending in_progress completed failed blocked skipped cancelled : TaskStatus

pub data TaskType : Type 0 where
  planning retrieval tool_execution validation synthesis custom : TaskType

pub data AgentRole : Type 0 where
  supervisor planner retriever tool_executor validator custom : AgentRole

pub data ExecutionStatus : Type 0 where
  idle running paused_for_human completed failed cancelled : ExecutionStatus

pub data ValidationStatus : Type 0 where
  valid invalid needs_retry needs_human_review : ValidationStatus

pub data HumanRequestStatus : Type 0 where
  pending approved rejected modified timeout : HumanRequestStatus

-- `Any`, as far as the code looks into it.
mutual
  pub data Value : Type 0 where
    null : Value
    bool : Bool → Value
    num : ℕ → Value
    str : String → Value
    obj : Fields → Value

  pub data Fields : Type 0 where
    end : Fields
    field : String → Value → Fields → Fields

abbrev pub Payload : Type 0
Payload = Dict String Value

-- The entries of a nested dict.
abbrev pub entries : Fields → Payload
entries end = []
entries (field k v fs) = (k, v) ∷ entries fs

-- An optional dict as a value.
abbrev pub to_fields : Payload → Fields
to_fields [] = end
to_fields ((k, v) ∷ d) = field k v (to_fields d)

abbrev pub to_value : Option Payload → Value
to_value none = null
to_value (some d) = obj (to_fields d)

-- `d or default`: an empty dict is false, as is None.
abbrev pub payload_or : Option Payload → Payload → Payload
payload_or none default = default
payload_or (some []) default = default
payload_or (some (e ∷ d)) default = e ∷ d

-- `not payload`: an empty dict is false.
abbrev pub truthy {ℓ} : {A : Type ℓ} → List A → Bool
truthy [] = false
truthy (_ ∷ _) = true

-- `bool(s)` for a string.
unfoldable pub nonempty : String → Bool
nonempty s = not (s == "")

-- An optional string inside an f-string.
abbrev pub show_option : Option String → String
show_option none = "None"
show_option (some s) = s

-- `a or b` for an optional string: an empty text is false too.
unfoldable pub text_or : Option String → String → String
unfolding nonempty
text_or none d = d
text_or (some s) d = if nonempty s then s else d

-- A list of strings inside an f-string, for strings without quotes to escape.
show_rest : List String → String
show_rest [] = "]"
show_rest (x ∷ xs) = ", '" <> x <> "'" <> show_rest xs

unfoldable pub show_list : List String → String
unfolding show_rest
show_list [] = "[]"
show_list (x ∷ xs) = "['" <> x <> "'" <> show_rest xs
