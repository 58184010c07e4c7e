-- ===== src/Agents/Answers.antt =====
-- agents/tool_execution.py and agents/retrieval.py: how a task ends, described apart from the code.
use enterprise_multi_agent_o.Base.{
  ℕ, String, Bool, ◌≡◌, ◌≢◌, ◌⊎◌, true, false, none, some, [], ◌∷◌, string_eq, nat_eq, Option, List,
  ◌++◌, map,
}
use enterprise_multi_agent_o.Base.Dict.{lookup, erase}
use enterprise_multi_agent_o.Base.Text.{strip_text}
use enterprise_multi_agent_o.Core.Types.{Payload, Value, Fields, entries, to_fields}
use enterprise_multi_agent_o.Core.Task.{Task}
use enterprise_multi_agent_o.Core.State.{OrchestrationState}
use enterprise_multi_agent_o.Errors.{other, cancelled, Result, ok, raises, Exception}
use enterprise_multi_agent_o.Agents.Result.{AgentResult, AgentStatus, is_success}
use enterprise_multi_agent_o.Tools.{Tool, ToolRegistry, ToolOutcome, returned, timed_out, raised}
use enterprise_multi_agent_o.Agents.Queries.{IsQuery, IsTopK, IsFilters, IsAsked}
use enterprise_multi_agent_o.Agents.Retrieval.{ScoredDocument, RetrievalQuery, RetrievalResult}

-- The parameters of a call: those nested under "parameters", or where there are none, or null, all
-- entries but the tool's name.
abbrev pub IsGiven : (input_data params : Payload) → Type 0
IsGiven input_data params =
    ((fields : Fields) × (lookup "parameters" input_data ≡ some (Value.obj fields))
      × (params ≡ entries fields))
    ⊎ ((lookup "parameters" input_data ≡ none) ⊎ (lookup "parameters" input_data ≡ some Value.null))
      × (params ≡ erase "tool_name" input_data)

-- The tool that the task names is registered under the name and has been executed, with what its
-- schema makes of the task's parameters, to the outcome.
pub record IsCalled (str : Value → String) (tools : ToolRegistry) (t : Task) (tool_name : String)
    (outcome : ToolOutcome) : Type 0 where
  pub value : Value
  pub named : lookup "tool_name" t.input_data ≡ some value
  pub name : strip_text (str value) ≡ tool_name
  pub params : Payload
  pub given : IsGiven t.input_data params
  pub tool : Tool
  pub registered : lookup tool_name tools ≡ some tool
  pub validated : Payload
  pub valid : tool.model_validate params ≡ ok validated
  pub run : tool.execute validated ≡ outcome

-- The tool's execution has timed out or raised.
abbrev pub IsBroken : ToolOutcome → Type 0
IsBroken (returned _) = ⊥
IsBroken timed_out = Unit
IsBroken (raised e) = e ≢ cancelled

-- A call went well: the result has the tool's output, and so has the state.
abbrev pub IsToolSuccess :
    (tool_name : String) (output : Payload)
    → Result (AgentResult Payload)
    → OrchestrationState
    → Type 0
IsToolSuccess tool_name output r after =
    (a : AgentResult Payload) × (r ≡ ok a)
    × (a.status ≡ AgentStatus.success)
    × (a.output
        ≡ some (("tool_name", Value.str tool_name) ∷ ("result", Value.obj (to_fields output)) ∷ []))
    × (lookup tool_name after.tool_results ≡ some (Value.obj (to_fields output)))

-- The outcomes of the agent, for the state before and what the agent gives.
abbrev pub ToolOutcomes :
    (str : Value → String)
    → ToolRegistry
    → Task
    → OrchestrationState
    → Result (AgentResult Payload) × OrchestrationState
    → Type 0
ToolOutcomes str tools t s (r, after) =
    ((tool_name : String) × (output : Payload) × IsCalled str tools t tool_name (returned output)
      × IsToolSuccess tool_name output r after)
    ⊎ ((a : AgentResult Payload) × (r ≡ ok a)
        × (is_success a.status ≡ false)
        × (after ≡ s)
        × ((a.retryable ≡ false)
            ⊎ ((tool_name : String) × (o : ToolOutcome) × IsCalled str tools t tool_name o
                × IsBroken o)))
    ⊎ ((r ≡ raises cancelled)
        × (after ≡ s)
        × ((tool_name : String) × IsCalled str tools t tool_name (raised cancelled)))

abbrev pub is_text : Value → Bool
is_text (Value.str _) = true
is_text _ = false

abbrev pub is_dict_or_none : Value → Bool
is_dict_or_none Value.null = true
is_dict_or_none (Value.obj _) = true
is_dict_or_none _ = false

-- What the run's context and the result have of a match.
abbrev pub entry_of : ScoredDocument → Payload
entry_of m =
    ("id", Value.str m.id)
    ∷ ("content", Value.str m.content)
    ∷ ("metadata", Value.obj (to_fields m.metadata))
    ∷ ("score", m.score)
    ∷ []

-- A search that went well: the matches of the store are at the end of the run's context, and in
-- the result.
abbrev pub IsSearch :
    (list_value : List Payload → Value)
    → OrchestrationState
    → RetrievalQuery
    → RetrievalResult
    → Result (AgentResult Payload) × OrchestrationState
    → Type 0
IsSearch list_value s query found (r, after) =
    (a : AgentResult Payload) × (r ≡ ok a)
    × (a.status ≡ AgentStatus.success)
    × (a.output
        ≡ some (
            ("query", Value.str query.query)
            ∷ ("matches", list_value (map entry_of found.matches))
            ∷ ("total_found", Value.num found.total_found)
            ∷ []))
    × (after.retrieved_context ≡ s.retrieved_context ++ map entry_of found.matches)

-- The task's query, number of matches or filters are not what the agent can read.
abbrev pub IsMalformed : (as_int : Value → Option ℕ) → OrchestrationState → Task → Type 0
IsMalformed as_int s t =
    ((v : Value) × IsQuery s t v × (is_text v ≡ false))
    ⊎ ((v : Value) × IsTopK t v × ((as_int v ≡ none) ⊎ (as_int v ≡ some 0)))
    ⊎ ((v : Value) × IsFilters t v × (is_dict_or_none v ≡ false))

-- Why a search failed: its query is blank, or the store has raised for what the task asks.
abbrev pub IsUnanswered :
    (as_int : Value → Option ℕ) (retrieve : RetrievalQuery → Result RetrievalResult)
    → OrchestrationState
    → Task
    → Type 0
IsUnanswered as_int retrieve s t =
    ((q : String) × IsQuery s t (Value.str q) × (strip_text q ≡ ""))
    ⊎ ((query : RetrievalQuery) × (e : Exception) × IsAsked as_int s t query
        × (retrieve query ≡ raises e)
        × (e ≢ cancelled))

-- The outcomes of the agent, for the state before, the task, and what the agent gives.
abbrev pub SearchOutcomes :
    (as_int : Value → Option ℕ) (list_value : List Payload → Value)
    (retrieve : RetrievalQuery → Result RetrievalResult)
    → OrchestrationState
    → Task
    → Result (AgentResult Payload) × OrchestrationState
    → Type 0
SearchOutcomes as_int list_value retrieve s t (r, after) =
    ((query : RetrievalQuery) × (found : RetrievalResult) × IsAsked as_int s t query
      × (retrieve query ≡ ok found)
      × IsSearch list_value s query found (r, after))
    ⊎ ((a : AgentResult Payload) × (r ≡ ok a)
        × (is_success a.status ≡ false)
        × (after ≡ s)
        × IsUnanswered as_int retrieve s t)
    ⊎ ((r ≡ raises cancelled)
        × (after ≡ s)
        × ((query : RetrievalQuery) × IsAsked as_int s t query
            × (retrieve query ≡ raises cancelled)))
    ⊎ ((message : String) × (r ≡ raises (other message)) × (after ≡ s) × IsMalformed as_int s t)
