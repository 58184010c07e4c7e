-- ===== src/Agents/Retrieval.antt =====
-- agents/retrieval.py: the agent that searches a document store for a task. The store's `retrieve`,
-- pydantic's reading of a number and Python's texts of scores and numbers are parameters.
use enterprise_multi_agent_o.Base.{
  ℕ, suc, String, ◌<>◌, Bool, true, false, Option, none, some, List, [], ◌∷◌, if◌then◌else◌,
  string_eq,
}
use enterprise_multi_agent_o.Base.Dict.{lookup}
use enterprise_multi_agent_o.Base.Text.{strip_text}
use enterprise_multi_agent_o.Core.Types.{Payload, Value, entries, to_fields, nonempty}
use enterprise_multi_agent_o.Core.Task.{Task}
use enterprise_multi_agent_o.Core.State.{OrchestrationState, add_retrieved_context}
use enterprise_multi_agent_o.Errors.{other, cancelled, Result, ok, raises, text_of, ◌>>=◌}
use enterprise_multi_agent_o.Agents.Result.{AgentResult, success_result, failure_result}
use enterprise_multi_agent_o.Agents.ToolExecution.{is_truthy, get_value}

abbrev pub retrieval_agent : String
retrieval_agent = "retrieval_agent"

pub record RetrievalQuery : Type 0 where
  pub query : String
  pub top_k : ℕ
  pub filters : Option Payload

-- A document and its score, as the store returns them, and the result of a search.
pub record ScoredDocument : Type 0 where
  pub id : String
  pub content : String
  pub metadata : Payload
  pub score : Value

pub record RetrievalResult : Type 0 where
  pub matches : List ScoredDocument
  pub total_found : ℕ

abbrev serialize : ScoredDocument → Payload
serialize m =
    ("id", Value.str m.id)
    ∷ ("content", Value.str m.content)
    ∷ ("metadata", Value.obj (to_fields m.metadata))
    ∷ ("score", m.score)
    ∷ []

-- `serialized_matches`
unfoldable pub serialize_all : List ScoredDocument → List Payload
serialize_all [] = []
serialize_all (m ∷ matches) = serialize m ∷ serialize_all matches

-- `for match_dict in serialized_matches: state.add_retrieved_context(match_dict)`
unfoldable pub add_all_context : ℕ → List Payload → OrchestrationState → OrchestrationState
unfolding add_retrieved_context
add_all_context now [] s = s
add_all_context now (item ∷ items) s = add_all_context now items (add_retrieved_context now item s)

-- The query of the task, or the request of the run.
unfoldable pub query_value : OrchestrationState → Task → Value
unfolding get_value is_truthy
query_value s t =
    let given = get_value "query" t.input_data in
    if is_truthy given then given else Value.str s.request

-- `task.input_data.get("top_k", 3)`
unfoldable pub top_k_value : Payload → Value
unfolding lookup
top_k_value input_data = elim (lookup "top_k" input_data) [ none ↦ Value.num 3 | some v ↦ v ]

abbrev failed : (error : String) (retryable : Bool) → AgentResult Payload
unfolding failure_result
failed error retryable = failure_result retrieval_agent error retryable

-- The text of the AttributeError for a value without `strip`.
module _ (attribute_error : Value → String) where
  -- `validate_input`: whether the query is a text with more than white space. Any other value has
  -- no
  -- `strip`, which is an error.
  unfoldable pub validate_query : Value → Result (Option String)
  unfolding nonempty strip_text
  validate_query (Value.str q) = ok (if nonempty (strip_text q) then some q else none)
  validate_query v = raises (other (attribute_error v))

-- The text of pydantic's ValidationError.
module _ (invalid_query : String) where
  abbrev pub filters_of : Value → Result (Option Payload)
  filters_of Value.null = ok none
  filters_of (Value.obj fields) = ok (some (entries fields))
  filters_of _ = raises (other invalid_query)

  abbrev pub top_k_of : Option ℕ → Result ℕ
  top_k_of (some (suc n)) = ok (suc n)
  top_k_of _ = raises (other invalid_query)

  unfoldable pub query_of_fields :
      (query : String) (top_k : Option ℕ) (filters : Value) → Result RetrievalQuery
  query_of_fields query top_k filters = do
    k ← top_k_of top_k
    f ← filters_of filters
    ok (record { query = query; top_k = k; filters = f })

-- Pydantic's reading of an integer.
module _ (as_int : Value → Option ℕ) (invalid_query : String) where
  -- `RetrievalQuery(query=query_str, top_k=top_k, filters=filters)`
  unfoldable pub new_query : (query : String) (top_k filters : Value) → Result RetrievalQuery
  unfolding query_of_fields
  new_query query top_k filters = query_of_fields invalid_query query (as_int top_k) filters

-- A list as a value.
module _ (list_value : List Payload → Value) where
  -- What follows the store's answer.
  unfoldable pub on_retrieved :
      (now : ℕ)
      → RetrievalQuery
      → OrchestrationState
      → Result RetrievalResult
      → Result (AgentResult Payload) × OrchestrationState
  unfolding serialize_all add_all_context success_result failed
  on_retrieved now query s (ok result) =
      let matches = serialize_all result.matches in
      (
        ok (
            success_result retrieval_agent
              (("query", Value.str query.query)
                ∷ ("matches", list_value matches)
                ∷ ("total_found", Value.num result.total_found)
                ∷ [])
              none),
        add_all_context now matches s,
      )
  on_retrieved now query s (raises cancelled) = (raises cancelled, s)
  on_retrieved now query s (raises e) =
      (ok (failed ("Retrieval error occurred: " <> text_of e) true), s)

module _ (attribute_error : Value → String) (as_int : Value → Option ℕ) (invalid_query : String)
    (list_value : List Payload → Value) where
  -- `RetrievalAgent.execute` for a task.
  unfoldable pub execute_retrieval :
      (retrieve : RetrievalQuery → Result RetrievalResult)
      → (now : ℕ) → OrchestrationState
      → Task
      → Result (AgentResult Payload) × OrchestrationState
  unfolding query_value top_k_value get_value validate_query new_query on_retrieved failed
  execute_retrieval retrieve now s t = elim (validate_query attribute_error (query_value s t)) [
    | raises e ↦ (raises e, s)
    | ok none ↦ (ok (failed "No valid query string provided for retrieval." false), s)
    | ok (some query_str) ↦
        elim (new_query as_int invalid_query query_str (top_k_value t.input_data)
          (get_value "filters" t.input_data)) [
            | raises e ↦ (raises e, s)
            | ok query ↦ on_retrieved list_value now query s (retrieve query)
          ]
  ]
