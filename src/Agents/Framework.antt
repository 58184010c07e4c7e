-- ===== src/Agents/Framework.antt =====
-- src/enterprise_orchestrator/agents: the framework's agents, as the runtime wires them.
use enterprise_multi_agent_o.Base.{
  ℕ, String, ◌≡◌, refl, inl, inr, Option, none, some, List, [], ◌∷◌, ◌∙◌, subst, string_eq, arith,
  Bool-cases, Option-cases,
}
use enterprise_multi_agent_o.Core.Types.{Payload, Value}
use enterprise_multi_agent_o.Core.Task.{Task}
use enterprise_multi_agent_o.Core.State.{OrchestrationState, add_tool_result, add_retrieved_context}
use enterprise_multi_agent_o.Errors.{
  orchestrator_error, other, cancelled, Result, ok, raises, Result-cases,
}
use enterprise_multi_agent_o.Agents.ToolExecution.{
  execute_tool_task, on_tool_result, names_tool, parameters, tool_name_of, get_value,
}
use enterprise_multi_agent_o.Agents.Retrieval.{
  RetrievalQuery, RetrievalResult, execute_retrieval, on_retrieved, validate_query, new_query,
  query_value, top_k_value, serialize_all, add_all_context,
}
use enterprise_multi_agent_o.Agents.Validator.{Critic, validate}
use enterprise_multi_agent_o.Agents.Validator.Review.{same_Frame, validate-Frame}
use enterprise_multi_agent_o.Planner.{PlanModel, execute}
use enterprise_multi_agent_o.Orchestration.Graph.{Agents, Frame, IsFramed}
use enterprise_multi_agent_o.Tools.{ToolRegistry, execute_tool}

on_tool_result-Frame :
    (now : ℕ) (tool_name : String) (s : OrchestrationState) (r : Result Payload)
    → Frame s (on_tool_result now tool_name s r).1
unfolding on_tool_result add_tool_result
on_tool_result-Frame now tool_name s (ok result) = record {
  plan = refl;
  status = refl;
  requires_human = refl;
  human_requests = refl;
  current_step = refl;
}
on_tool_result-Frame now tool_name s (raises (orchestrator_error e)) = same_Frame s
on_tool_result-Frame now tool_name s (raises (other x)) = same_Frame s
on_tool_result-Frame now tool_name s (raises cancelled) = same_Frame s

execute_tool_task-Frame :
    (str type_name : Value → String) (tools : ToolRegistry) (now : ℕ) (s : OrchestrationState)
    (t : Task)
    → Frame s (execute_tool_task str type_name tools now s t).1
unfolding execute_tool_task
execute_tool_task-Frame str type_name tools now s t = elim (Bool-cases (names_tool str t)) [
  | inr unnamed ↦
      let e : s ≡ (execute_tool_task str type_name tools now s t).1 = ground (arith, unnamed) in
      subst (Frame s) e (same_Frame s)
  | inl named ↦ elim (Option-cases (parameters t.input_data)) [
    | inl none_given ↦
        let e : s ≡ (execute_tool_task str type_name tools now s t).1 =
          ground (arith, named, none_given) in
        subst (Frame s) e (same_Frame s)
    | inr (params, given) ↦
        let name = tool_name_of str t in
        let e : (on_tool_result now name s (execute_tool tools name params)).1
            ≡ (execute_tool_task str type_name tools now s t).1 =
          ground (arith, named, given) in
        subst (Frame s) e (on_tool_result-Frame now name s (execute_tool tools name params))
  ]
]

trans_Frame : {s t u : OrchestrationState} → Frame s t → Frame t u → Frame s u
trans_Frame f g = record {
  plan = g.plan ∙ f.plan;
  status = g.status ∙ f.status;
  requires_human = g.requires_human ∙ f.requires_human;
  human_requests = g.human_requests ∙ f.human_requests;
  current_step = g.current_step ∙ f.current_step;
}

add_retrieved_context-Frame :
    (now : ℕ) (item : Payload) (s : OrchestrationState) → Frame s (add_retrieved_context now item s)
unfolding add_retrieved_context
add_retrieved_context-Frame now item s = record {
  plan = refl;
  status = refl;
  requires_human = refl;
  human_requests = refl;
  current_step = refl;
}

add_all_context-Frame :
    (now : ℕ) (items : List Payload) (s : OrchestrationState)
    → Frame s (add_all_context now items s)
unfolding add_all_context
add_all_context-Frame now [] s = same_Frame s
add_all_context-Frame now (item ∷ items) s =
    trans_Frame (add_retrieved_context-Frame now item s)
      (add_all_context-Frame now items (add_retrieved_context now item s))

-- Parameters of the agents.
module _ (attribute_error : Value → String) (as_int : Value → Option ℕ) (invalid_query : String)
    (list_value : List Payload → Value) (retrieve : RetrievalQuery → Result RetrievalResult) where
  on_retrieved-Frame :
      (now : ℕ) (query : RetrievalQuery) (s : OrchestrationState) (r : Result RetrievalResult)
      → Frame s (on_retrieved list_value now query s r).1
  unfolding on_retrieved
  on_retrieved-Frame now query s (ok result) =
      add_all_context-Frame now (serialize_all result.matches) s
  on_retrieved-Frame now query s (raises (orchestrator_error e)) = same_Frame s
  on_retrieved-Frame now query s (raises (other x)) = same_Frame s
  on_retrieved-Frame now query s (raises cancelled) = same_Frame s

  execute_retrieval-Frame :
      (now : ℕ) (s : OrchestrationState) (t : Task)
      → Frame s
          (execute_retrieval attribute_error as_int invalid_query list_value retrieve now s t).1
  unfolding execute_retrieval
  execute_retrieval-Frame now s t =
      elim (Result-cases (validate_query attribute_error (query_value s t))) [
        | inr (x, e) ↦
            let same : s
                ≡ (execute_retrieval attribute_error as_int invalid_query list_value retrieve now s
                    t).1 =
              ground (arith, e) in
            subst (Frame s) same (same_Frame s)
        | inl (none, e) ↦
            let same : s
                ≡ (execute_retrieval attribute_error as_int invalid_query list_value retrieve now s
                    t).1 =
              ground (arith, e) in
            subst (Frame s) same (same_Frame s)
        | inl (some q, e) ↦
            elim (Result-cases (
              new_query as_int invalid_query q (top_k_value t.input_data)
                (get_value "filters" t.input_data))) [
                  | inr (x, f) ↦
                      let same : s
                          ≡ (execute_retrieval attribute_error as_int invalid_query list_value
                              retrieve now s t).1 =
                        ground (arith, e, f) in
                      subst (Frame s) same (same_Frame s)
                  | inl (query, f) ↦
                      let same : (on_retrieved list_value now query s (retrieve query)).1
                          ≡ (execute_retrieval attribute_error as_int invalid_query list_value
                              retrieve now s t).1 =
                        ground (arith, e, f) in
                      subst (Frame s) same (on_retrieved-Frame now query s (retrieve query))
                ]
      ]

  module _ (model : PlanModel) (plan_id : String) (str type_name : Value → String)
      (tools : ToolRegistry) (critic : Critic) (now : ℕ) where
    -- The agents that `OrchestrationRuntime.__init__` makes.
    abbrev pub framework : Agents
    framework = record {
      planner = λ s. (execute model plan_id now s, s);
      retriever = execute_retrieval attribute_error as_int invalid_query list_value retrieve now;
      tool_executor = execute_tool_task str type_name tools now;
      validator = validate str critic now;
    }

    -- Whatever the model, the document store, the tools and the critic answer, the planner,
    -- retrieval, tool and validator agents of the framework leave alone the plan, the status, the
    -- human requests and the step of the state, as the workflow takes its agents to do.
    pub framework-IsFramed : IsFramed framework
    framework-IsFramed = record {
      planner = λ s. same_Frame s;
      retriever = λ s t. execute_retrieval-Frame now s t;
      tool_executor = λ s t. execute_tool_task-Frame str type_name tools now s t;
      validator = λ s t. validate-Frame str critic now s t;
    }
