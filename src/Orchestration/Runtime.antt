-- ===== src/Orchestration/Runtime.antt =====
-- orchestration/runtime.py: `run` and `resume_with_human_decision`, over the in-memory state store
-- and without a tracer. `ainvoke` is LangGraph's: the compiled graph with its recursion limit.
pub mod Start
pub mod Answers
pub mod Returns
mod Tests
use enterprise_multi_agent_o.Base.{
  ℕ, String, ◌<>◌, Bool, true, false, Option, none, some, List, [], ◌∷◌, ◌++◌, string_eq,
}
use enterprise_multi_agent_o.Core.Types.{ExecutionStatus, Payload}
use enterprise_multi_agent_o.Core.State.{
  OrchestrationState, HumanDecision, create_initial, fail_run,
}
use enterprise_multi_agent_o.Errors.{Exception, cancelled, Result, ok, raises, text_of}
use enterprise_multi_agent_o.Memory.{Checkpoint, StateStore, save_state, save_checkpoint}
use enterprise_multi_agent_o.Orchestration.Graph.{
  NextAction, GraphState, Effect, AuditEventType, Run, NodeResult, returns,
}

-- What a call draws: the clock at the start and at the end, and UUIDs.
pub record Draws : Type 0 where
  pub now : ℕ
  pub later : ℕ
  pub run_id : String
  pub first_checkpoint : String
  pub last_checkpoint : String

-- A call's result, the store that it leaves, and its telemetry.
pub record Called : Type 0 where
  pub result : Result OrchestrationState
  pub store : StateStore
  pub log : List Effect

abbrev pub snapshot : (checkpoint_id : String) (step now : ℕ) → OrchestrationState → Checkpoint
snapshot checkpoint_id step now state = record {
  checkpoint_id = checkpoint_id;
  run_id = state.run_id;
  step = step;
  state = state;
  timestamp = now;
  metadata = [];
}

-- `{"state": state}`, perhaps with a decision.
abbrev pub graph_state : OrchestrationState → Option HumanDecision → GraphState
graph_state state human_decision = record {
  state = state;
  current_task_id = none;
  next_action = none;
  human_decision = human_decision;
  error = none;
}

-- The `finally` of `run`: the final status is counted.
unfoldable pub final_effects : ExecutionStatus → List Effect
final_effects ExecutionStatus.completed =
    Effect.counter_inc "runs_completed_total"
    ∷ Effect.audit AuditEventType.run_completed "complete_run" "SUCCESS"
    ∷ []
final_effects ExecutionStatus.failed =
    Effect.counter_inc "runs_failed_total"
    ∷ Effect.audit AuditEventType.run_failed "fail_run" "FAILURE"
    ∷ []
final_effects ExecutionStatus.paused_for_human = Effect.gauge_inc "pending_human_reviews" ∷ []
final_effects _ = []

abbrev ending : OrchestrationState → List Effect
unfolding final_effects
ending s =
    Effect.gauge_dec "active_runs"
    ∷ Effect.observe "run_duration_seconds"
    ∷ Effect.observe "step_count"
    ∷ final_effects s.metadata.status

-- The final state and its checkpoint.
unfoldable pub persist : Draws → OrchestrationState → StateStore → StateStore
unfolding save_state save_checkpoint
persist draws s store =
    save_checkpoint (snapshot draws.last_checkpoint s.current_step draws.later s)
      (save_state s store)

-- `except Exception`, which a cancellation passes. The state has what the nodes wrote to it.
unfoldable pub on_exception :
    Draws → Exception → OrchestrationState → StateStore → OrchestrationState × StateStore
unfolding fail_run save_state
on_exception draws cancelled s store = (s, store)
on_exception draws e s store =
    let failed = fail_run draws.later ("Workflow execution exception: " <> text_of e) s in
    (failed, save_state failed store)

-- `run` from the `try` on.
unfoldable pub conclude_run : Draws → StateStore → NodeResult → Called
unfolding persist on_exception final_effects
conclude_run draws store (returns r) = record {
  result = ok r.graph.state;
  store = persist draws r.graph.state store;
  log = r.log ++ ending r.graph.state;
}
conclude_run draws store (NodeResult.raises e r) =
    let (s, after) = on_exception draws e r.graph.state store in
    record { result = raises e; store = after; log = r.log ++ ending s }

-- `resume_with_human_decision` from the `try` on.
unfoldable pub conclude_resume : Draws → StateStore → NodeResult → Called
unfolding persist
conclude_resume draws store (returns r) = record {
  result = ok r.graph.state;
  store = persist draws r.graph.state store;
  log = r.log;
}
conclude_resume draws store (NodeResult.raises e r) = record {
  result = raises e;
  store = store;
  log = r.log;
}

-- The state that `run` starts from, and the graph state with the telemetry before.
unfoldable pub initial_run :
    Draws → (request : String) (correlation_id session_id : Option String) → Option Payload → Run
unfolding create_initial
initial_run draws request correlation_id session_id custom_context = record {
  graph =
      graph_state
        (create_initial draws.now draws.run_id request correlation_id session_id 3 custom_context)
        none;
  log =
      Effect.counter_inc "runs_started_total"
      ∷ Effect.gauge_inc "active_runs"
      ∷ Effect.audit AuditEventType.run_started "start_run" "SUCCESS"
      ∷ [];
}

module _ (ainvoke : (recursion_limit : ℕ) → Run → NodeResult) (max_steps : ℕ) where
  unfoldable pub run :
      Draws
      → (request : String) (correlation_id session_id : Option String) → Option Payload
      → StateStore
      → Called
  unfolding initial_run save_state save_checkpoint conclude_run
  run draws request correlation_id session_id custom_context store =
      let r = initial_run draws request correlation_id session_id custom_context in
      let s = r.graph.state in
      conclude_run draws
        (save_checkpoint (snapshot draws.first_checkpoint 0 draws.now s) (save_state s store))
        (ainvoke max_steps r)

  unfoldable pub resume_with_human_decision :
      Draws → OrchestrationState → HumanDecision → StateStore → Called
  unfolding conclude_resume
  resume_with_human_decision draws state decision store = conclude_resume draws store (
      ainvoke max_steps (record {
        graph = graph_state state (some decision);
        log = Effect.gauge_dec "pending_human_reviews" ∷ [];
      }))
