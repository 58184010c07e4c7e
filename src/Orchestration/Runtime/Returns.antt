-- ===== src/Orchestration/Runtime/Returns.antt =====
-- orchestration/runtime.py: what `run` returns and what it leaves in the store.
use enterprise_multi_agent_o.Base.{
  ℕ, ◌+◌, ◌*◌, ◌≤◌, ◌<◌, String, ◌≡◌, ◌≢◌, refl, ◌⊎◌, inl, inr, Option, none, some, string_eq,
  nat_eq, arith, [], ◌∷◌, ◌<>◌, subst, sym, ap, ◌∙◌, ==-self,
}
use enterprise_multi_agent_o.Base.Dict.{lookup-insert}
use enterprise_multi_agent_o.Core.Types.{ExecutionStatus, Payload}
use enterprise_multi_agent_o.Core.State.{
  OrchestrationState, HumanDecision, create_initial, fail_run, set_status, record_error,
}
use enterprise_multi_agent_o.Errors.{
  Exception, cancelled, orchestrator_error, other, Result, ok, text_of,
}
use enterprise_multi_agent_o.Memory.{StateStore, get_state, save_state, save_checkpoint}
use enterprise_multi_agent_o.Orchestration.Graph.{Run, NodeResult, returns, Env, IsFramed, Effect}
use enterprise_multi_agent_o.Orchestration.Routing.{Node, run_node, Setup, Exec}
use enterprise_multi_agent_o.Orchestration.Runtime.{
  Draws, Called, run, initial_run, resume_with_human_decision, conclude_run, conclude_resume,
  persist, on_exception, snapshot, graph_state,
}
use enterprise_multi_agent_o.Orchestration.Runtime.Answers.{IsAnswering, run_node-answers}
use enterprise_multi_agent_o.Orchestration.Runtime.Start.{
  IsEnded, Exec-ended, PlansWithin, fresh-Within,
}

-- LangGraph's `ainvoke`: it returns at the end of a path of node runs from the start, passes on the
-- exception of a node, or, after as many node runs as the limit, which is not 0, and not at the
-- end, raises
-- `limit_reached`.
pub record IsGraphRun (u : Setup) (limit_reached : Exception)
    (ainvoke : (recursion_limit : ℕ) → Run → NodeResult) : Type 0 where
  pub ends :
      (limit : ℕ) (r r' : Run)
      → ainvoke limit r ≡ returns r'
      → (k : ℕ) × Exec u Node.supervisor r k none r'
  pub fails :
      (limit : ℕ) (r r' : Run) (x : Exception)
      → 1 ≤ limit
      → ainvoke limit r ≡ NodeResult.raises x r'
      → ((env : Env) × (n : Node) × (r₁ : Run) × (run_node u env n r₁ ≡ NodeResult.raises x r'))
        ⊎ ((x ≡ limit_reached)
            × ((k : ℕ) × (m : Node) × (limit ≤ k) × Exec u Node.supervisor r k (some m) r'))

pub NodeResult-cases :
    (o : NodeResult)
    → ((r : Run) × (o ≡ returns r)) ⊎ ((x : Exception) × (r : Run) × (o ≡ NodeResult.raises x r))
NodeResult-cases (returns r) = inl (r, refl)
NodeResult-cases (NodeResult.raises x r) = inr (x, r, refl)

-- A run that is over: its state is the result, it is ended, and the store has it as the latest.
pub record IsOver (c : Called) : Type 0 where
  pub final : OrchestrationState
  pub returned : c.result ≡ ok final
  pub ended : IsEnded final.metadata.status
  pub stored : get_state final.run_id c.store ≡ some final

-- A run that failed with the exception.
pub record IsBroken (c : Called) (x : Exception) : Type 0 where
  pub raised : c.result ≡ Result.raises x
  pub final : OrchestrationState
  pub failed : final.metadata.status ≡ ExecutionStatus.failed
  pub stored : get_state final.run_id c.store ≡ some final

get-persist :
    (draws : Draws) (s : OrchestrationState) (store : StateStore)
    → get_state s.run_id (persist draws s store) ≡ some s
unfolding get_state persist save_state save_checkpoint
get-persist draws s store =
    ground (arith, lookup-insert s.run_id s.run_id s store.states, ==-self s.run_id)

get-failed :
    (now : ℕ) (summary : String) (s : OrchestrationState) (store : StateStore)
    → let t = fail_run now summary s in
      (t.metadata.status ≡ ExecutionStatus.failed)
      × (get_state t.run_id (save_state t store) ≡ some t)
unfolding get_state save_state fail_run set_status record_error
get-failed now summary s store =
    let t = fail_run now summary s in
    (refl, ground (arith, lookup-insert s.run_id s.run_id t store.states, ==-self s.run_id))

conclude_run-IsOver :
    (draws : Draws) (store : StateStore) (r : Run)
    → IsEnded r.graph.state.metadata.status
    → IsOver (conclude_run draws store (returns r))
unfolding conclude_run
conclude_run-IsOver draws store r ended = record {
  final = r.graph.state;
  returned = refl;
  ended = ended;
  stored = get-persist draws r.graph.state store;
}

conclude_run-raised :
    (draws : Draws) (store : StateStore) (x : Exception) (r : Run)
    → let c = conclude_run draws store (NodeResult.raises x r) in
      (x ≢ cancelled) × IsBroken c x
      ⊎ (x ≡ cancelled) × (c.result ≡ Result.raises cancelled) × (c.store ≡ store)
unfolding conclude_run on_exception
conclude_run-raised draws store (orchestrator_error e) r =
    let (failed, stored) =
      get-failed draws.later ("Workflow execution exception: " <> text_of (orchestrator_error e))
        r.graph.state store in
    inl (ground arith, record { raised = refl; final = _; failed = failed; stored = stored })
conclude_run-raised draws store (other t) r =
    let (failed, stored) =
      get-failed draws.later ("Workflow execution exception: " <> t) r.graph.state store in
    inl (ground arith, record { raised = refl; final = _; failed = failed; stored = stored })
conclude_run-raised draws store cancelled r = inr (refl, refl, refl)

get-initial :
    (s : OrchestrationState) (checkpoint_id : String) (now : ℕ) (store : StateStore)
    → get_state s.run_id (save_checkpoint (snapshot checkpoint_id 0 now s) (save_state s store))
      ≡ some s
unfolding get_state save_state save_checkpoint
get-initial s checkpoint_id now store =
    ground (arith, lookup-insert s.run_id s.run_id s store.states, ==-self s.run_id)

-- A cancelled run: the store has it as it was created.
pub record IsCut (c : Called) (s : OrchestrationState) : Type 0 where
  pub raised : c.result ≡ Result.raises cancelled
  pub stored : get_state s.run_id c.store ≡ some s

module _ (u : Setup) (limit_reached : Exception)
    (ainvoke : (recursion_limit : ℕ) → Run → NodeResult) (max_steps : ℕ)
    (graph : IsGraphRun u limit_reached ainvoke) (draws : Draws) (request : String)
    (correlation_id session_id : Option String) (custom_context : Option Payload)
    (store : StateStore) where
  returned-IsOver :
      (r' : Run)
      → ainvoke max_steps (initial_run draws request correlation_id session_id custom_context)
        ≡ returns r'
      → IsOver (run ainvoke max_steps draws request correlation_id session_id custom_context store)
  unfolding run
  returned-IsOver r' e =
      let r = initial_run draws request correlation_id session_id custom_context in
      let (k, exec) = graph.ends max_steps r r' e in
      subst
        (λ o. IsOver (
          conclude_run draws
            (save_checkpoint (snapshot draws.first_checkpoint 0 draws.now r.graph.state)
              (save_state r.graph.state store))
            o))
        (sym e)
        (conclude_run-IsOver draws
          (save_checkpoint (snapshot draws.first_checkpoint 0 draws.now r.graph.state)
            (save_state r.graph.state store))
          r' (Exec-ended exec))

  -- `run` ends in one of three ways: it returns a completed, failed or paused state and the store
  -- has that state as the latest of its run; it raises an exception other than a cancellation and
  -- the store has a failed state; or it raises the cancellation and the store has the run as it was
  -- created.
  pub run-Outcome :
      let c = run ainvoke max_steps draws request correlation_id session_id custom_context store in
      IsOver c
      ⊎ ((x : Exception) × (x ≢ cancelled) × IsBroken c x)
      ⊎ IsCut c (initial_run draws request correlation_id session_id custom_context).graph.state
  unfolding run
  run-Outcome =
      let r = initial_run draws request correlation_id session_id custom_context in
      let s = r.graph.state in
      let kept =
        save_checkpoint (snapshot draws.first_checkpoint 0 draws.now s) (save_state s store) in
      elim (NodeResult-cases (ainvoke max_steps r)) [
        | inl (r', e) ↦ inl (returned-IsOver r' e)
        | inr (x, r', e) ↦
            subst
              (λ o.
                IsOver (conclude_run draws kept o)
                ⊎ ((x : Exception) × (x ≢ cancelled) × IsBroken (conclude_run draws kept o) x)
                ⊎ IsCut (conclude_run draws kept o) s)
              (sym e)
              (elim (conclude_run-raised draws kept x r') [
                | inl (live, broken) ↦ inr (inl (x, live, broken))
                | inr (_, raised, same) ↦ inr (
                    inr (record {
                      raised = raised;
                      stored =
                          ap (get_state s.run_id) same
                          ∙ get-initial s draws.first_checkpoint draws.now store;
                    }))
              ])
      ]

  -- If the agents answer every call and keep to their part of the state, and the planner's plans
  -- are sound and of at most `n` attempts, where the recursion limit exceeds three node runs for
  -- each attempt and four more, `run` returns a completed, failed or paused state, and the store
  -- has it as the latest of its run.
  pub run-returns :
      (n : ℕ)
      → IsFramed u.agents
      → IsAnswering u.agents
      → PlansWithin n u.agents
      → 3 * n + 4 < max_steps
      → IsOver (run ainvoke max_steps draws request correlation_id session_id custom_context store)
  unfolding initial_run create_initial
  run-returns n framed answering plans enough =
      let r = initial_run draws request correlation_id session_id custom_context in
      elim (NodeResult-cases (ainvoke max_steps r)) [
        | inl (r', e) ↦ returned-IsOver r' e
        | inr (x, r', e) ↦ elim (graph.fails max_steps r r' x (omega (arith, enough)) e) [
          | inl (env, m, r₁, h) ↦ absurd (run_node-answers u answering env m r₁ r' x h)
          | inr (_, (k, m, le, exec)) ↦ absurd (
              omega
                (arith, le, enough, fresh-Within u framed n plans r refl refl r' k (some m) exec))
        ]
      ]

  -- `resume_with_human_decision` returns a completed, failed or paused state, which the store has
  -- as the latest of its run, or it raises and leaves the store as it was.
  pub resume-Outcome :
      (state : OrchestrationState) (decision : HumanDecision)
      → let c = resume_with_human_decision ainvoke max_steps draws state decision store in
        IsOver c ⊎ ((x : Exception) × (c.result ≡ Result.raises x) × (c.store ≡ store))
  unfolding resume_with_human_decision conclude_resume
  resume-Outcome state decision =
      let r : Run = record {
        graph = graph_state state (some decision);
        log = Effect.gauge_dec "pending_human_reviews" ∷ [];
      } in
      elim (NodeResult-cases (ainvoke max_steps r)) [
        | inl (r', e) ↦
            let (k, exec) = graph.ends max_steps r r' e in
            inl (
              subst (λ o. IsOver (conclude_resume draws store o)) (sym e)
                (record {
                  final = r'.graph.state;
                  returned = refl;
                  ended = Exec-ended exec;
                  stored = get-persist draws r'.graph.state store;
                }))
        | inr (x, r', e) ↦ inr (
            subst
              (λ o.
                (x : Exception) × ((conclude_resume draws store o).result ≡ Result.raises x)
                × ((conclude_resume draws store o).store ≡ store))
              (sym e) (x, refl, refl))
      ]
