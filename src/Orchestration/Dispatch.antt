-- ===== src/Orchestration/Dispatch.antt =====
-- What the supervisor sends on, and when.
use enterprise_multi_agent_o.Base.{
  ◌≡◌, ◌⊎◌, inl, inr, false, none, some, string_eq, arith, Option-cases,
}
use enterprise_multi_agent_o.Base.Lists.{head?}
use enterprise_multi_agent_o.Core.Types.{TaskType}
use enterprise_multi_agent_o.Core.Task.{Task, ExecutionPlan, get_ready_tasks}
use enterprise_multi_agent_o.Orchestration.Graph.{NextAction, GraphState, Run, returns, Env}
use enterprise_multi_agent_o.Orchestration.Nodes.{supervisor_node, action_for, is_failed_run}
use enterprise_multi_agent_o.Orchestration.Runnable.{
  IsDone, IsRunnable, IsFirst, ready-IsRunnable, ready-IsFirst, all_completed-IsDone,
}
use enterprise_multi_agent_o.Base.Lists.{All}

-- The run may go on: no human decision is at hand or awaited, and it has not failed.
pub record IsActive (g : GraphState) : Type 0 where
  pub undecided : g.human_decision ≡ none
  pub alive : is_failed_run g.state.metadata.status ≡ false
  pub unheld : g.state.requires_human ≡ false

-- The supervisor names a retrieval or a tool run next only for an active run with a plan, and
-- then for a task of the plan that waits and whose dependencies have all completed.
pub supervisor_node-IsRunnable :
    (env : Env) (r r' : Run)
    → supervisor_node env r ≡ returns r'
    → (r'.graph.next_action ≡ some NextAction.retrieval)
      ⊎ (r'.graph.next_action ≡ some NextAction.tool)
    → IsActive r.graph
      × ((p : ExecutionPlan) × (t : Task) × (r.graph.state.plan ≡ some p)
          × (r'.graph.current_task_id ≡ some t.id)
          × IsRunnable p t)
unfolding supervisor_node action_for
supervisor_node-IsRunnable env r r' h to = elim (Option-cases r.graph.state.plan) [
  | inl no_plan ↦ absurd (ground (arith, h, to, no_plan))
  | inr (p, e) ↦ elim (Option-cases (head? (get_ready_tasks p))) [
    | inl nothing ↦ absurd (ground (arith, h, to, e, nothing))
    | inr (t, found) ↦ (
      record {
        undecided = ground (arith, h, to, e, found);
        alive = ground (arith, h, to, e, found);
        unheld = ground (arith, h, to, e, found);
      },
      (p, t, e, ground (arith, h, to, e, found), ready-IsRunnable p found),
    )
  ]
]

-- The supervisor names the synthesis next only for an active run with a plan: when each task of
-- it has completed or was skipped, or when the first task that can run is a synthesis task.
pub supervisor_node-synthesis :
    (env : Env) (r r' : Run)
    → supervisor_node env r ≡ returns r'
    → r'.graph.next_action ≡ some NextAction.synthesis
    → IsActive r.graph
      × ((p : ExecutionPlan) × (r.graph.state.plan ≡ some p)
          × (All IsDone p.tasks ⊎ ((t : Task) × IsFirst p t × (t.task_type ≡ TaskType.synthesis))))
unfolding supervisor_node action_for
supervisor_node-synthesis env r r' h to = elim (Option-cases r.graph.state.plan) [
  | inl no_plan ↦ absurd (ground (arith, h, to, no_plan))
  | inr (p, e) ↦ elim (Option-cases (head? (get_ready_tasks p))) [
    | inl nothing ↦ (
      record {
        undecided = ground (arith, h, to, e, nothing);
        alive = ground (arith, h, to, e, nothing);
        unheld = ground (arith, h, to, e, nothing);
      },
      (p, e, inl (all_completed-IsDone p (ground (arith, h, to, e, nothing)))),
    )
    | inr (t, found) ↦ (
      record {
        undecided = ground (arith, h, to, e, found);
        alive = ground (arith, h, to, e, found);
        unheld = ground (arith, h, to, e, found);
      },
      (p, e, inr (t, ready-IsFirst p found, ground (arith, h, to, e, found))),
    )
  ]
]
