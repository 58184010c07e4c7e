-- ===== src/Orchestration/Endings.antt =====
-- orchestration/nodes.py: the two nodes that end a run.
use enterprise_multi_agent_o.Base.{
  ℕ, String, ◌<>◌, Bool, true, false, ◌&&◌, none, some, List, [], ◌∷◌, map, if◌then◌else◌,
  string_eq,
}
use enterprise_multi_agent_o.Core.Types.{TaskType, TaskStatus, Payload, Value, payload_or}
use enterprise_multi_agent_o.Core.Task.{Task, mark_completed, is_completed}
use enterprise_multi_agent_o.Core.State.{increment_step, fail_run, complete_run}
use enterprise_multi_agent_o.Orchestration.Graph.{
  NextAction, Run, NodeResult, Env, with_state, go_to,
}
use enterprise_multi_agent_o.Orchestration.Nodes.{is_failed_run}

abbrev is_synthesis : TaskType → Bool
is_synthesis TaskType.synthesis = true
is_synthesis _ = false

abbrev pub status_value : TaskStatus → String
status_value TaskStatus.pending = "pending"
status_value TaskStatus.in_progress = "in_progress"
status_value TaskStatus.completed = "completed"
status_value TaskStatus.failed = "failed"
status_value TaskStatus.blocked = "blocked"
status_value TaskStatus.skipped = "skipped"
status_value TaskStatus.cancelled = "cancelled"

-- The loop body's first statement.
unfoldable pub synthesize_task : ℕ → Task → Task
unfolding mark_completed
synthesize_task now t =
    if is_synthesis t.task_type && (if is_completed t.status then false else true)
    then mark_completed now (payload_or t.output_data (("status", Value.str "synthesized") ∷ [])) t
    else t

-- `show` prints a dict as Python does.
module _ (show : Payload → String) where
  unfoldable pub summary_lines : List Task → String
  summary_lines [] = ""
  summary_lines (t ∷ ts) =
      "\n- Task '"
      <> t.title
      <> "' ("
      <> t.id
      <> "): "
      <> status_value t.status
      <> (elim t.output_data [
        | none ↦ ""
        | some [] ↦ ""
        | some (e ∷ d) ↦ "\n  Output: " <> show (e ∷ d)
      ])
      <> summary_lines ts

  unfoldable pub synthesis_node : Env → Run → NodeResult
  unfolding increment_step synthesize_task summary_lines complete_run
  synthesis_node env r =
      let s = increment_step env.now "synthesis_node" r.graph.state in
      let head = "Summary for Request: '" <> s.request <> "'\n" in
      elim s.plan [
        | none ↦ go_to NextAction.complete (with_state (complete_run env.now head s) r)
        | some p ↦
            let tasks = map (synthesize_task env.now) p.tasks in
            go_to NextAction.complete (
              with_state
                (complete_run env.now (head <> summary_lines tasks)
                  (record s { plan = some (record p { tasks = tasks }) }))
                r)
      ]

unfoldable pub failed_node : Env → Run → NodeResult
unfolding fail_run
failed_node env r =
    if is_failed_run r.graph.state.metadata.status
    then go_to NextAction.complete r
    else go_to NextAction.complete
        (with_state (fail_run env.now "Workflow encountered unrecoverable errors." r.graph.state) r)
