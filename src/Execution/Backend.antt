-- ===== src/Execution/Backend.antt =====
-- execution/local_async.py: admission of runs and resumptions, cancellation and the workers. With
-- the in-memory state store a handler meets no pause, so each is one step; a worker has two, before
-- and after it awaits the runtime. Metrics and the audit sink are taken to be there.
pub mod Admission
pub mod Resumption
pub mod Workers
pub mod Events
pub mod Bounds
pub mod Cancelled
pub mod Outcomes
pub mod Refusals
pub mod Broken
use enterprise_multi_agent_o.Base.{
  ℕ, zero, suc, ◌+◌, ◌-◌, String, ◌<>◌, ◌≡◌, refl, Bool, true, false, not, ◌&&◌, ◌||◌, Option, none,
  some, List, [], ◌∷◌, ◌++◌, ltb, leb, ◌==◌, contains, if◌then◌else◌, string_eq, nat_eq, or_else,
  is_some, arith,
}
use enterprise_multi_agent_o.Base.Dict.{Dict, keys, lookup, insert, erase}
use enterprise_multi_agent_o.Base.Lists.{length, select}
use enterprise_multi_agent_o.Core.Types.{ExecutionStatus, Payload, nonempty}
use enterprise_multi_agent_o.Core.State.{
  OrchestrationState, HumanDecision, create_initial, set_status, is_terminal,
}
use enterprise_multi_agent_o.Errors.{
  Exception, orchestrator_error, other, cancelled, Result, ok, raises, text_of, orchestration_error,
}
use enterprise_multi_agent_o.Execution.Futures.{
  Futures, FutureState, waiting, resolved, rejected, create_future, settle,
}
use enterprise_multi_agent_o.Execution.Ledger.{
  Ledger, Claim, acquire_or_join, complete, fail, compute_key_hash, compute_request_hash,
}
use enterprise_multi_agent_o.Execution.Models.{
  JobStatus, ExecutionJob, Work, run, resume, WorkItem, Backend,
}

-- `OrchestrationError` as a handler raises it.
abbrev pub refuse : {A : Type 0} → (message code : String) (retryable : Bool) → Result A
refuse message code retryable =
    raises (orchestrator_error (orchestration_error message code retryable))

abbrev pub publish : (run_id event_type : String) → Backend → Backend
publish run_id event_type b = record b { events = b.events ++ (run_id, event_type) ∷ [] }

-- `if not future.done(): future.set_result(...)`, on the backend's futures.
unfoldable pub settle_future : ℕ → FutureState OrchestrationState → Backend → Backend
unfolding settle
settle_future n s b = record b {
  ledger = record b.ledger { futures = settle n s b.ledger.futures };
}

-- `if key_hash: await self._idempotency_ledger.complete(key_hash, state)`
unfoldable pub complete_key : Option String → OrchestrationState → Backend → Backend
unfolding complete
complete_key none s b = b
complete_key (some k) s b = record b { ledger = complete k s b.ledger }

unfoldable pub fail_key : Option String → Exception → Backend → Backend
unfolding fail
fail_key none x b = b
fail_key (some k) x b = record b { ledger = fail k x b.ledger }

-- `if job:` with what is assigned to it.
unfoldable pub change_job : String → (ExecutionJob → ExecutionJob) → Backend → Backend
unfolding lookup insert
change_job run_id f b = elim (lookup run_id b.jobs) [
  | none ↦ b
  | some job ↦ record b { jobs = insert run_id (f job) b.jobs }
]

unfoldable pub save_state : OrchestrationState → Backend → Backend
unfolding insert
save_state s b = record b { store = insert s.run_id s b.store }

-- `range(n)`, before the numbers given.
abbrev pub worker_ids : ℕ → List ℕ → List ℕ
worker_ids zero ws = ws
worker_ids (suc n) ws = worker_ids n (n ∷ ws)

-- `start`, within one event loop and with no worker that ended by itself.
unfoldable pub start : Backend → Backend
start b = if b.is_started then b else record b {
  is_started = true;
  is_shutting_down = false;
  idle_workers = worker_ids b.max_concurrency [];
}

-- `asyncio.Queue.full`, where a size of 0 means no bound.
unfoldable pub is_full : Backend → Bool
is_full b = ltb 0 b.max_queue_size && leb b.max_queue_size (length b.queue)

abbrev pub enqueue : WorkItem → Backend → Backend
enqueue item b = record b { queue = b.queue ++ some item ∷ [] }
