-- ===== src/Lib.antt =====
-- Enterprise multi-agent orchestration framework: a model of its core, with proofs.
--
-- A client submits a request. The execution backend admits it to a bounded queue, where an
-- idempotency ledger drops duplicates, and a worker hands it to the runtime. The runtime walks a
-- graph of nodes over one state: the supervisor asks the planner agent for a plan, sends each ready
-- task to retrieval or to a tool, the validator accepts, retries or fails it, the human gate pauses
-- the run for a reviewer, and the synthesis ends it. Agents reach language models through a router
-- with fallbacks. The API establishes who asks, from keys or tokens, and limits the requests of
-- each subject; the service passes the events of a run on to those who follow it.
--
-- All paths below start at src/enterprise_orchestrator/.
-- - Base: Python's built-in notions (==, in, dict, list comprehensions, strip) and list lemmas.
-- - Core: core/types.py, core/task.py, core/human.py, core/metadata.py and core/state.py, with the
--   results of validation/models.py. A method that mutates an object returns the new one, and takes
--   the time that it reads.
-- - Errors: errors/exceptions.py, with `Result` for code that may raise.
-- - Agents: agents/result.py, and the agents of agents/validator.py, agents/tool_execution.py
--   (ToolExecution) and agents/retrieval.py (Retrieval). Queries and Answers say what those two ask
--   and how they may end, Outcomes and Searches that they do; Framework puts the agents together.
-- - Tools: tools/registry.py and tools/base.py.
-- - Planner: agents/planner.py. Kahn has the loops of the topological sort and their invariant, Dag
--   the theorems on `validate_plan_dag`, Ready those on its use in execution, Execute the whole agent.
-- - Orchestration: orchestration/nodes.py and the graph of orchestration/runtime.py. Graph has the
--   state and the agents as parameters, Nodes, Gates, GateNode and Endings the nodes, Routing the
--   edges and executions as paths of node runs. Runnable describes the tasks that may run; Dispatch,
--   HumanGate, Decisions and Progress have the theorems. Runtime has run and
--   resume_with_human_decision over the store.
-- - Execution: execution/idempotency.py (Ledger), the futures of asyncio as far as they are used
--   (Futures), execution/models.py (Models) and execution/local_async.py (Backend). The handlers of
--   the backend are steps of one state, and Events puts them in any order.
-- - Memory: memory/base.py and memory/in_memory.py. Spec has the abstract store: a function from runs
--   to their latest states and one list of checkpoints.
-- - Security: security/rate_limiter.py (RateLimiter), security/models.py and security/authorizers.py
--   (Roles), security/authenticators.py (Authenticators, with the authenticator for tests in Testing)
--   and get_authenticator and get_current_user of api/dependencies.py (Access), where Credentials says
--   what a request carries, apart from the code.
-- - Services: the events of services/orchestration_service.py, as steps on the queues of each run.
-- - Api: the routes of api/routes/runs.py and api/routes/human.py, as handlers of the backend behind
--   their dependencies, with the responses of api/schemas.py and the exception handlers of api/app.py.
--   Authorized, Cancelled, Submitted and Duplicates have the theorems.
-- - Providers: providers/router.py.
-- - Retrieval: the chunker of retrieval/chunking.py.
--
-- Parameters stand for what is outside: the agents of the graph and the models of the planner, the
-- providers, SHA-256 and json.dumps, the clock and fresh ids. Where the graph needs it, the agents
-- are taken to leave alone the plan, the status and the human requests (`IsFramed`). LangGraph's
-- ainvoke is a parameter too: it follows the edges, passes on what a node raises, and gives up after
-- as many node runs as its limit (`IsGraphRun`). So are str.lower, jwt.decode and FastAPI's headers.
--
-- Bounds and fuel: numbers are natural numbers. Kahn's loop runs on fuel for each node, since it
-- takes each node off its queue at most once. The router's loop runs on fuel for every registered
-- provider and one pass more, since each pass but the last takes one off the candidates. The chunker
-- runs on fuel for each character, since each step moves by at least one. Executions of the graph
-- are finite paths with their length. Times of the rate limiter are hundredths of a second, the
-- precision of its answers.
--
-- Not modelled: the prompts, logging, spans and metrics beyond a log of the calls; the copying of
-- checkpoints to a job's id and the shutdown of the backend; the document store behind
-- the retrieval agent, the SQL stores, vector search, evaluation and configuration; of the HTTP API
-- the middlewares, the headers, the constraints of the request schemas and the routes of events,
-- health and metrics.
pub mod Api
pub mod Base
pub mod Core
pub mod Errors
pub mod Agents
pub mod Memory
pub mod Planner
pub mod Orchestration
pub mod Execution
pub mod Security
pub mod Services
pub mod Providers
pub mod Retrieval
pub mod Tools
