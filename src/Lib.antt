-- ===== src/Lib.antt =====
-- Restaurant Sahayak (DineOps): a back end in which AI agents run a restaurant through typed
-- services over one database session, with a human approval gate before high-impact actions.
--
-- The parts and how they interact. An agent's tool calls a service; the service reads and flushes
-- rows through its repository, announces what it did on the event bus, and hands a high-impact
-- change to the approval gate instead of making it. A manager's decision on the approval runs the
-- executor of its domain, which is a service again, and is remembered. The files:
--
--   Base, Base/*        tests on numbers, lists, tables of rows with identities, ORDER BY, str.strip,
--                       integers
--   Errors, Exec/*      ToolError and the other exceptions; the state monad of the services with
--                       try, SAVEPOINT and rollback; rules for invariants (Keeps, Ensures)
--   Models, Models/*    app/models: a record for each mapped class that the services use, and the
--                       session: one list of rows per table, the clock, the next identity
--   Settings            the business rules of app/core/config.py; ToolContext and
--                       PendingApprovalOutput of app/tools/base.py
--   Events, Events/*    app/services/event_bus.py and app/repositories/event_repo.py: subscribe,
--                       publish, _dispatch_one and its retry loop
--   Approvals,          app/services/approval_service.py and app/repositories/approval_repo.py:
--   Approvals/*         create_approval_request, approve, reject, expire with _require_pending,
--                       _execute, _remember and _publish
--   Memories,           app/services/memory_service.py and app/repositories/memory_repo.py:
--   Memories/*          add_memory, update_memory, reinforce_memory, search_memory and the others
--   Reservations,       app/services/reservation_service.py and
--   Reservations/*      app/repositories/reservation_repo.py: create_reservation,
--                       modify_reservation, cancel_reservation, execute_approved_action and
--                       table_has_conflict
--   Inventory,          app/services/inventory_service.py and app/repositories/inventory_repo.py:
--   Inventory/*         create_purchase_request, check_stock, _classify,
--                       calculate_reorder_quantity, execute_approved_action; list_alerts (Alerts)
--   Executors,          app/services/approval_execution.py: build_executors, and the gate and the
--   Executors/*         services together
--   AgentRuns,          app/services/agent_run_service.py and app/repositories/agent_run_repo.py:
--   AgentRuns/*         start_run, log_message, complete_run
--   ToolCalling,        app/agents/tool_calling_agent.py: handle, _run_loop, _execute_tool_call; the
--   ToolCalling/*       model server and the tools are parameters
--   Workflows,          app/workflows/background_workflow.py: run; the two reviews by one agent
--   Workflows/*         (Monitoring); the reactions to events of app/workflows/inventory_workflow.py
--                       and their registration (Reactions); the loop of app/workflows/scheduler.py
--                       (Scheduler)
--   Orchestrator,       app/agents/orchestrator_agent.py and app/agents/orchestrator_state.py: the
--   Orchestrator/*      nodes (Nodes), the edges and the walk (Graph), handle and resume (Service);
--                       the abstract machine of the graph (Steps), which the walk implements (Walks)
--   Staffing,           app/services/staffing_service.py and app/repositories/staffing_repo.py: the
--   Staffing/*          schedule, who is free, and the staff requirement
--   Tools, Tools/*      app/tools/base.py and app/tools/reservation_tools.py with the schemas of
--                       app/schemas/reservation.py
--   Agents, Agents/*    the agent classes of app/agents; the reservation agent with its tools, and
--                       behind the orchestrator
--   Customers,          app/services/customer_service.py and app/repositories/customer_repo.py, with
--   Customers/*         the constraints of app/models/customer.py
--   Tests, Tests/*      a small restaurant, on which the theorems below are run
--
-- How the code is read. A service method is an action: from the session to its return value or the
-- exception and the session after it, with the writes made before an exception kept until a SAVEPOINT
-- undoes them. A row that an operation holds is its identity, since the session's identity map shows
-- every holder what is written to it. Identities and instants are numbers (instants count
-- microseconds); a Numeric column counts its last digit. A dict with a fixed set of shapes (payloads,
-- parameters, f-string texts) is a data type with one constructor for each shape. The database's
-- CHECK constraints and unique indexes are tested where an operation may violate them, and answer
-- with an exception. A sequence of calls is a list of requests with the time that passes before each.
--
-- Parameters, since their code is not in the repository or is an agent's run: the handlers of the
-- event bus, the executors of the gate, the embedding provider, pgvector's distance, the ILIKE of
-- the database and its order of names, the model server and the tools of an agent, the specialists
-- of the orchestrator, how pydantic reads and prints the JSON of a tool, how Python prints a number
-- or a time and orders texts, asyncio's sleep, and what LangGraph does with a thread that is not
-- paused, among them one whose run has failed in a later node. A theorem that needs something of them
-- says so in its hypotheses. The system prompts of the agents are arguments too: no property reads
-- them.
--
-- The retry loop of the bus runs on the number of attempts that are left, which is
-- max_retries_per_handler + 1 at its start, and the walk of the orchestrator on LangGraph's recursion
-- limit, 25. These are the bounds of the code itself: a walk needs at most 2 * max_delegations + 3
-- steps, 15 with the default of 6. The loop of an agent reads its counter, as in the code; its fuel is
-- max_iterations + 1, one more than the rounds that the counter allows, so that it is not met. The
-- loop of the scheduler has no end: its theorem speaks of every number of rounds. No other recursion needs fuel.
--
-- Not modelled: telemetry spans and log lines; most listings; the HTTP routes; the schemas and tools
-- of the agents other than the reservation agent; the model servers, the database engine and its
-- isolation between concurrent sessions (a session sees its own writes only); the workflows that run
-- the orchestrator, the tasks of asyncio and the remaining services. Three more limits of the model:
-- foreign keys are not tested; a session stays usable after an error of the database outside a
-- SAVEPOINT; and in the scope key of a memory no agent's name is taken for a printed identity.
-- A cancellation, which except Exception does not catch, is told from the other exceptions in
-- BackgroundWorkflow.run and in the loop of the scheduler, and nowhere else.
pub mod Base
pub mod Errors
pub mod Exec
pub mod Models
pub mod Events
pub mod Memories
pub mod Settings
pub mod Approvals
pub mod Reservations
pub mod Inventory
pub mod Executors
pub mod AgentRuns
pub mod ToolCalling
pub mod Workflows
pub mod Orchestrator
pub mod Staffing
pub mod Tools
pub mod Agents
pub mod Customers
pub mod Tests
