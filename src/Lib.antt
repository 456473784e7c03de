-- ===== src/Lib.antt =====
-- company-command: the core of a company runtime in which agents do the work and people approve what
-- leaves the company. A company is declared (comcmd/spec), compiled (comcmd/compile), and run: the
-- workflow runner orders the steps of a task and calls workers (comcmd/kernel/workflow.py), the gateway
-- authorizes every action by its tier and by human approvals (comcmd/gateway), the executor performs an
-- authorized action once (comcmd/kernel/executor.py), and all of them record events in a ledger of hash
-- chains (comcmd/kernel/ledger.py, or ledger_pg.py on PostgreSQL). Workers adapt agents and models to the
-- runner (comcmd/workers, comcmd/models), a pack wires a company (comcmd/pack.py), the evaluation gate
-- compares two workflows (comcmd/eval), and the service runs many companies over shared stores
-- (comcmd/server).
--
-- Files and the code they model:
--   Prelude     shared names, Boolean tests, list lemmas and dictionaries
--   Json        the values of Python's dict[str, Any]
--   Ids         comcmd/ids.py; its record Platform has the services that the code only calls: the JSON
--               encoder, SHA-256, base64, random bytes, number parsing
--   Spec        comcmd/spec/models.py
--   Compile     comcmd/compile/compiler.py: Actions, Steps and Cycles have its checks, Accepted what a
--               declaration without errors promises
--   Kernel      Records and Ledger (comcmd/kernel/records.py, ledger.py), Ledger/Postgres (ledger_pg.py,
--               with Schedule for the interleavings of its writers), Executor (executor.py), Aggregate
--               (aggregate.py), and workflow.py in six files: Runtime (state and exceptions, with
--               comcmd/workers/api.py), Replay (reading a task back from the ledger), Order (the
--               dependency order), Steps (one step), Workflow (start, resume) and Approval (approve_step)
--   Gateway     Policy, Intents, Approvals, Verifier, Credentials (the files of comcmd/gateway of these
--               names; webauthn_verifier.py is in Verifier, enrollment.py is Credentials), and gate.py in
--               Receipts, Opening and Gate; Approvals/Postgres and Credentials/Postgres are
--               the tables of stores_pg.py; State has the objects that runner, gateway and executor share
--   Workers     Texts (Python's text operations and a record Host of library calls), Extract and CliAgents
--               (comcmd/workers/cli_agents.py), OpenWorker (openworker.py; Frames is a session), Native
--               (native.py), Models (comcmd/models), and Loop (loop.py) with Actions, Policy, Evidence
--               and Workspace; the machine that Loop works on is a parameter
--   Packs       comcmd/pack.py
--   Evaluation  comcmd/eval/harness.py
--   Config      comcmd/config.py
--   Telemetry   comcmd/telemetry.py: the in-memory backend and the scrub
--   Cli         comcmd/cli.py: the operator's inbox, the inputs of a run, the guard of the server
--   Server      comcmd/server: State and Service (service.py), App (app.py)
--   Tests       concrete inputs
--
-- State is passed explicitly. The runner's methods are in a monad of state and exceptions whose state
-- survives an exception, as Python's objects do. A method of the gateway takes the shared World and
-- returns its outcome with the new one; `none` for an outcome is an exception.
--
-- The writers of the PostgreSQL ledger are a step relation: each step is one statement of one
-- transaction, any transaction may be rolled back, and a state has a writer for every number. The advisory
-- lock is keyed by a hash of the company, so two companies may share a lock.
--
-- The dependency order and the compiler's search for cycles recurse on fuel, one more than the number
-- of steps: each level of the first puts another step on its stack, each of the second turns a white
-- step grey. The search for an object in an agent's output recurses on the length of the text: each turn
-- goes on below the brace that it has tried.
--
-- Sets are lists without repetition. Amounts are counts in a fixed unit, times are counts of a fixed
-- part of a second, a time to live is any float, and each call of the approval store reads the clock
-- once. Whether the ledger stores a receipt of the executor is an argument of each call; elsewhere,
-- and in approve_step, a write of the in-memory ledger or of SQLite is taken to succeed. The field
-- `effects` of World is for the proofs; no code reads it. Logging, the telemetry that the code emits
-- on its way, wall-clock latencies and the text of most messages are left out, and so are the in-
-- process locks, the loading of manifests and packs, the rest of the command line and the DBOS engine:
-- they are glue around services outside this code.
pub mod Prelude
pub mod Json
pub mod Ids
pub mod Kernel
pub mod Workers
pub mod Gateway
pub mod Spec
pub mod Packs
pub mod Evaluation
pub mod Config
pub mod Server
pub mod Telemetry
pub mod Cli
pub mod Tests
pub mod Compile
