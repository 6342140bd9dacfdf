-- ===== src/Lib.antt =====
-- Verification of the learning platform of this repository: the life of a lab, from its creation to its
-- end, as the platform API keeps it in its database.
--
-- The program. A learner asks the platform API for a lab of a course, for a change of it, or for its
-- end. Each request is one SQL transaction that locks the rows it depends on, checks what is allowed,
-- and stores a pending operation. A worker claims operations from this queue under a lease, has the
-- orchestrator carry them out, and completes them in one more transaction, which also moves the
-- session. The lifecycle warns and ends labs whose deadlines have come, through the same queue.
--
-- The files, with the sources below services/platform-api/internal that they model:
--   * Base: shared names, lists, tables, texts, integers and results; no program code.
--   * Store: the tables (database/mysql/init/001_platform_schema.sql) as lists of rows, with the rows
--     as the Go types declare them; Store/Frame: which moves of sessions and operations there are.
--   * Lab: the package lab. Lab/Status, Lab/Quota, Lab/Identity, Lab/Scenario, Lab/Topology and
--     Lab/Action stand for the files status.go, quota.go, identity.go, scenario.go, the functions of
--     topology.go, and the requests of session.go. Lab/Repository holds EnqueueAction, and its children
--     Create, CacheActions and TopologyActions the other transactions (Create, EnqueueCacheAction,
--     EnqueueTopologyAction), Stored the encoding of a stored request; Lab/Service holds the
--     methods of Service that call them. Effects, Calls, Known,
--     Admission, Retry and CreateRetry are about what successful calls do.
--   * Operation: the package operation. Operation/Queue holds Claim, MarkRunning, CompleteFailure and
--     completeOperationRecord, Operation/Provision persistProvisionResult, Operation/Endings the
--     completion of creation, reset and destruction, Operation/Changes that of the topology actions and
--     Operation/Caches that of the cache actions. Queue/Claims, Queue/Held, Queue/Leases, Moves, Completions,
--     Activity and Teardown are about them.
--     Operation/Worker is worker.go: the commands and the surroundings of a worker, with Decoding for what
--     it reads, Topology, Changes and Commands for the handlers, Process for processOne and Run, and
--     Configuration for the check of newWorker; Rollback and
--     Answers are about the commands that a handler sends.
--   * Balancer: the package balancer. Balancer holds types.go and the fingerprints and comparisons of
--     algorithm.go, Balancer/Gcd and Balancer/Weights the rest of algorithm.go, Balancer/Repository
--     repository.go (and ValidateAdaptive of the package operation), Balancer/Controller and
--     Balancer/Sampling sampleLab of controller.go; Adjustments, Lookup, Bounds, Controller/Checks and
--     Controller/Safety are about them.
--   * Auth/Limiter: limiter.go of the package auth; Bounds and Lockout are about it.
--   * Traffic/Limiter: limiter.go of the package traffic; Bounds is about it.
--   * Cache/L1: services/lab-app/internal/cache/l1.go (this path from the root). Reference is a least
--     recently used cache; Links, Refinement and Steps are about the two.
--   * Order: services/lab-app/internal/order, the load of an application server; Order/Totals is about its
--     statistics.
--   * Lifecycle: the package lifecycle. Lifecycle has evaluate of decision.go and validateConfig,
--     Lifecycle/Advance has Advance, advanceOne and ExpectedLabIDs of repository.go;
--     Lifecycle/Deadlines and Lifecycle/Expiry are about them.
--   * System: the calls that write the tables as the steps of one machine, and what holds of every store
--     it reaches; System/Lives: what becomes of a session; System/Workers: the passes of a worker as
--     such steps.
--
-- How state and calls are modelled. A call is a function from the store to a result: an error, with
-- which the transaction is rolled back and the store stays, or the committed store and the answer. A
-- test on statements, `Faults`, says which statements the database refuses; it is arbitrary in every
-- theorem that does not say otherwise. Transactions are serial: the rows that a transaction depends on
-- are locked by it, and SKIP LOCKED is the argument `locked` of `claim`. Comparisons of texts in SQL
-- are exact, and an UPDATE affects the rows that its WHERE clause selects.
--
-- A worker keeps the store, the world around it and, for the statements only, a log of its commands. A
-- command may come back to another store, since other workers go on in the meantime. A sample of the
-- balancer goes from the store and the state of one lab to a store, a state to save and an error.
--
-- Numbers. Go's int is an integer without bounds, but for the sum of AdmitInstanceCount, which wraps
-- around; instants and durations count nanoseconds. The
-- search for a free instance name has as many rounds as the source's loop; the digits of a number and
-- the greatest common divisor run on fuel that exceeds the number that falls, and Run on a number of
-- passes. float64 is a parameter, `Floats`, `Loads` and `Tokens`, of which nothing is assumed.
--
-- Parameters. The random source, the hexadecimal encoding, SHA-256, the JSON library, the clock, the
-- client of the orchestrator and that of the cache runtimes are arguments. A worker's surroundings are
-- the record `Outside`; where a statement needs them to change the tables as the platform does, it has
-- the hypothesis `Orderly`.
--
-- Not modelled: read-only queries (FindOwned, FindSnapshot, the snapshots of the lab service), the
-- estimates of the load in view.go of the balancer, the tickers, the rest of authentication and of
-- traffic, courses, the rest of the lab application (services/lab-app), the orchestrator (services/orchestrator), and
-- all input and output. The column metadata_json is carried along by the program and is not kept; of
-- cpu_limit_cores only the sign is, where a result is checked.
pub mod Base
pub mod Lab
pub mod Store
pub mod Operation
pub mod Lifecycle
pub mod System
pub mod Balancer
pub mod Auth
pub mod Cache
pub mod Order
pub mod Traffic
