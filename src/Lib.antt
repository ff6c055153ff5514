-- ===== src/Lib.antt =====
-- The dispatch backend of CountyFlow (backend/app, Python): county logistics, where a worker takes
-- dispatch tasks from a queue, runs an agent graph on each and records, publishes and acknowledges
-- the outcome. This library models the parts of it that decide and that keep state.
--
-- The parts, and the files that model them:
--  - Base: names of the library, tests on numbers, equality of texts and options, lists over the
--    native numbers.
--  - Breaker: backend/app/services/circuit_breaker.py. A breaker's fields are the record
--    CircuitBreaker, each method a step; the clock's value is an argument of the step.
--  - Security.Permissions: backend/app/security/permissions.py.
--  - Security.RateLimit: EmergencyReadRateLimiter of backend/app/security/rate_limit.py.
--  - Overrides.Policy: backend/app/runtime_overrides/policy.py.
--  - Memory.Policy: backend/app/shared_memory/policy.py; the digests are a parameter.
--  - Worker: backend/app/workers/dispatch_worker.py and backend/app/streams. A method of
--    DispatchWorker is a procedure (Worker.Effects.Exec): a result, or that it raised, with the list
--    of the calls that it made on its collaborators. The answers of the collaborators (Worker.Calls.Env)
--    are an argument, so the theorems hold for every answer, a raised exception included.
--    Worker.Graph is _process_graph, Worker.Process is process_message under lock and ledger,
--    Worker.Process.Phases the phases of a message that order its effects,
--    Worker.Receive is process_message for all workers and _recover_message.
--  - Idempotency.Ledger: backend/app/idempotency/service.py over the tables of backend/app/models.
--    Database holds the tables' rows; a begin reads one database and writes to a later one, as a
--    session that other sessions overtake; Ledger.Runs has the histories of such sessions.
--  - Audit: backend/app/audit/service.py. Audit.Value has the untyped evidence and its readers,
--    Audit.Path the road network's checks, Audit.Rules the rules in their order, each setting checks
--    and perhaps ending the evaluation, Audit.Records the record that is written once. How decimals
--    are read and compared is a parameter.
--  - Events.Broker: InMemoryTaskEventBroker of backend/app/events/broker.py, each method a step.
--  - Capacity: backend/app/capacity/service.py; the snapshot that the provider answers is an argument.
--  - Locks.Execution: backend/app/locks/redis_execution_lock.py. The client is a parameter with its
--    laws; a Call is one use of the lock, of whichever holder.
--  - Reviews.Decide: backend/app/reviews/service.py, a decision as one transaction on the tables.
--  - Roads: backend/app/road_network. Roads.Network has the network and its neighbours, Roads.Order the
--    order of Python's tuples, Roads.Dijkstra the search: the dictionary best and the heap are the
--    record State, a turn of its while loop is one_round. The heap is a list of which the least entry
--    is taken.
--  - Streams: backend/app/streams/models.py. Streams.Json has the untyped values and the readers,
--    Streams.Task and Streams.DeadLetter the two messages. The json codec, UTF-8 and the test of a time
--    are a parameter, Codec.
--  - Vehicles: backend/app/vehicle_operations over the tables of backend/app/models/vehicle_operation.py.
--    Vehicles.Tables has the rows and the transactions, Vehicles.Opening, Vehicles.Rescue and
--    Vehicles.Workshop the methods of the repository, Vehicles.Runs their sequences, Vehicles.Progress
--    the loop of progressor.py, Vehicles.Orchestrate the service over repository and path search. The
--    numbers of a mission and an order are a parameter.
--
-- The search for a path runs on fuel, two units for each edge and two more: a node is expanded at most
-- once and an edge has two ends, so each of its entries is taken once. The other loops of the modelled
-- code go over finite lists.
--
-- Not modelled: request handlers, tables and queries beside those named above, clients of remote
-- services and language models, metrics and logging, the worker's polling loops, cancellation, and the
-- background renewal of the execution lock.
pub mod Base
pub mod Audit
pub mod Breaker
pub mod Capacity
pub mod Events
pub mod Idempotency
pub mod Locks
pub mod Memory
pub mod Overrides
pub mod Reviews
pub mod Roads
pub mod Security
pub mod Streams
pub mod Vehicles
pub mod Worker
