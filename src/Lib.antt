-- ===== src/Lib.antt =====
-- The scheduling core of the distributed job engine: the lifecycle of a job, the priority queue
-- that holds waiting jobs, the engine that admits, starts, finishes, cancels, retries, leases and
-- recovers them, the store behind it, and the API and the remote workers in front of it.
--
-- Parts and files.
--   Lifecycle.antt: `JobState` and its functions (src/core/job.cpp, include/jobengine/job.hpp);
--     proofs in Lifecycle/Diagram and Lifecycle/Names.
--   Retry.antt: `RetryPolicy::delay_after_attempt` (src/core/job.cpp); proofs in Retry/Bounds.
--   Json.antt: `Json` with its accessors (include/jobengine/json.hpp, src/core/json.cpp).
--     Json/Printer has `dump_into`; Json/Scanner and Json/Parser have `Parser`, with its messages
--     in Json/Result. Proofs in Json/Strings, Numbers, Plain, Arrays, Objects, RoundTrip, Leaves
--     and Total.
--   Util.antt: the text helpers of src/core/util.cpp; proofs in Util/Texts.
--   Histogram.antt: `Histogram` (include/jobengine/metrics.hpp, src/core/metrics.cpp); proofs in
--     Histogram/Buckets and Histogram/Percentiles, which also has `percentile_us`.
--   Job.antt: the structs that the queue, the engine and the store share (include/jobengine).
--   Queue.antt, Queue/Defs, Queue/Waiting: `PriorityJobQueue` (src/queue/queue.cpp), one function
--     for each critical section of its mutex and one for each blocking operation; proofs in
--     Queue/Invariant, Histories, Order, Rounds, Front, Scheduling, Capacity and Removal.
--   Store.antt: `JobStore` (src/store/store.cpp, include/jobengine/store.hpp). Store/Columns has
--     the columns of a job row, Store/Buffer the group commit: the pending writes, the read-through
--     cache, the flusher and its transactions, Store/Queries the reading queries that the API uses.
--     Proofs in Store/Acknowledge, Drain and Failures, and, of the cache against a store without
--     one, which is in Store/Reads, in Store/Newest, Entering, Leaving and Refinement.
--   Http.antt: `HttpRequest` (include/jobengine/http.hpp); Http/Head has `parse_headers`, Http/Feed
--     the rest of `HttpRequestParser` and the loop that reads one request of a connection
--     (src/http/http_server.cpp); Http/Client has the request that `HttpClient` sends
--     (src/http/http_client.cpp). Proofs in Http/Chunks, Framing, Limits and Errors, and, for the
--     client's request, in Http/Lines, Names, RequestLine, Headers, SentHead and Sent.
--   Engine/: `JobEngine` (src/engine/engine.cpp). State has the engine, the store's rows and the
--     environment of a call; Submission and Workflows have `submit`, `submit_workflow` and
--     `cancel_workflow`, with the checks of the graph in Graph; Attempts and Completion have
--     `cancel`, `begin_attempt`, `finish_attempt` and `execute_entry`; Workflow has `on_terminal`
--     and what it calls; Remote has the protocol of remote workers; Watchdog has one round of
--     `watchdog_loop`; Recovery has `recover`. Events has histories in which reports are in flight.
--     Proofs are in Rows, Final, Cancellation, Races, Frames, Free, Outcomes, Fencing, Overwritten,
--     Table, Restart, Admission, Leases, Walk, Reach and Skipping, and, of the check for cycles, in
--     Counting, Kahn, Acyclic and Cycles.
--   Api.antt: `HttpResponse` and what the handlers share (include/jobengine/http.hpp,
--     src/api/api.cpp). Api/Routes has the route table and `match`, Dispatch `dispatch`, Handle
--     `handle`; the handlers are in Submission, Jobs, Graphs, Workflows, Workers and Health, the
--     last with the `to_json` functions of src/core/metrics.cpp. Proofs in Api/Accepted, Answers
--     and Tokens.
--   Worker.antt: `RemoteWorker` (src/worker/remote_worker.cpp), with its attempts in
--     Worker/Attempts; proofs in Worker/Reports.
--   Tests/: sample inputs and uses of the theorems at them.
--
-- How the parts interact. `submit` reserves a slot, writes the row and pushes the job; a worker
-- polls the queue and calls `begin_attempt`, which writes RUNNING and registers the lease; the
-- result comes back through `finish_attempt`, which writes the row and either pushes the job again
-- or concludes it: `on_terminal` releases or skips the dependents, the completion callback is
-- called, and the slot is released. The engine reads and writes rows of jobs as they are behind the
-- cache of the store; how the store brings them to SQLite is in Store/Buffer, where a row is a list
-- of columns and payload and result are JSON texts. A request that the parser of the server has
-- read goes to `handle`, which finds its endpoint and calls the engine; a remote worker sends and
-- reads the JSON of the endpoints for workers.
--
-- State and operations. The engine is a record passed from call to call. What the code does under
-- one lock is one function, and what it does between two locks is a sequence of such functions
-- (`claim_finish` then `record_finish`, `check_lease` then `complete_held`), so that calls of other
-- threads may come in between. The cancel flag and reason that a running attempt shares by pointer
-- are cells of a store, and an attempt carries the number of its cell. Maps are association lists;
-- the iteration order of an unordered map is the order of the list.
--
-- Numbers. Clocks, counters and tokens are natural numbers; what a client gives (priority,
-- max_attempts, timeouts, delays) is an integer, on which arithmetic is taken without overflow;
-- `outstanding` wraps at 2^64 when it goes below 0. Identifiers are numbers, as the code only
-- compares them, and an empty identifier is `none`. A text is the list of its bytes. Doubles are
-- a parameter (`Doubles`): conversion, product, comparison and rounding; `DoubleText` has what JSON
-- needs of them, `isfinite`, the format `%.17g` and `strtod`.
--
-- Outside code. An `Env` gives the clocks, random numbers and new identifiers of one call, the
-- answer of each write to SQLite, whether the store keeps the error of an earlier batch, and the
-- registered handlers; each is an argument, on which the theorems state what they need. A `Context`
-- gives the API its doubles, the messages of the JSON parser and of SQLite, and how an identifier
-- is written; `Service` and `Process` give the rest of one request. Logging is left out.
--
-- Heaps. `std::priority_queue` is the list of its elements in the order in which they are popped.
--
-- Loops and fuel. The loops of the queue recurse on the heaps. The walk of `skip_descendants`
-- has the frontier and all edges as fuel; Engine/Walk.antt shows that it ends before that is
-- used up. The JSON parser has two units of fuel for each byte, and one more; Json/Total.antt
-- shows that they are not used up. `flush_steps` is given a number of steps of the flusher, and
-- Store/Drain.antt shows how many empty the buffer. Kahn's loop has one step more than there are
-- nodes. A blocking `pop` is given the list of its rounds: a time for each wake-up, with the
-- calls of other threads before it.
--
-- Not modelled. Threads, condition variables, sleeps and sockets; SQLite itself, with the opening of
-- the database and its migrations, and the text of its errors; the store without group commit; the
-- text of an HTTP answer and its reading by the client; the built-in handlers; the programs.
pub mod Prelude
pub mod Lifecycle
pub mod Retry
pub mod Histogram
pub mod Json
pub mod Job
pub mod Util
pub mod Queue
pub mod Store
pub mod Http
pub mod Api
pub mod Worker
pub mod Engine
mod Tests
