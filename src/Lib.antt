-- ===== src/Lib.antt =====
-- dr-exec runs local processes through typed contracts. A caller declares a job (a target, grants,
-- budgets), an executor validates and runs it, the output that its budget allows is kept, a protected
-- protocol carries the results of Python drivers back, a completion with an outcome and an owner
-- comes out, and a scheduler shares a fixed capacity among many jobs.
--
-- The modules follow the packages of src/dr_exec:
--   Core.Kinds          core/kinds.py: the closed enumerations.
--   Core.Cancel         core/cancel.py: a CancelToken is an address in a heap of marks, so a token that
--                       the scheduler, its queue and a running job share is one mark.
--   Declarations        declarations/models.py and declarations/validation.py: limits and budgets, grants,
--                       targets and jobs with the validators that pydantic or __post_init__ run, and
--                       validate_declaration. Declarations.Admission describes the jobs that it lets
--                       through without mentioning its steps, Checked the grants and the
--                       budgets that are.
--   Recording           recording/models.py, core/names.py, recording/references.py and the records of the
--                       grants in recording/identity.py: retained streams, outcomes, results, receipts,
--                       completions and the records of a run, each with its validator as a function to
--                       a Result.
--   Recording.Store     recording/store.py: DirectoryRunStore. Errors is its exceptions, with the causes that
--                       they name, Reading is load, read_artifact and what finds a record, Writing is
--                       prepare, mark_running and finalize, all as calls that return or raise and leave a
--                       disk. Backend is what it calls, Laws what it relies on. Calls composes what holds
--                       at the end of a call, Published, Publishing, Preparing, Marking and Finalizing say
--                       what each operation leaves behind and Elsewhere that it leaves the other
--                       directories alone. Lifecycle is the abstract life of a record, Advancing
--                       compares the two; Loading, Going and Keeping follow load from call to call, and
--                       Guarantees states the results. Disk is a small disk on which the laws hold.
--   Execution.Retention execution/retention.py: StreamRetention and PayloadRetention. Window describes
--                       what a stream should hold, Kept compares the two.
--   Execution.Outcomes  execution/outcomes.py: attribution, and completed_execution. Completions holds its
--                       laws.
--   Execution.Engine    execution/engine.py and parse_setup_status of execution/spawn.py. Outcome classifies an
--                       attempt, Waiting is _await_child over what its rounds see, Teardown the signals of
--                       _tear_down and Processes what they do to a child and its group, Records the
--                       receipts and completions over a RunStore, Attempt the steps from the prepared
--                       record to the end of the call, with what the operating system shows as a
--                       World and what is done to the child as a trace. Receipts, Completing, Attempted and Tidy hold their laws, Directory joins the engine
--                       with the directory store.
--   Runtime.Protocol    runtime/protocol.py, runtime/wire.py and require_canonical_json_bytes of
--                       core/model.py. Wire is the frames, Decode is decode_frame, Accept is _StreamState,
--                       Acquire is _FrameAcquisition, Stream is read_protocol_stream. Lines gives the
--                       verdict on the lines of a whole stream, Feed and Transcript say which
--                       sequences of frames are complete, Refill and Chunks show what next_frame returns
--                       from any chunks, Verdict joins them.
--   Scheduling.Scheduler  scheduling/scheduler.py. State is the fields of ExecutionScheduler, Intake is
--                       admit, close_intake, cancel_all, expire, _ensure_worker and _break, Delivery is the
--                       calls that take, release or discard completions and shutdown, Work is what
--                       worker threads do. System adds the threads: its state is the scheduler, the jobs
--                       in flight, the workers that returned and the history, and an Event is one
--                       critical section of a driver, a worker or the deadline thread, so that a list of
--                       events is an interleaving; discard_completions is called only once the
--                       workers are joined, as scheduling/pool.py does. Released to Expiry carry one
--                       invariant each, and Guarantees states the results for every interleaving.
--   Execution.Workers   execution/worker_pool.py and execution/worker_pool_worker.py. Slots is the state
--                       of _WorkerSet with what each thread is doing, Steps the steps of lease,
--                       release, retire_and_free and close in any number of threads; Width and Alive
--                       state their laws. Frames is _handle of the worker and interpret of the parent,
--                       Served states that they agree. Watch is _StopWatch and _exchange.
--   Capabilities        capabilities/fake.py: FakeExecutor. Scripted is its law over many calls.
--   Prelude             lists, texts, integers, results and Boolean tests that the others share.
--
-- How the code corresponds to the model. A method that changes an object is a function from the state to
-- the state; one that raises returns a Result, an Option of an error, or a sum. The lock of the
-- scheduler makes each critical section one step; a wait on the condition variable is a test that
-- the step needs (work_due, completion_due). A running executor is a parameter: the event that ends a job
-- carries the completion or the failure. Starting a thread may fail with a given failure. Numbers are
-- natural; a difference of Python that cannot be negative is the truncated one, and where the code clamps
-- a negative difference the model's comment says so. Names and paths are lists of code points, byte
-- strings are lists of numbers, instants are counts of nanoseconds.
--
-- Parameters. dr_serialize and pydantic stand in Runtime.Protocol.Decode.Codec, the binary stream in
-- Runtime.Protocol.Acquire.ByteReader, with the documented behaviour of read as laws: a read
-- returns the next bytes, at most as many as asked for, and nothing only at the end. The encoder of
-- requests and the file system are arguments of the validation. The clocks are arguments of
-- completed_execution and of a report. The file system and the document directories of dr_store are
-- Recording.Store.Backend.Backend, over any type of disks, with the documented behaviour as laws in
-- Recording.Store.Laws: a manifest is published whole or not at all, where publishing that raised may have done
-- either; what is done in one directory changes nothing in another; a directory that has one is not made
-- anew, sidecars are no manifests and verify by their writer's summary. A process
-- in Execution.Engine.Processes ends at once on the termination signal or ignores it, and ends on the
-- escalation signal. Dumping and validating a record
-- is Recording.Store.Backend.Codec, whose law is that a valid record survives both.
--
-- Fuel. The loop of read_protocol_stream and that of next_frame run on fuel. More fuel than the stream
-- has bytes, and two more than that for next_frame, is enough, since a round of the first uses up
-- a line and a round of the second reads a byte or meets the end. The loops of _await_child and
-- _get_watched run on as many rounds as they are given; the rounds until the clock reaches the deadline are
-- enough.
--
-- Not modelled: the texts of errors, logging, pipes, selectors and the calls of the operating system
-- (execution/engine.py in part, execution/spawn.py, execution/worker_pool.py and
-- execution/worker_pool_worker.py in part, runtime/bootstrap.py, runtime/probe.py), importing code by name (importable_json.py,
-- execution/importable_json_executor.py), hashing and identity documents (recording/identity.py in part,
-- recording/provenance.py, core/identity.py), the asyncio pool (scheduling/pool.py, scheduling/offload.py), and
-- run_batch of scheduling/scheduler.py.
pub mod Prelude
pub mod Core
pub mod Declarations
pub mod Recording
pub mod Execution
pub mod Scheduling
pub mod Runtime
pub mod Capabilities
