-- ===== src/Lib.antt =====
-- A model of the services of Chatterbox Manga Studio, and what they guarantee.
--
-- The program dubs and adapts manga and video in long jobs. Its services keep the state of the
-- work: a job scheduler over a key-value store and a priority queue on files, an event bus that
-- every service publishes to, a GPU scheduler and a worker pool that hand out memory and workers,
-- a registry of model plugins with a manager that loads the models and a runtime that asks them,
-- a workflow engine that runs graphs of nodes, and, around them, the planning of translation
-- batches and of the output timeline.
--
-- Which file models what (paths under src/chatterbox_manga_studio/ of the repository):
--   Common     lists, texts, dictionaries, stable sorting, and the monad of methods that change an
--              object and may raise: what was written before a raise stays written.
--   Events     services/events.py: EventBus. A handler is its name and whether it fails on an
--              event; `calls` records each call.
--   Storage    services/storage_manager/filesystem.py: Kv is FilesystemKVStore, Queue is
--              FilesystemQueue, and Kv.Spec the map that the store is to its readers (Shown,
--              Map). A directory is a dictionary from file names to what is in the file; sha256 is a parameter
--              (Storage.Digest) of which only that it gives different names to different keys is used.
--   Jobs       services/job_scheduler.py: JobScheduler, method by method, over the two stores and
--              the bus. Jobs.Record has Job, Jobs.Store the calls of the storage, Jobs.Invariant
--              what holds between operations, Jobs.Claim the loop of claim_next_job.
--   Gpu        services/gpu_scheduler.py: GPUScheduler. Gpu.Memory is one device and the eviction
--              loop, Gpu.Candidates the devices for a model, Gpu.Placement `allocate`, Gpu.Steps whole histories.
--   Pool       services/worker_pool.py: WorkerPool. Pool.Worker has the records and the query,
--              Pool.Expiry the reservations that end, Pool.Eligible and
--              Pool.Leases a new one, Pool.Steps whole histories.
--   Plugins    services/plugin_registry.py: the registry, its queries (Asks, Find) and the two ways to build
--              it from the configuration (Build, Bootstrap).
--   Models     services/model_manager.py: ModelManager over a runtime that is an interface; Models.Calls
--              are the operations that call the runtime.
--   Runtime    services/worker_runtime.py: WorkerRuntime around an adapter that is an interface.
--              Runtime.Inference is one request, Runtime.Steps whole histories.
--   Stageflow  common/stageflow.py: the GPU there is, and the state file of a project with its stages
--              and checkpoints (Progress).
--   Providers  services/provider_manager.py: ProviderManager. Providers.Record is one provider and
--              whether it may be chosen, Providers.Choice the choice, Providers.Limits the wait for
--              the rate limit (Waits: what it leaves), Providers.Failures the pause after a failure,
--              Providers.Execution the attempts of `execute`, Providers.Attempts and
--              Providers.Exact what they come to.
--              What a provider answers is a parameter.
--   Workflow   services/workflow_engine.py: WorkflowDefinition with its validation and its order
--              (Graph, Order, Cycle, Validation); WorkflowEngine with its runs, pausing, cancelling,
--              checkpoints and ready nodes (Engine, Ready, Control), one node with its attempts
--              (Execution; Held, Attempts, Retries, Nodes for its proofs), and the turns of a run to its end
--              (Runs; Proper, Batch, Pending, Ending, Resume, Created, Progress). Handlers are parameters.
--   Batches    adapt/batch_manager.py: the plan of a translation and the versions of its batches.
--   Timeline   export/timeline.py: the six ways to lay cues on the output.
--
-- How the state corresponds. An object's fields are a record; a method is a function from the state
-- to its result and the new state, and a raise is a result too. Time, uuid4 and random ids are read
-- from outside: an `Ambient` argument holds the clock and the new ids that one call reads, and a
-- property that needs an id to be new says so. One call reads one time. JSON payloads are values,
-- not texts, and stored models are records, so that validation of what was stored is not modelled.
-- Memory and seconds are whole units in place of floats, the progress of a workflow is in millionths.
-- A map keeps its insertion order, as a Python dict does.
--
-- Bounds. A loop that Python runs `while` something holds is recursion with a bound, and the bound
-- is enough: claim_next_job takes a message away in each round (messages + 1 rounds), eviction takes
-- an allocation away (as many rounds as allocations), the order of a graph places a node (as many
-- rounds as nodes), and the wait for a rate limit lets a request leave the window (requests + 1
-- rounds). The attempts of a workflow's node are bounded by its maximum, and the turns of a run by
-- its nodes that are pending, with one more. The attempts with one provider are as many as its
-- retries and one more; the turns of the providers in `execute` have a bound that is an argument,
-- since they need not end (endless_test of Providers/Samples.antt). The theorems on the other functions
-- say so where they say what is returned.
--
-- What is not modelled. Each call runs from its start to its end with no other between: the awaits
-- inside the scheduler's methods, where another task may run, are not interleaved. The nodes that one turn of a
-- workflow runs are given to asyncio.gather, which is a parameter; the theorems on whole runs ask of it
-- that it runs a batch of one node, and are about runs with one node at a time. WorkerRuntime.infer_batch,
-- whose requests run at the same time, is left out. A disk that fails, ffmpeg, model packages, HTTP and the interfaces are outside.
pub mod Batches
pub mod Common
pub mod Events
pub mod Gpu
pub mod Jobs
pub mod Models
pub mod Plugins
pub mod Pool
pub mod Providers
pub mod Runtime
pub mod Stageflow
pub mod Storage
pub mod Timeline
pub mod Workflow
