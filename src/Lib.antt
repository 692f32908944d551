-- ===== src/Lib.antt =====
-- A verification library for the agent runtime, the Python package in src/agent_runtime.
--
-- The runtime drives a model and its tools in steps. Each step reads the transcript, the capability set
-- and the application state, makes a prompt that fits a token budget, asks the model, and then either
-- runs a batch of tools or a completion policy; both end in a control decision.
--
-- How the files correspond to the code:
-- * Contracts and its children are the value objects of src/agent_runtime/contracts.py, each a record
--   with the source's fields, each enumeration a data type. Errors has the exception classes of
--   src/agent_runtime/exceptions.py and the computations that may raise one; the texts of messages are
--   left out. Json is the frozen JSON of src/agent_runtime/jsonutil.py, without floats, and
--   Json.Freezing how a host's values are frozen and thawed.
-- * Context.Pairing is `pair_tool_messages`, Context.Groups `group_messages`, and Context.Trim
--   `ToolGroupCompressor.compress` with `_oldest_tool_group` and `_oldest_plain_turn`, all of
--   src/agent_runtime/context/compress.py. A cursor into the list is the list that stands from it on.
-- * Context.Summary is `SummarizingCompressor` of the same file; the summarizer is a parameter.
-- * Context.Preparing is `prepare` of src/agent_runtime/context/manager.py, made of its parts:
--   Context.Provider has the consistent reads, and the projections of a prompt with their store, under
--   keys that are given, since they are digests; Context.Contributors the collection of contributions
--   with its cache; Context.Merging `merge_contributions`.
-- * Context.Budget is src/agent_runtime/context/budget.py: estimates, the prompt budget and the ledger.
-- * Policies is src/agent_runtime/policies.py.
-- * Recording is `MemoryTranscript` of src/agent_runtime/recording.py. A method takes the transcript and
--   gives back a result with the transcript it leaves, also when it raises; its lock makes it one step.
--   Recording.Store has the state and the private helpers, Operations, Batches and Runs the methods;
--   `with_op` is how each of the six operations starts, `upsert` the part that three of them share.
--   Facts, Writing, Texts, Steps and Staging carry the invariant, Safe and Histories state it; Replays is
--   about committed ids.
-- * Loop is src/agent_runtime/core.py: Loop.Streams has `iterate_strict` and `consume_strict`, where a
--   stream is what `iterate_cancellable` gives of it and the exception that ends it, and
--   Loop.Allocation the numbers of steps that `AgentLoop.run` allocates, with what the source reads of
--   its control and its ledger as arguments. Loop.Turns is `AgentLoop.run` itself: what it yields is a
--   list, and its ports are functions of what they are asked, which is new for every step. Its
--   `while True` runs on a number of rounds.
-- * Capabilities is src/agent_runtime/capabilities/providers.py: Bindings the registry of binding
--   tables, Sessions `CapabilitySession` and the fixed provider, Publishing what a publication makes,
--   Resolving the resolver chain. A registry that is shared is passed along; the check of a tool's schema is a parameter, and another provider
--   is what it answers to the request at hand.
-- * Control is `RunControl` of src/agent_runtime/contracts.py; the clock is a number.
-- * Generators is the form of the asynchronous generators behind the phases and the runner: a function
--   of a state that gives what it yields, how it ends, and the state that it leaves, also when it raises.
-- * Pipelines is src/agent_runtime/pipelines on the state of src/agent_runtime/session.py and
--   src/agent_runtime/application.py (Session, Application). Model is `DefaultModelPipeline`, with what
--   the low-level model streams for each attempt a parameter; Tools is `DefaultToolPipeline`, with the
--   schema check and what each call reports and answers parameters, and Tools.Outcomes the default result
--   policy; Completion is `DefaultCompletionPipeline`. The control answers each time that it is
--   asked, and the state counts how often. Keeping carries the transcript's invariant through
--   generators, Untouched is about those that leave it alone, and Protocol what a phase owes the loop. Phases puts the
--   completion phase behind the model phase; the registry of bindings is the one that the session
--   publishes in, as the runner sets both up.
-- * Runner is `_run` of src/agent_runtime/runner.py up to its clean-up; what the loop does to the
--   transcript before each of its events, and what setting up gave, are parameters. Runner.Setup has
--   `accept_resolution` and `_binding_registry`.
-- * Lifecycle is src/agent_runtime/lifecycle.py: Waits has `wait_next`, `wait_cancellable`,
--   `sleep_cancellable` and `iterate_cancellable`, of what was done when each wait ended, Streams
--   `CallbackStream`, and Scopes `RunScope.aclose`. The pipelines and the runner take the outcome of
--   such a wait as a parameter.
-- * Adapter is the reading of a chat completion in src/agent_runtime/adapters/openai.py, from its chunks
--   to the events of the low-level model; `json.loads` is a parameter.
-- * Tests holds tests, and theorems at concrete inputs.
--
-- Conventions. A `str` is the list of its code points, an `int` that counts is a natural number. A
-- function that may raise returns a `Result`. Python's `str` of a mapping is the parameter `str_dict`,
-- and the token estimator is a record of functions, since a host may replace it.
--
-- Bounds. Loops over a list that skip ahead run on as many rounds as the list is long, which is
-- enough because each round advances; the trimmer runs on as many rounds as there are messages, which
-- is enough because each round deletes one. The agent loop has no bound of its own; a limit of steps gives
-- it one, which Loop.Ends is about. The attempts of a model step count down from the request's budget.
--
-- Not modelled: `ModelSummarizer`, `render_transcript` and the digests, which format text; the tasks
-- behind a wait, of which only the outcome is given; observers and timings, which change no
-- control flow; a consumer that closes a stream at a `yield`; the adapter's
-- requests, its producer task and its clean-up; asyncio itself.
pub mod Prelude
pub mod Errors
pub mod Json
pub mod Contracts
pub mod Generators
pub mod Context
pub mod Policies
pub mod Recording
pub mod Loop
pub mod Capabilities
pub mod Control
pub mod Lifecycle
pub mod Pipelines
pub mod Adapter
pub mod Runner
mod Tests
