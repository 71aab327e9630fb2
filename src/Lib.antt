-- ===== src/Lib.antt =====
-- The server of formshift: a client uploads payloads to a session and submits a graph of processing
-- modules; the server validates the graph, executes it node by node over a cache of results, and
-- reports events and outputs. This library models the parts of the program (src/formshift_server)
-- that carry its own logic, and proves them correct. Code is translated from the source, function
-- by function.
--
-- - Prelude: the shared types. Prelude/Dict is Python's dict as a list of entries in insertion
--   order, Prelude/Results is code that may raise, as a value or an exception.
-- - Json: parsed JSON documents and payload bytes.
-- - Modules: src/formshift_server/modules.py, manifests and the registry. `lookup_module` is the
--   registry's `get`. Modules/Registration: what a registration changes.
-- - Sessions: src/formshift_server/sessions.py.
-- - Graph: src/formshift_server/graph.py. Graph/Parse is `parse_graph`, Graph/Topology
--   `topological_order`, Graph/Validate `validate_graph`, one function for each of its loops.
--   Graph/Validate/Spec says what a valid graph is, over the graph alone.
-- - Cache: src/formshift_server/cache.py. Hashing and printing are a
--   parameter, `Hashes`; payloads and recipes have one digest, as in the program.
-- - Executor: src/formshift_server/executor.py, `run_node` and the state that workers share.
--   Executor/Keys: what a cache key stands for. Executor/Caching: the cache shows no difference,
--   for modules with one output port and payloads that are no recipe's text. Executor/Collision: with two it can. Executor/Workers: the
--   workers of `execute_graph` side by side, as a step relation over their phases.
--   Executor/Scheduler: the loop of `execute_graph`, over a `wait` that is a parameter.
-- - Jobs: src/formshift_server/jobs.py. Jobs/Events: the log and the event stream of
--   src/formshift_server/app.py. Jobs/Outputs: the emission of outputs, behind a gate in a pinned
--   group. Jobs/Run: `_run`, the worker thread of a job.
-- - Extensions: src/formshift_server/extensions.py. Extensions/Manifest parses the document of an
--   extension, Extensions/Rollback is about registration, Extensions/Preflight about the check
--   before it, Extensions/Install about an installation and the loading of what is installed.
--   Extensions/Worker is the worker process of an extension seen from the server, and
--   Extensions/Runner src/formshift_server/extension_runner.py, the program that it runs.
-- - App: the endpoints of src/formshift_server/app.py for sessions, payloads and jobs.
--   App/Alignment: the two dictionaries of the application, over all sequences of requests and
--   workers. App/Accepted: the jobs that are accepted.
--   App/Listings: the endpoints for modules and extensions.
--   App/Guard: the middleware with its host, origin and token checks.
-- - Text: the methods of Python's `str` that the checks use.
-- - Config: src/formshift_server/config.py, and `_build_config` of src/formshift_server/cli.py.
-- - Core: src/formshift_server/core, the modules that come with the server. Core/Raster and
--   Core/Color are about images, Core/Palette about explicit palettes, Core/Svg about documents,
--   Core/Potrace about the tracer; Core/Registry is `default_registry`, and Core/Contract what the
--   modules return against their manifests.
-- - Samples: concrete modules, graphs, documents and hashes, and the theorems at them.
--
-- The parts use each other as in the program: jobs execute graphs that validation has accepted,
-- execution looks up modules and payloads and reports to the callbacks of a job, whose worker
-- appends to the log of the session.
--
-- Strings are texts, bytes are lists of numbers, and Python's integers are natural numbers where
-- they count. Mutation is a state that a function takes and returns; an exception is a result. Two
-- loops are on fuel. That of `static_order` (Graph/Topology) places a node in each round, so the
-- number of nodes is enough, and an order is found exactly where there is one. That of
-- `execute_graph` (Executor/Scheduler) ends a node in each turn, so the number of nodes is enough.
--
-- Not modelled: the file system and processes, which enter as what each call of them gives, the
-- libraries that process images, and random numbers. A new id is an argument. Pillow, numpy, the XML
-- reader, JSON texts, base64 and the potrace process are parameters, and the code of an installed
-- module is a function that the theorems do not look into. The start of the web server, the
-- benchmarks under scripts and the bundled extension are glue around libraries.
-- An upload and a submission have a definition from the body on (`receive_payload`, `receive_job`),
-- since other requests may come between their lookups and the body. The run of a job is one step; of
-- what other requests do during it, a request to cancel the job is kept.
mod Prelude
pub mod Text
pub mod Json
pub mod Modules
pub mod Sessions
pub mod Graph
pub mod Cache
pub mod Executor
pub mod Jobs
pub mod Extensions
pub mod Config
pub mod Core
pub mod App
mod Samples
