-- ===== src/Lib.antt =====
-- A model of the core of primal_ai (the Python package under src/primal_ai), with the theorems that
-- its parts rely on. The package wraps agents and model providers in governance: Atlas routes a
-- task to a provider, Guardian runs policies around an agent, Verifier judges an output, Conductor
-- delegates tasks between agents, Trajectory records what happens, Continuity keeps user profiles,
-- and Harness runs health checks, jobs and a registry of tools. They share the JSON-Schema subset
-- of _jsonschema.py, the event bus of _events.py, the active trajectory and the stores.
--
-- Which file models which part:
-- * Base and its children: Python values, exceptions, dicts and signed integers, with the list and
--   Boolean helpers; Python holds what an object calls to be rebuilt from a dict. An `Outcome` is a
--   return or an exception; an exception is a PolicyViolation, another Exception, or a
--   BaseException that `except Exception` lets through.
-- * Schema (src/primal_ai/_jsonschema.py): `walk` is `_walk`; Schema/Sound gives the documented
--   meaning of a schema, and where the code is laxer.
-- * Events (_events.py): the bus as a dict of subscriptions; Events/Delivery says who gets an
--   event, and Events/Serial has an event's dict.
-- * Atlas (atlas/): Health, Provider and Registry are the classes of _health.py, _provider.py and
--   _registry.py; State is the state of the facade; Router is router.py, `decide` being
--   `Atlas._decide` in the steps of its comments; its child Invoke is `Atlas.invoke`; Cascade is
--   cascade.py; Bandits is bandit.py, with `save` and `load` in Bandits/Persistence; Finding is
--   `Atlas.find`. Bandits/Scores, Bandits/Updates, Bandits/Exploring, Persistence/RoundTrip, Choice,
--   Decisions, Invocation, Validity, Cascade/Answers, Cascade/Attempts, Cascade/Cooling, Finding/Both,
--   Registry/Valid, Exploration and Exploration/Progress hold the proofs; the last two put the router
--   and the UCB1 selector together.
-- * Guardian (guardian/): Policy and Run are _policy.py and _core.py, Combinators is
--   _combinators.py; RateLimit, DollarCap, Lists, Redact and SchemaValidator are the policies of
--   _builtins; Dsl is _dsl.py with `Guardian.wrap`, and Dsl/Factories the factories of _builtins.
--   Dsl/RoundTrip, Dsl/Resolving and Dsl/Factories/Pipes hold the proofs.
-- * Verifier (verifier/): Verdict and Audit are _verdict.py and _core.py, Rules is rule_based.py,
--   Domain is domain.py and Judge is llm_judge.py; Judge/Passing holds its proofs.
-- * Conductor (conductor/): Card, Registry, Delegate and Pipeline are _card.py with _delegation.py,
--   _registry.py, _core.py and _pipeline.py; Finding has `find` and `set_active_trajectory`, and
--   Finding/Both and Finding/History its proofs.
-- * Storage (storage/): a store as a record of operations with its laws, and memory.py; its child
--   Sqlite is sqlite.py, with the proofs in Sqlite/Refinement.
-- * Trajectory (trajectory/): Steps is _step.py; the parent module, Counts, Serial and Session are
--   _core.py: the recorder, `summary`, the dicts with `save` and `load`, and `with` blocks. Ops
--   gives the recording calls as data; Totals, RoundTrip, Blocks, Occurrences and Spans hold the
--   proofs.
-- * Continuity (continuity/): Profile is profile.py, Facade is _core.py and Autolearn is
--   autolearn.py; Merging, RoundTrip and Learning hold the proofs.
-- * Harness (harness/): Health, Scheduler and Discovery are the files of those names; Facade is
--   _core.py; Scheduler/Threads has the threads of `start` and `stop` as a step relation.
--   Health/Overall, Scheduler/Rounds, Scheduler/Deadlines, Threads/Stopping, Discovery/Mirror and
--   Discovery/Restart hold the proofs.
-- The children named Tests run the models on small inputs.
--
-- How it is modelled. Code that the user supplies (providers, agents, selectors, policies, layers,
-- handlers) is a function on a state `S`, and its exceptions are values; a method of the library
-- takes the state and returns it with its outcome. A method under a lock is one step. Times are
-- whole ticks of a millisecond, and the clock moves only inside the user's code, whose calls say
-- how long they take; the stamps of Trajectory, Continuity and Harness/Health are floats. Floats of
-- money, confidence, cost and time are whole millionths, and a mean is a fraction: the rounding of
-- floats is not modelled. The bandits take the arithmetic of floats as a parameter. The Python
-- functions that the code calls on texts (regular expressions, urlparse, str, splitlines, upper and
-- lower case) are parameters, but for the stripping, partitioning and splitting of the policy DSL,
-- which Base/Text has on the code points of a text. Every loop is structural recursion on the list
-- that it runs over, so no fuel is used.
--
-- A store is any that meets the laws of Storage. It may refuse a value, and then raises; leaving a
-- `with` block of Trajectory has both cases, and the other uses of `put` are modelled for values that
-- the store takes. What `uuid4`, `time.time` and `random` answer is
-- an argument. The scheduler's loop is given the times at which it wakes, as a list.
--
-- Not modelled: OpenTelemetry spans, but for those that a trajectory opens; the texts of messages,
-- which are constructors with the values that they print; the dicts of routing
-- decisions and delegation results; the errors of a database; the Postgres and Redis stores, which raise
-- NotImplementedError. A worker thread that outlives its budget runs to its end, since Python cannot
-- stop it. What subscribers of the bus do is seen in Events; the other parts keep the list of what
-- they published.
pub mod Base
pub mod Atlas
pub mod Schema
pub mod Guardian
pub mod Storage
pub mod Trajectory
pub mod Verifier
pub mod Conductor
pub mod Events
pub mod Continuity
pub mod Harness
