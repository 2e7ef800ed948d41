-- ===== src/Lib.antt =====
-- A verification library for wyndpy, which fetches and discovers the sources of items over adapters
-- that a project chooses in a policy. Paths are from the repository's root.
--
-- The parts, and how they meet.
--   The router (wyndpy/core/router.py) works on one item under a lock of the item's id. Track A,
--   `resolve_known_source`, fetches the item's first source and goes from fetcher to fetcher by
--   rules on the error, or by their order when there are no rules; it may hand a result to a parser.
--   Track B, `discover_source`, asks the searchers for candidates and the trust strategy about each,
--   and merges the first that is new and trusted. `resolve` wires the two. The factory builds a
--   router from a policy and the installed adapters; the registry keeps items; the schedulers keep
--   jobs.
--
-- Which file models which part.
--   Base: shared names. Base/Equality has `==`, `in` and the conditional of Python, Base/Dict its
--     dictionaries in insertion order, Base/Text methods of its texts, Base/Value values of a YAML
--     file or a JSON reply, Base/Reply a value or an exception, Base/Url what `urlparse` gives.
--   Core/Results, Core/Item, Core/Escalation: wyndpy/core/results.py, item.py and escalation.py.
--   Core/Protocols: the protocols of wyndpy/fetch, search, parse, trust and registry, as records of
--     functions on a world of the caller's choice.
--   Core/Discovery: wyndpy/core/discovery.py.
--   Router: wyndpy/core/router.py. Router/Setup has `Router.__init__`, its tables and lookups;
--     Router/Action the state of a run and the calls it makes; Router/TrackA `_fetch_with_retry`,
--     `_run_parser` and `resolve_known_source` (`walk` is its loop); Router/TrackB `discover_source`
--     (`merge` is the branch that changes the item); Router/Resolve `resolve`. Below them stand the
--     proofs, by what they are about; Router/Keeps and Router/History carry facts about any run,
--     the files named Frame those about the steps of each track, Router/TrackA/Costs what a run adds
--     to a count of its events, and Router/TrackA/Rounds what the loop adds with any fuel.
--     Router/Locks is `async with self._lock_for(...)` between concurrent tasks, as a step relation.
--   Trust: wyndpy/trust/allowlist.py. Trust/Hosts compares it with the allowlist of the fetchers.
--   Fetch: Fetch/Guard is `_is_private_host` and `_url_allowed`, Fetch/Httpx `HttpxFetcher`, and
--     Fetch/Httpx/Shell its empty-shell heuristic (wyndpy/fetch/httpx_adapter.py); Fetch/Firecrawl
--     is wyndpy/fetch/firecrawl_adapter.py, on the same guard. Fetch/Httpx/Routed
--     puts the httpx adapter behind the router. Fetch/Network has what the
--     adapters use of Python's library and of httpx.
--   Search, Parse: Search/Exa is wyndpy/search/exa_adapter.py, and Parse/Llamaparse is
--     wyndpy/parse/llamaparse_adapter.py (`poll` is its loop).
--   Registry: wyndpy/registry/memory_adapter.py, and Registry/Postgres the stub beside it.
--   Scheduling: wyndpy/scheduling/cron_adapter.py and event_adapter.py. Scheduling/Fire is `fire`,
--     whose `asyncio.gather` is a step relation on the tasks.
--   Policy: wyndpy/policy.py. Policy/Load is `load_policy`, and Policy/File the schema of the design
--     spec with the policy that a file means.
--   Factory: wyndpy/factory.py. Factory/Allow is `_normalize_allow`, Factory/Construct `_construct`,
--     Factory/Build the rest of it. Factory/Classes is `__init__` of the built-in adapters, called
--     with keyword arguments. Factory/Served puts the two fetchers that it makes for a policy behind
--     the router, and Factory/Review follows a policy from its file to the router's `resolve`.
--   Surface: Surface/Schema is wyndpy/surface/tool_schema.py, and Surface/Tools
--     wyndpy/surface/mcp_server.py (`register` is the three methods `register_...`); Surface/Direct
--     is wyndpy/surface/direct.py, on the coroutines of Core/Coroutine.
--   Package: the version in wyndpy/__init__.py.
--   Testing: wyndpy/testing/fake_adapters.py. The files named Tests run the model on small
--     inputs, those of the router and of the fetchers over Router/Desk and Fetch/SmallWorld.
--
-- How code is rendered.
--   A run of the router is a function of a state: the item that the caller passed in, the locks, and
--   the world. It also writes a history of its calls, which the source does not keep, for statements
--   on what is called and in which order. An exception is a value, and what was written before it
--   stays written. The registry's protocol is given the item as it is at the call; the memory
--   registry keeps references, and reads items through a store. Times of waiting are in
--   microseconds, the score of a candidate is the pattern of its 64 bits, and numbers that the
--   source counts with are natural. Metadata, credentials and policies hold values of a dynamic
--   language without opaque objects; a built-in adapter that is made with an argument of another
--   type than its signature's raises here at once. The texts of exceptions are shortened, those of
--   error results are not. The two regular expressions are written out by what they match.
--
-- Fuel. The loop of Track A has as many rounds as there are fetchers. A round is made only for a
--   fetcher not visited before, so these are enough, and a run ends before they are used up.
--
-- Parameters: reading a YAML file, `urlparse`, `ipaddress`, name lookups, SHA-256, the clock, entry
--   points, the adapters themselves and httpx. Witnesses give concrete ones.
--
-- Not modelled: the order in which asyncio lets waiting tasks into a lock or hands over the
--   failures of an event's jobs, which is left open; jobs that never end; the cancellation of a
--   task; logging; the names that the package passes on from its modules, which have no behaviour
--   of their own.
pub mod Base
pub mod Core
pub mod Router
pub mod Fetch
pub mod Search
pub mod Parse
pub mod Trust
pub mod Policy
pub mod Scheduling
pub mod Surface
pub mod Factory
pub mod Testing
pub mod Registry
pub mod Package
