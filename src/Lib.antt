-- ===== src/Lib.antt =====
-- The weather platform: the decisions of its domain layer, of the realtime scheduler and of the
-- physical store.
--
-- Upstream publishes forecast cycles; the realtime scheduler polls for them, plans lead waves and
-- hands them to the ingestion workers, which write one shard for each variable of a region (a lead
-- of the deterministic product, of the ensemble mean or of a member) and a marker for the region.
-- The serving tier answers for the valid times of the serving window; what has left the window is
-- reclaimed shard by shard, and whole cycles once their horizon has expired. All parts go by the
-- registries and rules of the domain layer.
--
-- Common            the shared names: Boolean tests, lists, integers, results, text, dictionaries
--                   and decimal numbers. A text is the list of its ASCII codes.
-- Domain.Time       `datetime` and `timedelta`: microseconds since the first day of year 1, with
--                   the overflow errors at both ends. A naive value is kept apart.
-- Domain.Horizon    packages/domain/src/domain/horizon.py. The two module dictionaries are the
--                   record `Registry`; each function that assigns to them returns the new one.
-- Domain.Cadence    packages/domain/src/domain/cadence.py, in the same way.
-- Domain.Temporal   packages/domain/src/domain/temporal.py: the serving boundary, the grid, the
--                   protected set and its enumeration, the variables with an interval.
-- Domain.Lifecycle  packages/domain/src/domain/lifecycle.py: expiry, purge, the snapshot of a
--                   cycle. The store URL is not modelled.
-- Domain.Reclamation  packages/domain/src/domain/reclamation.py: targets, object keys, predecessors,
--                   markers; the table of expected variables is in Domain.Reclamation.Schema.
-- Domain.Coverage   packages/domain/src/domain/coverage.py: member counts and the lead test, with
--                   the ratio as ten-thousandths, which is how the code compares. The environment
--                   variable, the NumPy masks and the ratio for display are not modelled.
-- Domain.Canonical  packages/domain/src/domain/canonical.py: candidates and the selection of sources,
--                   with the resolution of all times in Domain.Canonical.Bulk and the fence of
--                   physical keys in Domain.Canonical.Fence. Sets are lists, read by membership.
-- Domain.Registration  packages/domain/src/domain/model_registration.py: the audit of the three
--                   registries and its report.
-- Domain.StorageDtype  packages/domain/src/domain/storage_dtype.py: the dtype of a shard's payload.
-- Realtime.Snapshot  `CycleSnapshot` of services/ingestion/src/ingestion/providers/noaa/discovery.py.
-- Realtime.Planner  services/ingestion/src/ingestion/realtime/planner.py, with the plan itself in
--                   Realtime.Planner.Plan: `plan_wave` whole. Its closures are functions of the
--                   record `Inputs`, its loops recursions over the horizon; times are naturals in
--                   one unit.
-- Realtime.Poll     services/ingestion/src/ingestion/realtime/polling.py; intervals are naturals,
--                   the jitter and the draw of the random source are counted in millionths.
-- Storage.Region    region identities: packages/domain/src/domain/locks.py, and in
--                   services/ingestion/src/ingestion/core the files markers.py and coordinator.py;
--                   and the keys of shards, as core/zarr_writer.py and the serving tier build them.
-- Storage.Shard     the shard container, on the bytes of one object: its writer and index parser in
--                   core/zarr_writer.py, its check in core/inventory.py, and the reader of
--                   services/api/src/api/core/zarr.py past its caches. Compression is not modelled.
-- Ingest.MarkerPuts  services/ingestion/src/ingestion/core/marker_put_scheduler.py: a step relation
--                   in which the threads of the pool move between any two turns of the loop. The
--                   loop from its head to its exit test is one step: what a thread does within it
--                   commutes with it.
-- Ingest.Index      services/ingestion/src/ingestion/providers/noaa/idx_parser.py: records, the parser
--                   and the grouping; the rules by which the selectors look for a variable are in
--                   Ingest.Rules and the selectors in Ingest.Selection. Texts are ASCII.
-- Ingest.Reclaim    services/ingestion/src/ingestion/gc/planner.py: the planning pass, with the holds in
--                   Ingest.Reclaim.Holds and the whole plan of a model in Ingest.Reclaim.Pass;
--                   what it resolves and what it adds in Ingest.Reclaim.Planned. The rows that its
--                   queries answer are arguments; the insertion is not modelled.
-- Serving.Leases    the leases of services/api/src/api/core/reader_gate.py, as a step relation in
--                   which any thread performs its next critical section. Time is in milliseconds;
--                   a lease is known by the number of its creation. A call of the session is
--                   known by its effect on the gate that it holds.
-- Serving.StoreCache  services/api/src/api/core/store_cache.py as a step relation: a thread enters
--                   `get_or_open`, its opener returns or raises, it wakes, or the cache is cleared.
--                   A dataset is known by the key for which it was opened and the number of the call.
-- Serving.Breaker   `SearchCircuitBreaker` of services/api/src/api/services/circuit_breaker.py. The
--                   Redis client is a parameter: the state of the server and the calls, each of
--                   which may raise. Times are in seconds, and a call reads the clock once.
--
-- Exceptions are values of `Common.Result`, with one constructor of `Error` for each `raise`.
-- Loops are structural recursions over the list that the code walks. Only the decimal digits of a
-- number take fuel: one more than the number, which every division by ten lowers, and the
-- recursion of `select_variable_source` a depth of two, since precipitation, on which it recurs, is
-- no companion. The loop of the marker writes, the threads of the reader gate and those of
-- the store cache are step relations, without fuel.
--
-- Not modelled: database and object-store calls, HTTP, asynchronous orchestration, floating-point
-- meteorology and statistics, metrics, the web interface.
pub mod Common
pub mod Domain
pub mod Ingest
pub mod Realtime
pub mod Serving
pub mod Storage
