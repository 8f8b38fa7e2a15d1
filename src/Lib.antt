-- ===== src/Lib.antt =====
-- DockDoe: a dashboard of Docker hosts. A collector samples each local host (src/collector.rs,
-- src/docker.rs), hands the snapshot to the web layer (src/web.rs), to the notifier (src/notify.rs)
-- and to the trend rollups (src/trend.rs), and persists it (src/store.rs). A host may instead be
-- another DockDoe node, whose snapshots are mirrored (src/federation.rs). src/config.rs resolves the
-- configuration from the flags of src/main.rs and a file; src/auth.rs has the logins.
--
-- The modules and the code that they model, with the functions of the source under their own names:
--   Prelude     shared types and lemmas; texts as lists of code points with the methods of `str`
--   Model       src/model.rs: snapshots
--   Float       an interface for `f64`: what the code computes with floats is a parameter
--   Notify      src/notify.rs: `Tracker` as a record, `evaluate` as a fold over a snapshot
--   Store       src/store.rs: Metrics and Rows have the rollups and `pivot_trends`; the tables are lists
--               of rows (Tables), with the SQL statements as functions on them: Raw the samples, Upsert
--               the trend rows, Groups and History the queries, Migration the change of the layout,
--               Schema the upgrade of the columns in `from_connection`, Secret `session_secret`
--   Startup     src/main.rs: `collector_config` and `build_auth`
--   Trend       src/trend.rs: `Stats::from` and the `Bucketer`
--   Docker      src/docker.rs: Members and Order are the members of a compose stack and `topo_order`,
--               Stack the actions on a stack over an interface to the engine and its clock, Counters
--               and Summary what a stats sample and a listing give, Collect one cycle of `collect`
--   Federation  src/federation.rs: `SseParser` and the loop that mirrors a node, as rounds over answers
--   Auth        src/auth.rs: cookies, tokens, credentials, over a MAC that is a parameter
--   Config      src/config.rs: `parse_size`, `validate_hosts`, `load`
--   Collector   src/collector.rs: `run` as a fold over what each tick collects, Persist `persist`
--               as the calls of the store that it makes, which those of other hosts interleave with
--   Web         src/web.rs: the gate of requests, login, actions, history and its queries, log lines,
--               the order of containers in the overview and the table, the streams of snapshots and of
--               events, the links of ports, the sums of a stack, what a node serves to a hub (Api)
--
-- State is passed explicitly; a hash map is an association list in the order of insertion; a shared
-- slot (the last snapshot, the read-only flag) is a field that a step sets. Unsigned 64-bit numbers
-- are natural numbers with the bounds, saturation and wrap-around of the source written out. Six
-- loops run on fuel: `drain` of the event parser has a round for each character of the buffer,
-- `rounds` of the start order one for each member, and `bit_length` one for each of 64 bits. Each is
-- enough: a block takes at least two characters, a round places at least one member, and a number of
-- 64 bits is halved to zero. `wait_until` has 121 rounds, since after 120 sleeps of a second the two
-- minutes of a wait are over. The passes of `start_in_order` have an argument for their number: a pass
-- with a failure takes at least a nanosecond, so more than the nanoseconds of two minutes are enough.
-- The loop over the hours of the migration has a round for each hour between the first bucket and the
-- last one, and one more to see that it is over, unless the last bucket is the largest `i64`.
--
-- What SQLite computes over a column (sums, means, extremes) and the rounding of `f64` are parameters;
-- which rows a statement reads, groups, inserts, merges or deletes is written out.
--
-- Not modelled: rendering and routing, the HTTP clients and servers, TLS, the SQL text and
-- the failures of SQLite, the engine's API, the terminal, and the scripts of the pages.
pub mod Prelude
pub mod Model
pub mod Float
pub mod Notify
pub mod Store
pub mod Docker
pub mod Federation
pub mod Trend
pub mod Auth
pub mod Config
pub mod Collector
pub mod Web
pub mod Startup
