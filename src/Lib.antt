-- ===== src/Lib.antt =====
-- A model of archive-relay, a selective Nostr relay written in Go over ClickHouse and SQLite.
--
-- Parts and how they interact. Events arrive from clients (internal/relay, with the gates of
-- internal/policy) and from upstream relays (internal/crawler). Both hand them to the store
-- (internal/store), which picks a tier by kind and queues them in that tier's batcher; a worker
-- sends the batches to ClickHouse and then tells the dedup cache, which queues the ids for the
-- control database (internal/control, SQLite). Replaced and deleted ids go to the tombstone writer.
-- Future-dated events wait in the control database until internal/scheduler publishes them.
-- Beside the relay, internal/api serves REST over the store and over the snapshot tables that
-- internal/stats refreshes, behind the same access list and limiter.
--
-- Files and sources:
--   Nostr        go-nostr's Event and Filter, as far as the program reads them
--   Classifier   internal/store/classifier.go: classify, TierForKind, classifyWithOverride
--   Control      internal/control/control.go: a record of the four tables, one function per method;
--                the Bool arguments are whether the SQLite statements succeed; Control/Opening has
--                Open and migrateCrawlState
--   Dedup        internal/crawler/dedup.go: the two generations, parseEventID, Warm, OnFlushed and
--                the durable queue with its writer
--   Ingest       internal/crawler/ingest.go: ingestStep over a store that is a parameter
--   Batcher      internal/store/batcher.go: the worker, enqueue and FlushAll; `step` is one action of a
--                producer or one case of the worker's select, and `run` any interleaving
--   Rows         internal/store/batcher.go: rowFromEvent, its values by position, and replyTarget, with
--                scanEvent and the texts of the columns of internal/store
--   Tombstones   internal/store/tombstone.go: retire and the writer, in the same way
--   FilterSql    internal/store/filter_sql.go: buildFilterSQL, its conditions as data with their text and
--                arguments; FilterSql/Means has the meaning of the text
--   Reads        internal/store/store.go: tiersForFilter, collectEvents, CountEvents, splitFeedKinds and
--                collectFeed, with feedEligible of internal/store/feed.go
--   Store        internal/store/store.go: SaveEvent, ReplaceEvent, DeleteEvent and FlushAll over the
--                record `Backend` of what batchers, tombstone writer and ClickHouse do; Store/Lifecycle has
--                Init, with ensureDatabase and backfillFeed, and Close
--   Feed         internal/store/feed.go: offer and the goroutine of the feed writer
--   Admission    internal/store/store.go: acquireRead, with any interleaving of the reads
--   Relay        internal/relay/relay.go: the hooks in their order, the default window of a filter, the
--                writes of a client and their way to the scheduler
--   Crawler      internal/crawler/crawler.go: the reconnections of runSource
--   Priority     internal/crawler/priority.go: decideSince, tick and fetchRelay
--   Policy       internal/policy: reject.go, auth.go (Access) and ratelimit.go (Limiter)
--   HttpAuth     internal/policy: HTTPAuth of auth.go, HTTPWhen and ClientIP of ratelimit.go
--   System       internal/store/store.go: the tiers' batchers and the tombstone writer as the store
--                calls them, with what the other goroutines do while FlushAll waits
--   Api          internal/api/api.go: the routes, the reading of a query and the handlers over what the
--                store and the statistics answer
--   Rolling      internal/stats/stats.go: a table of counts that is refreshed for a window of days
--   Durable      cmd/archive-relay/main.go: the flushed ids on their way from the batchers' callback into
--                seen_events, up to the return of StopWriter, and the prunes of StartPrune
--   Lookup       internal/store/store.go: QueryEvents, with its flush for khatru's own calls
--   Fetch        internal/crawler/priority.go: fetchOn, one subscription with the ingestion of what it brings
--   Stats        internal/stats/stats.go: the refreshes of followers and daily rollups, and the answers
--   Config       internal/config/config.go: the settings, their defaults and Load
--   Schema       internal/store/schema.go: the texts of the statements, execParts and initSchema
--   Startup      cmd/archive-relay/main.go: what main starts with, and the splitting of the sources
--   Texts        strings.Split and strings.TrimSpace, as the program combines them
--   Scheduler    internal/scheduler/scheduler.go: Defer, publishDue and Run as a list of ticks
--   Prelude      shared notation, lists, maps as lists of keys, texts as bytes, sorting
--   Samples      the events that the tests share
-- A module's definitions stand in its own file, what is proved of them in its children, and its
-- examples in its Tests.
--
-- State is a record that each operation takes and returns, with the source's fields under their
-- names. Some records carry bookkeeping that the program does not keep, such as the events that a
-- batcher has accepted; nothing reads it but the theorems. A call of ClickHouse or SQLite is atomic
-- and comes with the outcome that is given to it.
-- A program's goroutines are interleaved at the granularity of a channel operation or of a section
-- under a lock.
--
-- Numbers. Kinds, timestamps, sizes and counts are natural numbers; uint32 columns and the
-- uint64 counters of the dedup cache keep their wrap-around; other counters do not reach it. Times are
-- given with the operation that reads the clock.
--
-- Fuel. The prune by rowid runs on as many rounds as there are rows and the final flush on as many as
-- there are events left and one more: each round takes at least one, if the batch size is above 0.
-- The tombstone writer's flush has the length of its buffer and one more, a round taking up to 1000
-- requests. The drains at a stop have the length of the channel. The decimal spelling of a number has
-- the number and one more.
--
-- Queries. What the rows of a statement of the statistics are is a function of the rows of events_all;
-- a statement that fails changes nothing. Days are those of UTC.
--
-- Interfaces. `Backend` (Store) lists what the store calls, with the laws that its theorems rest on;
-- a store in memory (Store/Memory) and the batchers with the tombstone writer (`wired` of System)
-- fill it. `Dispatch` (Relay) is khatru's way of asking the hooks of a list. `Web` (HttpAuth) lists
-- what the authorization asks of Go's base64, JSON and URLs and of go-nostr's check of a signature.
-- `ClickHouse` (Schema) is the server as initSchema meets it: its answers to a statement and to the
-- queries of the migration. os.ReadFile and the YAML package are arguments of Config's load. What
-- ClickHouse answers to a query of a tier or of the feed is an argument of the reads, and so is what
-- an upstream relay does.
--
-- Not modelled. Logging, contexts and deadlines, timers but for the delay they are armed with, and
-- the HTTP server. The callback onFlushed of a batcher is taken to be set. Lists stand for Go's maps
-- where the program runs through one, so the allow-list and the tiers of FlushAll come in the order
-- of a list. The health document and the encoding to JSON, the monthly engagement and the estimate
-- of active authors, the options of a connection, the loops that only wait for a ticker, pprof and
-- the relay's description have no model. initSchema's deadline of ten seconds is left out. TrimSpace
-- knows the white space of ASCII, and the settings are natural numbers. What fetchOn (Fetch) answers
-- is given to a tick of Priority. go-nostr's checks of an id and of a signature, its JSON and
-- khatru's connection state are parameters.
pub mod Prelude
pub mod Nostr
pub mod Samples
pub mod Admission
pub mod Api
pub mod Batcher
pub mod Classifier
pub mod Config
pub mod Control
pub mod Crawler
pub mod Dedup
pub mod Durable
pub mod Feed
pub mod Fetch
pub mod FilterSql
pub mod HttpAuth
pub mod Ingest
pub mod Lookup
pub mod Policy
pub mod Priority
pub mod Reads
pub mod Relay
pub mod Rolling
pub mod Rows
pub mod Scheduler
pub mod Schema
pub mod Startup
pub mod Stats
pub mod Store
pub mod System
pub mod Texts
pub mod Tombstones
