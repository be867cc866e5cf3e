-- ===== src/Lib.antt =====
-- streamsight-agent: a Kafka monitoring agent that collects one batch of cluster metrics per interval
-- and exports it. Each cycle the agent's loop asks a collector for a batch, stamps its envelope and
-- hands it to an exporter; the collector runs one phase per section, and each phase records its errors
-- in its section, from which the batch's error, section and truncation blocks are made.
--
-- Which file models which part:
--   Base: Boolean tests, lists, signed integers, Go maps (association lists) and sorting, shared by all.
--   Collector.GoError: the tests that the code makes on error values (errors.As, errors.Is), as an
--     interface, since the error types belong to packages outside the repository.
--   Collector.Limits: internal/collector/limits.go, the limits, deduplication keys and priorities.
--   Collector.Section: internal/collector/errors.go, `section` and its operations; `record` is
--     `record_error`, split as its branches are into known_key, repeat_key, folded and new_key.
--   Collector.Request: internal/collector/errors.go, `classify`, `request`, `requestPartial` and the
--     record helpers.
--   Collector.Merge: internal/collector/limits.go, `mergeErrors`.
--   Collector.Wire: internal/metrics/types.go, the rows that the phases below read and write, and
--     `nullableOffset` of internal/collector/offsets.go.
--   Collector.Epoch: internal/collector/truncation.go, the leader-epoch probes.
--   Collector.Reassign: internal/collector/reassign.go, the question about under-replicated partitions.
--   Collector.Options: the options and the cadence of internal/collector/collector.go, and `selection`
--     of internal/collector/filter.go.
--   Collector.Phases: internal/collector/collector.go, the goroutines of `Collect` and its channels, as a
--     step relation; each goroutine is its list of waits, requests and closes, with the
--     WaitGroup's counter. A topics phase that returns early passes over its waits and requests.
--   Collector.Kadm: the answers of kadm that the phases read, and its functions that they call.
--   Collector.Topics: internal/collector/metadata.go; Topics.Phase has `collectCluster` and
--     `collectTopics`, and Topics itself the functions below them.
--   Collector.Offsets: `collectOffsets` of internal/collector/offsets.go.
--   Collector.Throughput: internal/collector/throughput.go.
--   Collector.LogDirs: internal/collector/logdirs.go.
--   Collector.Configs: internal/collector/configs.go.
--   Collector.Groups: internal/collector/groups.go.
--   Collector.ShareGroups: internal/collector/sharegroups.go.
--   Collector.Filter: the other functions of internal/collector/filter.go, over the regexp package.
--   Collector.Finalize: `finalize` of internal/collector/collector.go.
--   Export.Counters: internal/export/exporter.go, the counters.
--   Export.Http: internal/export/http.go; the worker's steps between those of `Export` are arguments.
--   Export.File: internal/export/file.go, over an explicit file system and a flag for each system call
--     that can fail.
--   Config: internal/config/config.go, Load: Parser has the parser's methods and the checks of one entry, Load
--     the settings of the connection and the export, Settings those of the collector and the whole.
--   Kafka.Capabilities: internal/kafka/capabilities.go, the fold of the brokers' API versions; its child
--     Probe has probeBrokers and the Supports functions, and Wire the forms that are shipped.
--   Kafka.Hooks: internal/kafka/hooks.go, the counters of the agent's own requests and their windows, and
--     the histogram of internal/metrics/types.go.
--   Agent: internal/agent/agent.go, the loop; Agent.Gates: its capability gates and options.
--   Witnesses: concrete inputs.
--
-- Numbers: a count is a natural number where the code's int cannot overflow in memory; the uint64
-- counters, the cycle counter and the nanosecond arithmetic of the exporter wrap at 64 bits. No function
-- here runs on fuel: the loops are over lists or over the number of attempts, and the levels of the
-- merge are the six priorities.
--
-- A section that the code shares by pointer is passed through: an operation takes it and returns it. A
-- call of the client is a function from what is asked to the answer, and where a phase asks only under a
-- condition, its result holds what it asked about, if it asked; that of the topics phase holds each call, as the client received it.
--
-- Not modelled: encoding and compression, the HTTP and Kafka clients, logging, the printing of the configuration,
-- the names that the RPC hooks give to API keys, and the mock ingest server.
pub mod Base
pub mod Collector
pub mod Config
pub mod Export
pub mod Agent
pub mod Kafka
pub mod Witnesses
