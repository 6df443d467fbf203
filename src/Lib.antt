-- ===== src/Lib.antt =====
-- statsgod: a statsd service that aggregates metrics and relays them to carbon.
--
-- A client sends lines `name:value|type|@rate`, which statsgod/socket.go cuts out of what it reads.
-- A message of the parse channel is authenticated and parsed (statsgod/auth.go,
-- statsgod/metric.go), the metric is aggregated by its key in a map, and at each flush the entries
-- are processed into rates, means and quantiles and written to a carbon server over a pool of
-- connections (statsgod/relay.go, statsgod/connectionpool.go). statsgod.go starts all this,
-- statsgod/signals.go reloads the configuration or ends it, and the tools of extras/ send metrics
-- to it.
--
--   Prelude     tests, lists, integers, dictionaries, and what a call does: return, panic or wait
--   Float       float64, a parameter with the laws of its comparisons; Float/Fixed, a concrete one
--   Decimal     strconv.Itoa
--   Utf8        the runes of a string and back
--   Metric      statsgod/metric.go: the types; Metric/Parse is ParseMetricString, Metric/Aggregate is
--               AggregateMetric, Metric/Process is ProcessMetric
--   Statistics  statsgod/statistics.go: the methods of ValueSlice
--   Auth        statsgod/auth.go
--   Config      statsgod/config.go
--   Logger      statsgod/logger.go
--   Socket      statsgod/socket.go: readInput and readInputUdp; Socket/Kinds is CreateSocket, Socket/Tcp,
--               Socket/Udp and Socket/Unix are the three sockets, and Socket/Listener is the calls of
--               their interface and BlockForSocket
--   Ingest      statsgod/metric.go: the loop ParseMetrics
--   Pool        statsgod/connectionpool.go and statsgod/nilconn.go
--   Carbon      statsgod/relay.go: CarbonRelay and sendCarbonMetric; Carbon/Namespace is
--               SetPrefixesAndSuffixes
--   Channels    statsgod.go, statsgod/socket.go, statsgod/metric.go and statsgod/relay.go: the goroutines
--               on the parse channel and the relay channel
--   Shared      statsgod/relay.go and statsgod/connectionpool.go: several goroutines on one pool
--   Relay       statsgod/relay.go: MockRelay and the loop RelayMetrics; Relay/Create is CreateRelay
--   Service     statsgod.go and statsgod/signals.go: main and ListenForSignals; Service/Shutdown is the
--               end of main, Service/Pipeline its goroutines on one interval, one after the other,
--               and Service/Relaying its relay goroutines on their pool
--   Extras      extras/: Extras/Loadtest is loadtest.go, Extras/Generator is generator.go,
--               Extras/LogCompare is log_compare.go and Extras/Receiver is receiver.go
--   Tests       the theorems at concrete inputs, and runs
--
-- Definitions carry the names of the source in lower case with underscores (ParseMetricString is
-- parse_metric_string). A string is a list of bytes, a Go `int` that counts is a natural number,
-- and a percentile or an index that may be negative is an integer; neither wraps round at the sizes
-- here. An index out of range and a panic are outcomes, and so is waiting for ever on a channel. A
-- map is an association list. The arithmetic of float64 is not specified: no theorem depends on
-- rounding.
--
-- The channel of the pool is a list; how dials and writes end is a parameter, by the number of the
-- call, and the lines written are recorded. In Pool, Carbon and Relay one goroutine uses the pool,
-- as with a Relay.Concurrency of 1. Shared cuts a try to send where it reads or changes the pool,
-- and lets any goroutine run at each step; the count of a failed dial is a read and a write there,
-- so that it can be overwritten. Deadlines of connections, log messages and the clock have no
-- state.
--
-- The channels of main are bounded: MaxReqs is their capacity, and a goroutine waits to send on a
-- full one. Channels lets the connections, the parse loop and the relay goroutines make their steps
-- in any order, each step a send or a receive with what is done to the value, or a flush of a map;
-- sockets and the quit signal stand still there. In Socket, Ingest, Relay and Service/Pipeline a
-- channel is the sequence of what is sent on it.
--
-- Recursion is structural but for two loops on fuel. The digits of a number have 19 steps, enough
-- for an int of 64 bits, and BlockForSocket has one round for each microsecond of its timeout,
-- since each round sleeps for one.
--
-- The file system, the YAML reader, the host name, what a listener accepts and a connection reads,
-- the random choices of the tools, what a regular expression finds in a line, the order in which a
-- map is visited (for RelayAllMetrics it is given with each tick, as the turn of each key), the
-- clock and the memory statistics are parameters. A Unix file mask, a profile and what is logged
-- are not recorded.
--
-- In Extras/Loadtest one goroutine of flushMetrics runs alone.
--
-- Not modelled: the packaging, main of the load test, whose goroutines share its counters, and the
-- parsing of the flags of the command line.
pub mod Prelude
pub mod Float
pub mod Decimal
pub mod Utf8
pub mod Metric
pub mod Statistics
pub mod Auth
pub mod Socket
pub mod Ingest
pub mod Pool
pub mod Config
pub mod Carbon
pub mod Shared
pub mod Channels
pub mod Relay
pub mod Extras
pub mod Logger
pub mod Service
pub mod Tests
