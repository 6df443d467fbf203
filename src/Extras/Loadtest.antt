-- ===== src/Extras/Loadtest.antt =====
-- extras/loadtest.go: the load test. The command-line flags are a record; the random choices, and how
-- the dials and writes end, are parameters. Durations are numbers of nanoseconds.
use statsgod.Carbon.{write_conn}
use statsgod.Decimal.{decimal}
use statsgod.Prelude.Outcome.{blocked, panics, done, Outcome}
use statsgod.Prelude.Int.{ℤ}
use statsgod.Pool.{return, release_connection, get_connection, ◌>>=◌, M, Conn, Network, World}
use statsgod.Prelude.{
  false, true, some, none, codes, ◌==◌, Option, [], bytes_eq, ◌∷◌, ◌++◌, if◌then◌else◌, Bool, ◌+◌,
  List, Bytes, ℕ,
}
pub mod Run
pub mod Totals
pub mod Accepted
pub mod Generated
pub mod Results

-- The flags, but those of the two addresses.
pub record Flags : Type 0 where
  pub stats_pool_count : ℕ
  pub num_metrics : ℕ
  pub concurrency : ℕ
  pub run_time : ℕ
  pub conn_type : ℤ
  pub log_sent : Bool
  pub token : Bytes

pub record TestMetric : Type 0 where
  pub key : Bytes
  pub metric_type : Bytes
  pub metric_value : ℤ
  pub connection_type : ℕ

abbrev pub connection_type_tcp : ℕ
connection_type_tcp = 1

abbrev pub connection_type_tcp_pool : ℕ
connection_type_tcp_pool = 2

abbrev pub connection_type_udp : ℕ
connection_type_udp = 3

abbrev pub connection_type_unix : ℕ
connection_type_unix = 4

abbrev pub connection_type_unix_pool : ℕ
connection_type_unix_pool = 5

-- The variables that track connections and errors.
pub record Counts : Type 0 where
  pub connection_count_tcp_pool : ℕ
  pub connection_count_tcp : ℕ
  pub connection_count_udp : ℕ
  pub connection_count_unix_pool : ℕ
  pub connection_count_unix : ℕ
  pub connection_error_tcp_pool : ℕ
  pub connection_error_tcp : ℕ
  pub connection_error_udp : ℕ
  pub connection_error_unix_pool : ℕ
  pub connection_error_unix : ℕ

abbrev pub no_counts : Counts
no_counts = record {
  connection_count_tcp_pool = 0;
  connection_count_tcp = 0;
  connection_count_udp = 0;
  connection_count_unix_pool = 0;
  connection_count_unix = 0;
  connection_error_tcp_pool = 0;
  connection_error_tcp = 0;
  connection_error_udp = 0;
  connection_error_unix_pool = 0;
  connection_error_unix = 0;
}

abbrev pub total_count : Counts → ℕ
total_count c =
    c.connection_count_tcp_pool + c.connection_count_tcp + c.connection_count_udp
    + c.connection_count_unix_pool + c.connection_count_unix

abbrev pub total_error : Counts → ℕ
total_error c =
    c.connection_error_tcp_pool + c.connection_error_tcp + c.connection_error_udp
    + c.connection_error_unix_pool + c.connection_error_unix

abbrev tcp_counted : Counts → Counts
tcp_counted c = record c { connection_count_tcp = c.connection_count_tcp + 1 }

abbrev tcp_failed : Counts → Counts
tcp_failed c = record c { connection_error_tcp = c.connection_error_tcp + 1 }

abbrev udp_counted : Counts → Counts
udp_counted c = record c { connection_count_udp = c.connection_count_udp + 1 }

abbrev udp_failed : Counts → Counts
udp_failed c = record c { connection_error_udp = c.connection_error_udp + 1 }

abbrev unix_counted : Counts → Counts
unix_counted c = record c { connection_count_unix = c.connection_count_unix + 1 }

abbrev unix_failed : Counts → Counts
unix_failed c = record c { connection_error_unix = c.connection_error_unix + 1 }

-- The counts, the two pools, each with the dials and writes on it, the dials outside of the pools,
-- what was written on those, and what was printed.
pub record LoadState : Type 0 where
  pub counts : Counts
  pub tcp_pool : World
  pub unix_pool : World
  pub dials : ℕ
  pub written : List Bytes
  pub printed : List Bytes

-- How the dials and writes end: on the pools, and outside of them.
pub record LoadNetwork : Type 0 where
  pub tcp : Network
  pub unix : Network
  pub direct : ℕ → Bool

-- `rand.Intn(n)` is `intn n`.
unfoldable pub value_of : (ℕ → ℕ) → Bytes → ℕ
value_of intn metric_type =
    if bytes_eq metric_type (codes "c")
    then 1
    else if bytes_eq metric_type (codes "g")
    then intn 100
    else if bytes_eq metric_type (codes "ms")
    then intn 1000
    else if bytes_eq metric_type (codes "s")
    then intn 100
    else 0

-- "key:value|type"
unfoldable pub string_value : TestMetric → ℕ → Bytes
string_value metric value = metric.key ++ b':' ∷ (decimal value ++ b'|' ∷ metric.metric_type)

abbrev newline : Bytes
newline = b'\n' ∷ []

module _ (flags : Flags) (net : LoadNetwork) where
  log_sent_metric : Bytes → LoadState → LoadState
  log_sent_metric metric s =
      if flags.log_sent then record s { printed = s.printed ++ metric ∷ [] } else s

  -- net.Dial and c.Write for a connection outside of the pools: what follows a dial, and the counts.
  -- An error of the write is not looked at.
  send_directly : (Counts → Counts) → (Counts → Counts) → Bytes → Bytes → LoadState → LoadState
  unfolding log_sent_metric
  send_directly counted failed line metric s =
      let dialed = record s { counts = counted s.counts; dials = s.dials + 1 } in
      if net.direct s.dials
      then log_sent_metric metric (record dialed { written = s.written ++ line ∷ [] })
      else record dialed { counts = failed (counted s.counts) }

  -- What is done with a connection of a pool: whether the write succeeded.
  write_pooled : Network → Bytes → Conn → M Bool
  write_pooled pool_net line conn = do
    err ← write_conn pool_net conn line
    elim err [
      | some e ↦ do _ ← release_connection pool_net conn true; return false
      | none ↦ do _ ← release_connection pool_net conn false; return true
    ]

  -- `none` if no connection was got.
  send_pooled : Network → Bytes → M (Option Bool)
  unfolding write_pooled
  send_pooled pool_net line = do
    (conn, err) ← get_connection pool_net
    elim err [
      | some e ↦ return none
      | none ↦ do written ← write_pooled pool_net line conn; return (some written)
    ]

  -- What follows a send on the TCP pool, where a connection that was not got is counted with another type.
  tcp_pooled : Bytes → LoadState → Option Bool → World → LoadState
  unfolding log_sent_metric
  tcp_pooled metric s result w =
      let c = record s.counts {
        connection_count_tcp_pool = s.counts.connection_count_tcp_pool + 1;
      } in
      let sent = record s { counts = c; tcp_pool = w } in
      elim result [
        | none ↦ record sent {
          counts = record c { connection_error_tcp = c.connection_error_tcp + 1 };
        }
        | some written ↦ log_sent_metric metric (
            if written then sent else record sent {
              counts = record c { connection_error_tcp_pool = c.connection_error_tcp_pool + 1 };
            })
      ]

  -- What follows a send on the Unix pool.
  unix_pooled : Bytes → LoadState → Option Bool → World → LoadState
  unfolding log_sent_metric
  unix_pooled metric s result w =
      let c = record s.counts {
        connection_count_unix_pool = s.counts.connection_count_unix_pool + 1;
      } in
      let sent = record s { counts = c; unix_pool = w } in
      elim result [
        | none ↦ record sent {
          counts = record c { connection_error_unix_pool = c.connection_error_unix_pool + 1 };
        }
        | some written ↦ log_sent_metric metric (
            if written then sent else record sent {
              counts = record c { connection_error_unix_pool = c.connection_error_unix_pool + 1 };
            })
      ]

  send_on_pool : Network → Bytes → World → (Option Bool → World → LoadState) → Outcome LoadState
  unfolding send_pooled
  send_on_pool pool_net line pool after = elim (send_pooled pool_net line pool) [
    | done (result, w) ↦ done (after result w)
    | panics message ↦ panics message
    | blocked ↦ blocked
  ]

  unfoldable pub send_metric_to_stats : (ℕ → ℕ) → TestMetric → LoadState → Outcome LoadState
  unfolding send_directly send_on_pool tcp_pooled unix_pooled
  send_metric_to_stats intn metric s =
      let line : Bytes = string_value metric (value_of intn metric.metric_type) in
      if metric.connection_type == connection_type_tcp
      then done (send_directly tcp_counted tcp_failed (line ++ newline) line s)
      else if metric.connection_type == connection_type_tcp_pool
      then send_on_pool net.tcp (line ++ newline) s.tcp_pool (tcp_pooled line s)
      else if metric.connection_type == connection_type_udp
      then done (send_directly udp_counted udp_failed line line s)
      else if metric.connection_type == connection_type_unix
      then done (send_directly unix_counted unix_failed line line s)
      else if metric.connection_type == connection_type_unix_pool
      then send_on_pool net.unix (line ++ newline) s.unix_pool (unix_pooled line s)
      else done s

  -- `flushMetrics`: the metrics in the order in which they are read from the flush channel, each with
  -- its random numbers.
  unfoldable pub flush_metrics : List ((ℕ → ℕ) × TestMetric) → LoadState → Outcome LoadState
  flush_metrics [] s = done s
  flush_metrics ((intn, metric) ∷ metrics) s = elim (send_metric_to_stats intn metric s) [
    | done next ↦ flush_metrics metrics next
    | panics message ↦ panics message
    | blocked ↦ blocked
  ]

-- What the loop of `sendTestMetrics` receives.
pub data SendEvent : Type 0 where
  flush_ticked finished : SendEvent

-- `sendTestMetrics`: what it writes to the flush channel.
unfoldable pub send_test_metrics : List TestMetric → List SendEvent → List TestMetric
send_test_metrics store [] = []
send_test_metrics store (flush_ticked ∷ events) = store ++ send_test_metrics store events
send_test_metrics store (finished ∷ events) = []
