-- ===== src/Relay.antt =====
-- statsgod/relay.go: `MockRelay`, and the loop `RelayMetrics` that aggregates metrics and flushes them.
-- What the clock and the runtime report is given with each round. Log messages have no state.
use statsgod.Config.{ConfigValues}
use statsgod.Prelude.Outcome.{blocked, panics, done}
use statsgod.Metric.Aggregate.{aggregate_metric}
use statsgod.Metric.Process.{process_metric}
use statsgod.Metric.{metric_type_timer, metric_type_gauge, create_simple_metric, Metric}
use statsgod.Pool.{◌>>=◌, return, M, Network}
use statsgod.Relay.Emptied.{visited}
use statsgod.Prelude.Dict.{delete, insert, Dict}
use statsgod.Prelude.Int.{pos, ℤ}
use statsgod.Float.{Float64}
use statsgod.Prelude.{
  false, bytes_eq, ◌/◌, [], true, if◌then◌else◌, ◌∷◌, none, length, ◌++◌, some, codes, Option, List,
  Bytes, ℕ, Bool,
}
use statsgod.Carbon.{carbon_relay, CarbonRelay}
pub mod Lines
pub mod Emptied
pub mod Interval
pub mod Create

-- The implementations of the interface `MetricRelay`: `CarbonRelay`, and `MockRelay` with its flush
-- interval and percentiles.
pub data MetricRelay : Type 0 where
  carbon : CarbonRelay → MetricRelay
  mock : ℕ → List ℤ → MetricRelay

-- What runtime.ReadMemStats reports.
pub record MemStats : Type 0 where
  pub heap_alloc : ℕ
  pub alloc : ℕ
  pub sys : ℕ

-- A tick: the memory, and of the first and the second call of `RelayAllMetrics` the turn at which each key
-- is visited and the Unix time at which its entry is relayed, and the nanoseconds that the first one took.
pub record Tick : Type 0 where
  pub memory : MemStats
  pub first_order : Bytes → ℕ
  pub second_order : Bytes → ℕ
  pub first_times : Bytes → ℤ
  pub second_times : Bytes → ℤ
  pub duration : ℕ

-- A round of the loop: `quit` as it is read, the metric that arrives within a flush interval, and the
-- tick, if there is one.
pub record RelayRound (F : Type 0) : Type 0 where
  pub quit : Bool
  pub received : Option (Metric F)
  pub tick : Option Tick

abbrev pub megabyte : ℕ
megabyte = 1_048_576

abbrev pub millisecond : ℕ
millisecond = 1_000_000

module _ {F : Type 0} ⦃f : Float64 F⦄ where
  mock_relay : ℕ → List ℤ → Metric F → M Bool
  mock_relay flush_interval percentile metric w =
      elim (process_metric flush_interval percentile metric) [
        | done processed ↦ done (true, w)
        | panics message ↦ panics message
        | blocked ↦ blocked
      ]

  unfoldable pub relay : Network → MetricRelay → Metric F → M Bool
  unfolding mock_relay
  relay net (carbon c) = carbon_relay net c
  relay net (mock flush_interval percentile) = mock_relay flush_interval percentile

  -- The loop over the entries, in the order in which they are visited, with the map that is left.
  relay_entries :
      Network → MetricRelay → (Bytes → ℤ) → Dict (Metric F) → Dict (Metric F) → M (Dict (Metric F))
  relay_entries net r now [] metrics = return metrics
  relay_entries net r now ((key, metric) ∷ entries) metrics = do
    _ ← relay net r (record metric { flush_time = now key })
    relay_entries net r now entries (delete key metrics)

  unfoldable pub relay_all_metrics :
      Network → MetricRelay → (Bytes → ℕ) → (Bytes → ℤ) → Dict (Metric F) → M (Dict (Metric F))
  unfolding relay_entries
  relay_all_metrics net r order now metrics =
      relay_entries net r now (visited order metrics) metrics

  -- metrics[metric.Key] = *metric
  set_metric : Metric F → Dict (Metric F) → Dict (Metric F)
  set_metric metric metrics = insert metric.key metric metrics

  abbrev megabytes : ℕ → F
  megabytes n = f.div (f.of_int (pos n)) (f.of_int (pos megabyte))

  unfoldable pub prepare_runtime_metrics :
      ConfigValues → MemStats → Dict (Metric F) → Dict (Metric F)
  unfolding set_metric
  prepare_runtime_metrics config memory metrics =
      let ns : Bytes = codes "statsgod." ++ config.service.hostname ++ codes ".runtime.memory" in
      let heap_alloc_metric =
        create_simple_metric (ns ++ codes ".heapalloc") (megabytes memory.heap_alloc)
          metric_type_gauge in
      let alloc_metric =
        create_simple_metric (ns ++ codes ".alloc") (megabytes memory.alloc) metric_type_gauge in
      let sys_metric =
        create_simple_metric (ns ++ codes ".sys") (megabytes memory.sys) metric_type_gauge in
      if config.debug.relay
      then set_metric sys_metric (set_metric alloc_metric (set_metric heap_alloc_metric metrics))
      else metrics

  unfoldable pub prepare_flush_metrics : ConfigValues → ℕ → ℕ → Dict (Metric F) → Dict (Metric F)
  unfolding set_metric
  prepare_flush_metrics config duration flush_count metrics =
      let ns : Bytes = codes "statsgod." ++ config.service.hostname ++ codes ".flush" in
      let duration_metric =
        create_simple_metric (ns ++ codes ".duration") (f.of_int (pos (duration / millisecond)))
          metric_type_timer in
      let count_metric =
        create_simple_metric (ns ++ codes ".count") (f.of_int (pos flush_count))
          metric_type_gauge in
      if config.debug.relay
      then set_metric count_metric (set_metric duration_metric metrics)
      else metrics

  -- What happens on a tick.
  unfoldable pub flush :
      Network → MetricRelay → ConfigValues → Tick → Dict (Metric F) → M (Dict (Metric F))
  flush net r config tick metrics = do
    let prepared = prepare_runtime_metrics config tick.memory metrics
    left ← relay_all_metrics net r tick.first_order tick.first_times prepared
    relay_all_metrics net r tick.second_order tick.second_times
        (prepare_flush_metrics config tick.duration (length prepared) left)

  abbrev pub receive : Option (Metric F) → Dict (Metric F) → Dict (Metric F)
  receive none metrics = metrics
  receive (some metric) metrics = aggregate_metric metrics metric

  flush_on :
      Network → MetricRelay → ConfigValues → Option Tick → Dict (Metric F) → M (Dict (Metric F))
  flush_on net r config none metrics = return metrics
  flush_on net r config (some tick) metrics = flush net r config tick metrics

  -- The loop, from a map to the map when it ends.
  unfoldable pub relay_metrics :
      Network
      → MetricRelay
      → ConfigValues
      → List (RelayRound F)
      → Dict (Metric F)
      → M (Dict (Metric F))
  unfolding flush_on
  relay_metrics net r config [] metrics = return metrics
  relay_metrics net r config (round ∷ rounds) metrics = elim round.quit [
    | true ↦ return metrics
    | false ↦ do
      left ← flush_on net r config round.tick (receive round.received metrics)
      relay_metrics net r config rounds left
  ]
