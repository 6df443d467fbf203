-- ===== src/Metric/Aggregate.antt =====
-- statsgod/metric.go: `AggregateMetric`. The map is a dictionary that the caller keeps.
pub mod Keys
pub mod Totals
use statsgod.Prelude.Dict.{insert, lookup, Dict}
use statsgod.Metric.{
  metric_type_timer, metric_type_set, metric_type_gauge, metric_type_counter, Metric,
}
use statsgod.Float.{Float64}
use statsgod.Prelude.{
  none, [], [], [], [], [], [], [], [], [], [], [], [], [], [], [], [], [], [], some, ◌∷◌, ◌==◌,
  List, ◌++◌, if◌then◌else◌, ℕ,
}

module _ {F : Type 0} ⦃f : Float64 F⦄ where
  -- The `switch` on the type of the new metric.
  aggregate_value : Metric F → Metric F → F
  aggregate_value existing metric =
      if metric.metric_type == metric_type_counter
      then f.add existing.last_value (f.mul metric.last_value metric.total_hits)
      else if metric.metric_type == metric_type_gauge
      then metric.last_value
      else if metric.metric_type == metric_type_set
      then metric.last_value
      else if metric.metric_type == metric_type_timer
      then metric.last_value
      else existing.last_value

  unfoldable pub combine : Metric F → Metric F → Metric F
  unfolding aggregate_value
  combine existing metric = record existing {
    total_hits = f.add existing.total_hits metric.total_hits;
    all_values = existing.all_values ++ metric.last_value ∷ [];
    last_value = aggregate_value existing metric;
  }

  unfoldable pub aggregate_metric : Dict (Metric F) → Metric F → Dict (Metric F)
  aggregate_metric metrics metric = elim (lookup metric.key metrics) [
    | some existing ↦ insert metric.key (combine existing metric) metrics
    | none ↦ insert metric.key metric metrics
  ]

  -- One call after the other.
  unfoldable pub aggregate_all : Dict (Metric F) → List (Metric F) → Dict (Metric F)
  aggregate_all metrics [] = metrics
  aggregate_all metrics (m ∷ ms) = aggregate_all (aggregate_metric metrics m) ms
