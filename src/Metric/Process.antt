-- ===== src/Metric/Process.antt =====
-- statsgod/metric.go: `ProcessMetric`. Durations are numbers of nanoseconds.
pub mod Timer
pub mod Others
use statsgod.Statistics.{sum, mean, minmax, median, quantile, sort, unique_count}
use statsgod.Prelude.Outcome.{done, ◌>>=◌, Outcome}
use statsgod.Metric.{
  metric_type_timer, metric_type_set, metric_type_gauge, metric_type_counter, MetricQuantile,
  Metric,
}
use statsgod.Prelude.Int.{ℤ, pos}
use statsgod.Float.{Float64}
use statsgod.Prelude.{◌==◌, [], if◌then◌else◌, ◌/◌, ◌∷◌, List, ℕ}

abbrev pub second : ℕ
second = 1_000_000_000

module _ {F : Type 0} ⦃f : Float64 F⦄ where
  -- The values up to the first one above the boundary.
  unfoldable pub within_boundary : F → List F → List F
  within_boundary boundary [] = []
  within_boundary boundary (value ∷ values) =
      if f.lt boundary value then [] else value ∷ within_boundary boundary values

  -- One round of the loop over the quantiles.
  unfoldable pub process_quantile : List F → ℤ → Outcome (MetricQuantile F)
  process_quantile values q = do
    boundary ← quantile values (f.div (f.of_int q) (f.of_int (pos 100)))
    let all_values = within_boundary boundary values
    m ← minmax all_values
    middle ← median all_values
    done (record {
      quantile = q;
      boundary = boundary;
      all_values = all_values;
      mean = mean all_values;
      median = middle;
      max = m.max;
      sum = sum all_values;
    })

  unfoldable pub process_quantiles : List F → List ℤ → Outcome (List (MetricQuantile F))
  process_quantiles values [] = done []
  process_quantiles values (q ∷ quantiles) = do
    first ← process_quantile values q
    rest ← process_quantiles values quantiles
    done (first ∷ rest)

  rate_per : F → ℕ → F
  rate_per x flush_duration = f.div x (f.of_int (pos (flush_duration / second)))

  process_gauge : Metric F → Outcome (Metric F)
  process_gauge metric = do
    middle ← median metric.all_values
    done (record metric { median_value = middle; mean_value = mean metric.all_values })

  process_set : Metric F → Metric F
  process_set metric = record metric {
    last_value = f.of_int (pos (unique_count metric.all_values));
    all_values = sort metric.all_values;
  }

  process_timer : ℕ → List ℤ → Metric F → Outcome (Metric F)
  process_timer flush_duration quantiles metric = do
    m ← minmax metric.all_values
    middle ← median metric.all_values
    found ← process_quantiles metric.all_values quantiles
    done (record metric {
      min_value = m.min;
      max_value = m.max;
      median_value = middle;
      mean_value = mean metric.all_values;
      values_per_second = rate_per metric.total_hits flush_duration;
      quantiles = found;
    })

  unfoldable pub process_metric : ℕ → List ℤ → Metric F → Outcome (Metric F)
  unfolding rate_per process_gauge process_set process_timer
  process_metric flush_duration quantiles given =
      let metric : Metric F = record given { all_values = sort given.all_values } in
      if metric.metric_type == metric_type_counter
      then done (record metric { values_per_second = rate_per metric.last_value flush_duration })
      else if metric.metric_type == metric_type_gauge
      then process_gauge metric
      else if metric.metric_type == metric_type_set
      then done (process_set metric)
      else if metric.metric_type == metric_type_timer
      then process_timer flush_duration quantiles metric
      else done metric
