-- ===== src/Metric/Process/Others.antt =====
-- What `ProcessMetric` makes of metrics that are not timers.
use statsgod.Statistics.Order.{sort-perm}
use statsgod.Statistics.Bounds.{median-returns}
use statsgod.Statistics.{unique_count, mean, sort}
use statsgod.Prelude.Int.{pos, ℤ}
use statsgod.Prelude.{refl, arith, false, inr, inl, ◌==◌, Bool-cases, ◌≢◌, List, ℕ, ◌≡◌}
use statsgod.Metric.Process.{rate_per, process_set, process_gauge, process_metric}
use statsgod.Metric.{
  metric_type_set, metric_type_gauge, metric_type_counter, metric_type_timer, Metric,
}
use statsgod.Float.{Float64}
use mathlib.Core.List.{Perm}
use mathlib.Core.List.Perm
use statsgod.Prelude.Outcome.{◌>>=◌, done}

module _ {F : Type 0} ⦃f : Float64 F⦄ where
  -- The metric after processing has the same key, type and hits, and the same values in some order.
  pub record IsKept (m p : Metric F) : Type 0 where
    pub same_key : p.key ≡ m.key
    pub same_type : p.metric_type ≡ m.metric_type
    pub same_hits : p.total_hits ≡ m.total_hits
    pub values : Perm p.all_values m.all_values

  IsKept-changed :
      (m : Metric F) (values : List F) (rate middle average last : F)
      → Perm values m.all_values
      → IsKept m (record m {
        all_values = values;
        values_per_second = rate;
        median_value = middle;
        mean_value = average;
        last_value = last;
      })
  IsKept-changed m values rate middle average last p = record {
    same_key = refl;
    same_type = refl;
    same_hits = refl;
    values = p;
  }

  -- A metric that is not a timer is always processed, whatever its values, the percentiles and the
  -- flush interval, and keeps its key, type, hits and, but for their order, values.
  pub process_metric-IsKept :
      (flush_duration : ℕ) (qs : List ℤ) (m : Metric F)
      → m.metric_type ≢ metric_type_timer
      → (p : Metric F) × (process_metric flush_duration qs m ≡ done p) × IsKept m p
  unfolding process_metric process_gauge process_set
  process_metric-IsKept flush_duration qs m ne =
      let values : List F = sort m.all_values in
      let (middle, e) = median-returns values in
      let p : Perm values m.all_values = sort-perm m.all_values in
      let not_timer : (m.metric_type == metric_type_timer) ≡ false = ground arith in
      elim (Bool-cases (m.metric_type == metric_type_counter)) [
        | inl counter ↦ (
          record m {
            all_values = values;
            values_per_second = rate_per m.last_value flush_duration;
          },
          rw counter refl,
          IsKept-changed m values _ _ _ _ p,
        )
        | inr not_counter ↦ elim (Bool-cases (m.metric_type == metric_type_gauge)) [
          | inl gauge ↦ (
            record m { all_values = values; median_value = middle; mean_value = mean values },
            rw (not_counter, gauge, e, ◌>>=◌) refl,
            IsKept-changed m values _ _ _ _ p,
          )
          | inr not_gauge ↦ elim (Bool-cases (m.metric_type == metric_type_set)) [
            | inl set_type ↦ (
              record m {
                all_values = sort values;
                last_value = f.of_int (pos (unique_count values));
              },
              rw (not_counter, not_gauge, set_type) refl,
              IsKept-changed m (sort values) _ _ _ _ (Perm.trans (sort-perm values) p),
            )
            | inr not_set ↦ (
              record m { all_values = values },
              rw (not_counter, not_gauge, not_set, not_timer) refl,
              IsKept-changed m values _ _ _ _ p,
            )
          ]
        ]
      ]
