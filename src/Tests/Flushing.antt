-- ===== src/Tests/Flushing.antt =====
-- Aggregation, statistics and the processing of timers.
use statsgod.Metric.Process.Others.{process_metric-IsKept, IsKept}
use mathlib.Core.List.{foldl}
use statsgod.Metric.Process.Timer.{process_metric-IsTimer, IsTimer}
use statsgod.Statistics.Extremes.{minmax-Covers, Covers}
use statsgod.Metric.Aggregate.Keys.{lookup-aggregate_all, of_key, received}
use statsgod.Prelude.Outcome.{done}
use statsgod.Metric.Process.{within_boundary, second, process_metric}
use statsgod.Statistics.Unique.{unique_count-Represents, Represents}
use statsgod.Prelude.Int.{pos}
use statsgod.Metric.Aggregate.Totals.{
  aggregate_all-counter, inflated, aggregate_all-Accumulates, aggregate_all-last, Accumulates,
  last_or,
}
use statsgod.Float.Fixed.{fixed-IsIeee, fixed, Fixed}
use statsgod.Statistics.Bounds.{quantile-index, IsOutside, IsRead}
use statsgod.Statistics.{quantile, minmax, sort, unique_count, MinMax}
use statsgod.Statistics.Order.{sort-IsAscending, IsAscending}
use statsgod.Metric.Aggregate.{aggregate_metric, aggregate_all, combine}
use statsgod.Prelude.Dict.{insert, lookup}
use statsgod.Metric.{metric_type_timer, new_metric, create_simple_metric, Metric}
use statsgod.Prelude.{
  refl, arith, bytes_eq, ◌⊎◌, length, [], ◌*◌, ◌∷◌, some, codes, ◌≡◌, List, String, ℕ,
}

abbrev pub thousand : ℕ → Fixed
thousand n = some (pos (n * 1000))

abbrev pub sent : String → ℕ → ℕ → Metric Fixed
sent key value type = create_simple_metric (codes key) (thousand value) type

abbrev quarter : Metric Fixed
quarter = record (sent "a" 3 0) { total_hits = thousand 4; sample_rate = some (pos 250) }

abbrev hits_of_a : List (Metric Fixed)
hits_of_a = sent "a" 1 0 ∷ sent "b" 9 1 ∷ quarter ∷ sent "b" 7 1 ∷ []

lookup-aggregate_all_example :
    lookup (codes "a") (aggregate_all [] hits_of_a)
    ≡ received (lookup (codes "a") []) (of_key (codes "a") hits_of_a)
lookup-aggregate_all_example = lookup-aggregate_all (codes "a") [] hits_of_a

aggregate_all-Accumulates_example :
    (after : Metric Fixed) × (lookup (codes "a") (aggregate_all [] hits_of_a) ≡ some after)
    × Accumulates (sent "a" 1 0) (quarter ∷ []) after
aggregate_all-Accumulates_example =
    aggregate_all-Accumulates (codes "a") (sent "a" 1 0) hits_of_a (quarter ∷ [])
      (unfold bytes_eq create_simple_metric in refl)

abbrev total_of_a : Metric Fixed
total_of_a = combine (sent "a" 1 0) quarter

aggregate_all-counter_example :
    total_of_a.last_value ≡ foldl fixed.add (thousand 1) (inflated (quarter ∷ []))
unfolding create_simple_metric
aggregate_all-counter_example =
    aggregate_all-counter (codes "a") (sent "a" 1 0) total_of_a hits_of_a (quarter ∷ [])
      (unfold bytes_eq create_simple_metric in refl) (unfold create_simple_metric in (refl, tt))
      (unfold lookup aggregate_all aggregate_metric insert bytes_eq create_simple_metric in refl)

last_value_kept : (sent "b" 7 1).last_value ≡ last_or (thousand 9) (thousand 7 ∷ [])
unfolding create_simple_metric combine
last_value_kept =
    aggregate_all-last (codes "b") (sent "b" 9 1) (combine (sent "b" 9 1) (sent "b" 7 1)) hits_of_a
      (sent "b" 7 1 ∷ []) (unfold bytes_eq create_simple_metric in refl)
      (unfold create_simple_metric in ((ground arith, ground arith), tt))
      (unfold lookup aggregate_all aggregate_metric insert bytes_eq create_simple_metric in refl)

-- The first of the two sampled hits counts 3 and not 12.
first_is_not_inflated : (combine quarter quarter).last_value ≡ thousand 15
unfolding combine create_simple_metric fixed
first_is_not_inflated = refl

abbrev values : List Fixed
values = thousand 4 ∷ thousand 1 ∷ thousand 3 ∷ thousand 1 ∷ []

sorted_values : IsAscending (sort values)
sorted_values =
    sort-IsAscending fixed-IsIeee values (unfold fixed in (refl, (refl, (refl, (refl, tt)))))

minmax-Covers_example : (m : MinMax Fixed) × (minmax values ≡ done m) × Covers m values
minmax-Covers_example =
    minmax-Covers fixed-IsIeee (thousand 4) (thousand 1 ∷ thousand 3 ∷ thousand 1 ∷ [])

unique_count-Represents_example :
    (reps : List Fixed) × Represents reps values × (length reps ≡ unique_count values)
unique_count-Represents_example =
    unique_count-Represents fixed-IsIeee values (unfold fixed in (refl, (refl, (refl, (refl, tt)))))

three_unique : unique_count values ≡ 3
unfolding unique_count sort fixed
three_unique = refl

quantile-index_example : IsRead values (some (pos 500)) ⊎ IsOutside values (some (pos 500))
quantile-index_example =
    quantile-index (thousand 4) (thousand 1 ∷ thousand 3 ∷ thousand 1 ∷ []) (some (pos 500))

abbrev timer : Metric Fixed
timer = record new_metric {
  key = codes "t";
  metric_type = metric_type_timer;
  all_values = values;
  total_hits = thousand 4;
}

process_metric-IsTimer_example :
    (p : Metric Fixed) × (process_metric (10 * second) (pos 50 ∷ []) timer ≡ done p)
    × IsTimer (10 * second) (pos 50 ∷ []) timer p
process_metric-IsTimer_example =
    process_metric-IsTimer fixed-IsIeee (10 * second) (pos 50 ∷ []) timer refl (λ h. ground arith)
      (
        (
          thousand 2,
          unfold quantile sort fixed in refl,
          unfold within_boundary sort fixed in (λ h. ground arith),
        ),
        tt,
      )

process_metric-IsKept_example :
    (p : Metric Fixed) × (process_metric (10 * second) (pos 50 ∷ []) (sent "b" 7 1) ≡ done p)
    × IsKept (sent "b" 7 1) p
process_metric-IsKept_example =
    process_metric-IsKept (10 * second) (pos 50 ∷ []) (sent "b" 7 1)
      (unfold create_simple_metric in (λ h. ground arith))
