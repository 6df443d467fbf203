-- ===== src/Metric/Process/Timer.antt =====
-- What `ProcessMetric` makes of a timer.
use statsgod.Statistics.Extremes.{minmax-Covers, Covers}
use statsgod.Statistics.Central.{IsMean, IsMedian, IsSum, median-IsMedian, mean-IsMean, sum-IsSum}
use mathlib.Core.List.{Perm}
use statsgod.Statistics.Order.{sort-perm}
use statsgod.Statistics.Order.{sort-ne-nil, IsIn}
use statsgod.Prelude.Outcome.{◌>>=◌, done}
use statsgod.Metric.{metric_type_timer, Metric, MetricQuantile}
use statsgod.Statistics.{sum, minmax, mean, MinMax, quantile, sort}
use statsgod.Metric.Process.{
  rate_per, process_timer, second, process_metric, process_quantiles, process_quantile,
  within_boundary,
}
use statsgod.Prelude.Int.{pos, ℤ}
use statsgod.Float.{IsIeee, Float64}
use statsgod.Prelude.{
  ap, inr, inl, Bool-cases, ◌++◌, true, ◌∙◌, ◌/◌, arith, false, ◌∷◌, [], ◌≡◌, ◌≢◌, All, List, ℕ,
  refl,
}

module _ {F : Type 0} ⦃f : Float64 F⦄ where
  -- q / 100
  abbrev pub share : ℤ → F
  share q = f.div (f.of_int q) (f.of_int (pos 100))

  -- The quantile can be read, and not every value lies above it.
  abbrev pub Selects : List F → ℤ → Type 0
  Selects values q =
      (b : F) × (quantile values (share q) ≡ done b) × (within_boundary b values ≢ [])

  -- The list is empty, or its first value lies above the boundary.
  abbrev pub StartsAbove : F → List F → Type 0
  StartsAbove b [] = Unit
  StartsAbove b (v ∷ values) = f.lt b v ≡ true

  -- A computed quantile: the selected values are the first ones, none of which lies above the boundary,
  -- up to the first one that does; the upper value is the greatest of those selected.
  pub record IsQuantile (values : List F) (q : ℤ) (r : MetricQuantile F) : Type 0 where
    pub percent : r.quantile ≡ q
    pub boundary_is : quantile values (share q) ≡ done r.boundary
    pub rest : List F
    pub selected : values ≡ r.all_values ++ rest
    pub above : StartsAbove r.boundary rest
    pub below : All (λ v. f.lt r.boundary v ≡ false) r.all_values
    pub upper_in : IsIn r.max r.all_values
    pub upper_ge : All (λ v. f.lt r.max v ≡ false) r.all_values
    pub mean_is : IsMean r.all_values r.mean
    pub median_is : IsMedian r.all_values r.median
    pub sum_is : IsSum r.all_values r.sum

  abbrev pub AreQuantiles : List F → List ℤ → List (MetricQuantile F) → Type 0
  AreQuantiles values [] [] = Unit
  AreQuantiles values [] (r ∷ rs) = ⊥
  AreQuantiles values (q ∷ qs) [] = ⊥
  AreQuantiles values (q ∷ qs) (r ∷ rs) = IsQuantile values q r × AreQuantiles values qs rs

  pub record IsTimer (flush_duration : ℕ) (qs : List ℤ) (m p : Metric F) : Type 0 where
    pub sorted : p.all_values ≡ sort m.all_values
    pub rearranged : Perm p.all_values m.all_values
    pub min_in : IsIn p.min_value p.all_values
    pub max_in : IsIn p.max_value p.all_values
    pub min_le : All (λ v. f.lt v p.min_value ≡ false) p.all_values
    pub max_ge : All (λ v. f.lt p.max_value v ≡ false) p.all_values
    pub median_is : IsMedian p.all_values p.median_value
    pub mean_is : IsMean p.all_values p.mean_value
    pub rate_is :
        p.values_per_second ≡ f.div m.total_hits (f.of_int (pos (flush_duration / second)))
    pub quantiles_are : AreQuantiles p.all_values qs p.quantiles
    pub same_key : p.key ≡ m.key
    pub same_type : p.metric_type ≡ m.metric_type

  within_boundary-below :
      (b : F) (values : List F) → All (λ v. f.lt b v ≡ false) (within_boundary b values)
  unfolding within_boundary
  within_boundary-below b [] = tt
  within_boundary-below b (v ∷ values) = ground (arith, within_boundary-below b values)

  within_boundary-rest :
      (b : F) (values : List F)
      → (rest : List F) × (values ≡ within_boundary b values ++ rest) × StartsAbove b rest
  unfolding within_boundary
  within_boundary-rest b [] = ([], refl, tt)
  within_boundary-rest b (v ∷ values) = elim (Bool-cases (f.lt b v)) [
    | inl over ↦ (v ∷ values, rw (over, within_boundary) refl, over)
    | inr under ↦
        let (rest, s, a) = within_boundary-rest b values in
        (rest, rw (under, within_boundary) (ap (λ vs. v ∷ vs) s), a)
  ]

  process_metric-timer :
      (flush_duration : ℕ) (qs : List ℤ) (m : Metric F)
      → m.metric_type ≡ metric_type_timer
      → process_metric flush_duration qs m
        ≡ process_timer flush_duration qs (record m { all_values = sort m.all_values })
  unfolding process_metric
  process_metric-timer flush_duration qs m timer = elim_type m.metric_type timer
    where
      elim_type :
          (t : ℕ)
          → t ≡ metric_type_timer
          → process_metric flush_duration qs (record m { metric_type = t })
            ≡ process_timer flush_duration qs
                (record m { metric_type = t; all_values = sort m.all_values })
      elim_type t e = rw e

  module _ (laws : IsIeee F) where
    minmax-cases :
        (values : List F)
        → values ≢ []
        → (m : MinMax F) × (minmax values ≡ done m) × Covers m values
    minmax-cases [] ne = absurd (ne refl)
    minmax-cases (x ∷ xs) ne = minmax-Covers laws x xs

    process_quantile-IsQuantile :
        (values : List F) (q : ℤ)
        → Selects values q
        → (r : MetricQuantile F) × (process_quantile values q ≡ done r) × IsQuantile values q r
    unfolding process_quantile
    process_quantile-IsQuantile values q (b, e, ne) =
        let selected : List F = within_boundary b values in
        let (m, e', c) = minmax-cases selected ne in
        let (middle, e'', median_is) = median-IsMedian selected ne in
        let (rest, split, above) = within_boundary-rest b values in
        (
          record {
            quantile = q;
            boundary = b;
            all_values = selected;
            mean = mean selected;
            median = middle;
            max = m.max;
            sum = sum selected;
          },
          rw (e, ◌>>=◌) (rw (e', ◌>>=◌) (rw (e'', ◌>>=◌))),
          record {
            percent = refl;
            boundary_is = e;
            rest = rest;
            selected = split;
            above = above;
            below = within_boundary-below b values;
            upper_in = c.max_in;
            upper_ge = c.max_ge;
            mean_is = mean-IsMean selected;
            median_is = median_is;
            sum_is = sum-IsSum selected;
          },
        )

    process_quantiles-AreQuantiles :
        (values : List F) (qs : List ℤ)
        → All (Selects values) qs
        → (rs : List (MetricQuantile F)) × (process_quantiles values qs ≡ done rs)
          × AreQuantiles values qs rs
    unfolding process_quantiles
    process_quantiles-AreQuantiles values [] s = ([], refl, tt)
    process_quantiles-AreQuantiles values (q ∷ qs) s =
        let (r, e, i) = process_quantile-IsQuantile values q s.0 in
        let (rs, e', is) = process_quantiles-AreQuantiles values qs s.1 in
        (r ∷ rs, rw (e, ◌>>=◌) (rw (e', ◌>>=◌)), (i, is))

    -- With IEEE comparisons, a timer with values, of which every percentile selects some, becomes: the sorted
    -- values, a least and a greatest of them, median and mean, the hits for each second of the flush
    -- interval (a whole number of seconds), and a quantile for each percentile, in their order. A quantile is made
    -- of the first of the sorted values up to the first one above its boundary.
    pub process_metric-IsTimer :
        (flush_duration : ℕ) (qs : List ℤ) (m : Metric F)
        → m.metric_type ≡ metric_type_timer
        → m.all_values ≢ []
        → All (Selects (sort m.all_values)) qs
        → (p : Metric F) × (process_metric flush_duration qs m ≡ done p)
          × IsTimer flush_duration qs m p
    process_metric-IsTimer flush_duration qs m timer ne s =
        let values : List F = sort m.all_values in
        let sorted : Metric F = record m { all_values = values } in
        let (x, e, c) = minmax-cases values (sort-ne-nil m.all_values ne) in
        let (middle, e', median_is) = median-IsMedian values (sort-ne-nil m.all_values ne) in
        let (found, e'', are) = process_quantiles-AreQuantiles values qs s in
        let p : Metric F = record sorted {
          min_value = x.min;
          max_value = x.max;
          median_value = middle;
          mean_value = mean values;
          values_per_second = f.div m.total_hits (f.of_int (pos (flush_duration / second)));
          quantiles = found;
        } in
        (
          p,
          process_metric-timer flush_duration qs m timer
              ∙ unfold process_timer rate_per in (rw (e, ◌>>=◌) (rw (e', ◌>>=◌) (rw (e'', ◌>>=◌)))),
          record {
            sorted = refl;
            rearranged = sort-perm m.all_values;
            min_in = c.min_in;
            max_in = c.max_in;
            min_le = c.min_le;
            max_ge = c.max_ge;
            median_is = median_is;
            mean_is = mean-IsMean values;
            rate_is = refl;
            quantiles_are = are;
            same_key = refl;
            same_type = refl;
          },
        )
