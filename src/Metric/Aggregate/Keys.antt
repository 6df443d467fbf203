-- ===== src/Metric/Aggregate/Keys.antt =====
-- What the map holds after any number of metrics.
use statsgod.Prelude.Dict.{lookup-insert_self, lookup-insert_ne, lookup, Dict}
use statsgod.Metric.{Metric}
use statsgod.Metric.Aggregate.{combine, aggregate_all, aggregate_metric}
use statsgod.Float.{Float64}
use statsgod.Prelude.{
  sym, ap, ◌∙◌, Option-cases, bytes_eq_iff, inr, inl, arith, none, Bool-cases, [], false, true, ◌≡◌,
  some, bytes_eq, ◌∷◌, select, List, Option, Bytes, refl,
}

module _ {F : Type 0} ⦃f : Float64 F⦄ where
  -- The metrics of one key, in the order in which they came.
  abbrev pub of_key : Bytes → List (Metric F) → List (Metric F)
  of_key k = select λ m. bytes_eq m.key k

  -- One key by itself: the first metric is kept as it is, each later one is combined into it.
  unfoldable pub received : Option (Metric F) → List (Metric F) → Option (Metric F)
  received entry [] = entry
  received none (m ∷ ms) = received (some m) ms
  received (some e) (m ∷ ms) = received (some (combine e m)) ms

  aggregate_metric-same :
      (k : Bytes) (metrics : Dict (Metric F)) (m : Metric F)
      → bytes_eq m.key k ≡ true
      → lookup k (aggregate_metric metrics m) ≡ received (lookup k metrics) (m ∷ [])
  unfolding aggregate_metric received
  aggregate_metric-same k metrics m h =
      let here = (bytes_eq_iff m.key k).0 h in
      elim (Option-cases (lookup m.key metrics)) [
        | inl e ↦ ground (arith, here, lookup-insert_self k m metrics)
        | inr (v, e) ↦ ground (arith, here, lookup-insert_self k (combine v m) metrics)
      ]

  aggregate_metric-other :
      (k : Bytes) (metrics : Dict (Metric F)) (m : Metric F)
      → bytes_eq m.key k ≡ false
      → lookup k (aggregate_metric metrics m) ≡ lookup k metrics
  unfolding aggregate_metric
  aggregate_metric-other k metrics m h = elim (Option-cases (lookup m.key metrics)) [
    | inl e ↦ ground (arith, lookup-insert_ne m.key k m metrics h)
    | inr (v, e) ↦ ground (arith, lookup-insert_ne m.key k (combine v m) metrics h)
  ]

  received-cons :
      (entry : Option (Metric F)) (m : Metric F) (ms : List (Metric F))
      → received entry (m ∷ ms) ≡ received (received entry (m ∷ [])) ms
  unfolding received
  received-cons none m ms = refl
  received-cons (some e) m ms = refl

  -- Each key is aggregated on its own: after any metrics its entry is what the metrics of this key
  -- alone, in their order, make of the entry before.
  pub lookup-aggregate_all :
      (k : Bytes) (metrics : Dict (Metric F)) (ms : List (Metric F))
      → lookup k (aggregate_all metrics ms) ≡ received (lookup k metrics) (of_key k ms)
  unfolding aggregate_all
  lookup-aggregate_all k metrics [] = unfold received in refl
  lookup-aggregate_all k metrics (m ∷ ms) = elim (Bool-cases (bytes_eq m.key k)) [
    | inl same ↦ rw same (
        lookup-aggregate_all k (aggregate_metric metrics m) ms
        ∙ ap (λ e. received e (of_key k ms)) (aggregate_metric-same k metrics m same)
        ∙ sym (received-cons (lookup k metrics) m (of_key k ms)))
    | inr other ↦ rw other (
        lookup-aggregate_all k (aggregate_metric metrics m) ms
        ∙ ap (λ e. received e (of_key k ms)) (aggregate_metric-other k metrics m other))
  ]
