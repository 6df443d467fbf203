-- ===== src/Channels/Cut.antt =====
-- What a relay goroutine receives, cut at its flushes.
use statsgod.Relay.Emptied.{without_self}
use statsgod.Channels.Dealt.{pair, no_pair, Pairwise}
use statsgod.Relay.{prepare_flush_metrics, prepare_runtime_metrics, Tick}
use statsgod.Prelude.Dict.{Dict}
use statsgod.Metric.{Metric}
use statsgod.Config.{ConfigValues}
use statsgod.Metric.Aggregate.{aggregate_metric, aggregate_all}
use statsgod.Float.{Float64}
use statsgod.Channels.{flush_map, Aggregator}
use statsgod.Prelude.{
  refl, append_assoc, ◌∙◌, ap, length, append-nil, sym, ◌∷◌, ◌++◌, ◌≡◌, [], List, ℕ, zero, suc,
}

abbrev pub nothing_each {ℓ} : {A : Type ℓ} → ℕ → List (List A)
nothing_each zero = []
nothing_each (suc n) = [] ∷ nothing_each n

-- Relay goroutines before their first round.
abbrev pub new_relays : {F : Type 0} → ℕ → List (Aggregator F)
new_relays zero = []
new_relays (suc n) = record { metrics = []; relayed = [] } ∷ new_relays n

module _ {F : Type 0} ⦃f : Float64 F⦄ where
  aggregate_all-last_one :
      (metrics : Dict (Metric F)) (ms : List (Metric F)) (m : Metric F)
      → aggregate_all metrics (ms ++ m ∷ []) ≡ aggregate_metric (aggregate_all metrics ms) m
  unfolding aggregate_all
  aggregate_all-last_one metrics [] m = refl
  aggregate_all-last_one metrics (n ∷ ms) m =
      aggregate_all-last_one (aggregate_metric metrics n) ms m

  -- What a flush gives to `RelayAllMetrics`, first and second.
  abbrev pub flushed_maps : ConfigValues → Tick → Dict (Metric F) → List (Dict (Metric F))
  flushed_maps config tick metrics =
      let prepared = prepare_runtime_metrics config tick.memory metrics in
      prepared ∷ prepare_flush_metrics config tick.duration (length prepared) [] ∷ []

  -- The metrics that a relay goroutine has received are cut at its flushes: the map of a flush is the
  -- aggregate of the metrics since the last one, and so is the map that it holds now.
  pub data IsCut : List (Metric F) → Aggregator F → Type 0 where
    unflushed :
        {share : List (Metric F)} {r : Aggregator F}
        → r.metrics ≡ aggregate_all [] share
        → r.relayed ≡ []
        → IsCut share r
    flushed :
        {share : List (Metric F)} {r : Aggregator F} (config : ConfigValues) (tick : Tick)
        (before later : List (Metric F)) (s : Aggregator F)
        → IsCut before s
        → share ≡ before ++ later
        → r.metrics ≡ aggregate_all [] later
        → r.relayed ≡ s.relayed ++ flushed_maps config tick s.metrics
        → IsCut share r

  pub received-IsCut :
      (m : Metric F) (share : List (Metric F)) (r : Aggregator F)
      → IsCut share r
      → IsCut (share ++ m ∷ []) (record r { metrics = aggregate_metric r.metrics m })
  received-IsCut m share r (unflushed e none_yet) =
      unflushed (ap (λ ms. aggregate_metric ms m) e ∙ sym (aggregate_all-last_one [] share m))
        none_yet
  received-IsCut m share r (flushed config tick before later s c cut e relayed) =
      flushed config tick before (later ++ m ∷ []) s c
        (ap (λ ms. ms ++ m ∷ []) cut ∙ append_assoc before later (m ∷ []))
        (ap (λ ms. aggregate_metric ms m) e ∙ sym (aggregate_all-last_one [] later m)) relayed

  pub flush_map-IsCut :
      (config : ConfigValues) (tick : Tick) (share : List (Metric F)) (r : Aggregator F)
      → IsCut share r
      → IsCut share (flush_map config tick r)
  unfolding flush_map aggregate_all
  flush_map-IsCut config tick share r c =
      flushed config tick share [] r c (sym (append-nil share)) (without_self _) (
        ap
          (λ left.
            r.relayed
            ++ prepare_runtime_metrics config tick.memory r.metrics
              ∷ prepare_flush_metrics config tick.duration
                  (length (prepare_runtime_metrics config tick.memory r.metrics)) left
              ∷ [])
          (without_self (prepare_runtime_metrics config tick.memory r.metrics)))

  pub new_relays-IsCut : (n : ℕ) → Pairwise IsCut (nothing_each n) (new_relays n)
  unfolding aggregate_all
  new_relays-IsCut zero = no_pair
  new_relays-IsCut (suc n) = pair (unflushed refl refl) (new_relays-IsCut n)
