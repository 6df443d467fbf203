-- ===== src/Relay/Interval.antt =====
-- `RelayAllMetrics`, and a whole flush interval of `RelayMetrics`.
use statsgod.Config.{ConfigValues}
use statsgod.Metric.Aggregate.{aggregate_metric, aggregate_all}
use statsgod.Metric.{Metric}
use statsgod.Prelude.Dict.{delete, Dict}
use statsgod.Prelude.Int.{ℤ}
use statsgod.Relay.Emptied.{IsEachVisited, visited-IsEachVisited, visited, without-visited, without}
use statsgod.Relay.{
  MetricRelay, receive, prepare_flush_metrics, flush_on, prepare_runtime_metrics, relay_metrics,
  Tick, flush, RelayRound, carbon, relay_entries, relay, relay_all_metrics,
}
use statsgod.Relay.Lines.{relayed_lines}
use statsgod.Carbon.{CarbonRelay}
use statsgod.Float.{Float64}
use statsgod.Carbon.Lines.{lines_of, carbon_relay-lines_of, IsHealthy, AllWritten}
use statsgod.Prelude.{
  true, refl, inr, inl, Option-cases, length, append_assoc, All, some, none, append-nil, ◌∷◌, false,
  arith, ap, ◌∙◌, ◌++◌, [], ◌≡◌, List, Bytes, ℕ,
}
use statsgod.Prelude.Outcome.{done, done-inverse}
use statsgod.Pool.{World, Network, ◌>>=◌}

module _ {F : Type 0} where
  -- A round without a tick, before `quit` is set.
  abbrev pub IsQuiet : RelayRound F → Type 0
  IsQuiet r = (r.quit ≡ false) × (r.tick ≡ none)

  unfoldable pub received_in : List (RelayRound F) → List (Metric F)
  received_in [] = []
  received_in (r ∷ rounds) = elim r.received [
    | none ↦ received_in rounds
    | some m ↦ m ∷ received_in rounds
  ]

module _ {F : Type 0} ⦃f : Float64 F⦄ where
  aggregate_all-last_round :
      (rounds : List (RelayRound F)) (last : RelayRound F) (metrics : Dict (Metric F))
      → receive last.received (aggregate_all metrics (received_in rounds))
        ≡ aggregate_all metrics (received_in (rounds ++ last ∷ []))
  unfolding aggregate_all received_in
  aggregate_all-last_round [] last metrics = elim (Option-cases last.received) [
    | inl e ↦ rw e refl
    | inr (m, e) ↦ rw e refl
  ]
  aggregate_all-last_round (r ∷ rounds) last metrics = elim (Option-cases r.received) [
    | inl e ↦ rw e (aggregate_all-last_round rounds last metrics)
    | inr (m, e) ↦ rw e (aggregate_all-last_round rounds last (aggregate_metric metrics m))
  ]

module _ {F : Type 0} ⦃f : Float64 F⦄ (net : Network) (r : MetricRelay)
    (config : ConfigValues) where
  relay_metrics-quiet :
      (rounds more : List (RelayRound F)) (metrics : Dict (Metric F)) (w : World)
      → All IsQuiet rounds
      → relay_metrics net r config (rounds ++ more) metrics w
        ≡ relay_metrics net r config more (aggregate_all metrics (received_in rounds)) w
  unfolding relay_metrics flush_on aggregate_all received_in
  relay_metrics-quiet [] more metrics w q = refl
  relay_metrics-quiet (first ∷ rounds) more metrics w ((on, untimed), q) =
      rw (on, untimed)
        (elim (Option-cases first.received) [
          | inl e ↦ rw e (relay_metrics-quiet rounds more metrics w q)
          | inr (m, e) ↦ rw e (relay_metrics-quiet rounds more (aggregate_metric metrics m) w q)
        ])

  -- If `quit` is set before a tick, the loop ends at once: it delivers nothing, and the metrics
  -- received since the last flush are left in the map.
  pub relay_metrics-quit :
      (rounds more : List (RelayRound F)) (last : RelayRound F) (metrics : Dict (Metric F))
      (w : World)
      → All IsQuiet rounds
      → last.quit ≡ true
      → relay_metrics net r config (rounds ++ last ∷ more) metrics w
        ≡ done (aggregate_all metrics (received_in rounds), w)
  unfolding relay_metrics
  relay_metrics-quit rounds more last metrics w q off =
      relay_metrics-quiet rounds (last ∷ more) metrics w q ∙ rw off refl

module _ (net : Network) (size conn_type : ℕ) (written : AllWritten net) where
  module _ {F : Type 0} ⦃f : Float64 F⦄ (c : CarbonRelay) where
    relay_entries-lines :
        (now : Bytes → ℤ) (entries metrics : Dict (Metric F)) (lines : List Bytes) (w : World)
        → relayed_lines c now entries ≡ done lines
        → IsHealthy net size conn_type w
        → (v : World) × (relay_entries net (carbon c) now entries metrics w
            ≡ done (without entries metrics, v))
          × (v.delivered ≡ w.delivered ++ lines)
          × IsHealthy net size conn_type v
    unfolding relayed_lines relay without relay_entries
    relay_entries-lines now [] metrics lines w e h =
        (w, refl, ground (arith, append-nil w.delivered), h)
    relay_entries-lines now ((key, m) ∷ entries) metrics lines w e h =
        let (p, processed, e') = done-inverse _ _ lines e in
        let (rest, later, last) = done-inverse (relayed_lines c now entries) _ lines e' in
        let (u, sent, d, h') =
          carbon_relay-lines_of net size conn_type written c _ p w processed h in
        let (v, sent', d', h'') =
          relay_entries-lines now entries (delete key metrics) rest u later h' in
        (
          v,
          rw (sent, ◌>>=◌) sent',
          ground (arith, append_assoc w.delivered (lines_of c p) rest),
          h'',
        )

    -- On a network that takes every write, and from a pool that keeps account of its connections and
    -- is not empty, if every entry of the map can be processed, `RelayAllMetrics` delivers the lines of
    -- each entry, in the order in which it visits them, and nothing else, and leaves an empty map and
    -- such a pool.
    pub relay_all_metrics-lines :
        (order : Bytes → ℕ) (now : Bytes → ℤ) (metrics : Dict (Metric F)) (lines : List Bytes)
        (w : World)
        → relayed_lines c now (visited order metrics) ≡ done lines
        → IsHealthy net size conn_type w
        → (v : World) × (relay_all_metrics net (carbon c) order now metrics w ≡ done ([], v))
          × (v.delivered ≡ w.delivered ++ lines)
          × IsHealthy net size conn_type v
    unfolding relay_all_metrics
    relay_all_metrics-lines order now metrics lines w e h =
        let (v, sent, d, h') =
          relay_entries-lines now (visited order metrics) metrics lines w e h in
        (v, sent ∙ ap (λ m. done (m, v)) (without-visited order metrics), d, h')

    flush-lines :
        (config : ConfigValues) (t : Tick) (metrics : Dict (Metric F)) (lines own : List Bytes)
        (w : World)
        → relayed_lines {F = F} c t.first_times
            (visited t.first_order (prepare_runtime_metrics config t.memory metrics))
          ≡ done lines
        → relayed_lines {F = F} c t.second_times (
            visited t.second_order (
              prepare_flush_metrics config t.duration
                (length (prepare_runtime_metrics config t.memory metrics))
                []))
          ≡ done own
        → IsHealthy net size conn_type w
        → (v : World) × (flush net (carbon c) config t metrics w ≡ done ([], v))
          × (v.delivered ≡ w.delivered ++ lines ++ own)
          × IsHealthy net size conn_type v
    unfolding flush
    flush-lines config t metrics lines own w e e' h =
        let (u, sent, d, h') = relay_all_metrics-lines t.first_order t.first_times _ lines w e h in
        let (v, sent', d', h'') =
          relay_all_metrics-lines t.second_order t.second_times _ own u e' h' in
        (v, rw (sent, ◌>>=◌) sent', ground arith, h'')

  module _ {F : Type 0} ⦃f : Float64 F⦄ (c : CarbonRelay) (config : ConfigValues) where
    -- One flush interval, before `quit` is set: rounds without a tick and then one with a tick. On a
    -- network that takes every write, and from a pool that keeps account of its connections and is not
    -- empty, if every entry can be processed, what is delivered are the lines of the map before with
    -- all the metrics received in the interval aggregated into it and the runtime metrics, and then
    -- those of the flush metrics, in the order in which `range` visits each map, which the tick gives and
    -- in which each entry of the first map comes once. The loop goes on with an empty map and such a pool.
    pub relay_metrics-interval :
        (rounds more : List (RelayRound F)) (last : RelayRound F) (t : Tick)
        (metrics : Dict (Metric F)) (lines own : List Bytes) (w : World)
        → All IsQuiet rounds
        → last.quit ≡ false
        → last.tick ≡ some t
        → relayed_lines {F = F} c t.first_times (
            visited t.first_order (
              prepare_runtime_metrics config t.memory
                (aggregate_all metrics (received_in (rounds ++ last ∷ [])))))
          ≡ done lines
        → relayed_lines {F = F} c t.second_times (
            visited t.second_order (
              prepare_flush_metrics config t.duration
                (length (
                  prepare_runtime_metrics config t.memory
                    (aggregate_all metrics (received_in (rounds ++ last ∷ [])))))
                []))
          ≡ done own
        → IsHealthy net size conn_type w
        → (v : World) × (relay_metrics net (carbon c) config (rounds ++ last ∷ more) metrics w
            ≡ relay_metrics net (carbon c) config more [] v)
          × (v.delivered ≡ w.delivered ++ lines ++ own)
          × IsHealthy net size conn_type v
          × IsEachVisited t.first_order (
              prepare_runtime_metrics config t.memory
                (aggregate_all metrics (received_in (rounds ++ last ∷ []))))
    unfolding relay_metrics flush_on
    relay_metrics-interval rounds more last t metrics lines own w q on timed e e' h =
        let gathered : Dict (Metric F) =
          aggregate_all metrics (received_in (rounds ++ last ∷ [])) in
        let (v, sent, d, h') = flush-lines c config t gathered lines own w e e' h in
        (
          v,
          relay_metrics-quiet net (carbon c) config rounds (last ∷ more) metrics w q
              ∙ rw (on, timed, aggregate_all-last_round rounds last metrics, sent, ◌>>=◌) refl,
          d,
          h',
          visited-IsEachVisited t.first_order _,
        )
