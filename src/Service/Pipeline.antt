-- ===== src/Service/Pipeline.antt =====
-- statsgod.go: the goroutines of `main` on one flush interval. A client's connection is read to its
-- end, its messages go through the parse channel, the metrics through the relay channel, and then
-- there is a tick. This is one of the orders in which the goroutines can run.
use statsgod.Metric.Aggregate.{aggregate_all}
use statsgod.Relay.Emptied.{visited}
use statsgod.Relay.Lines.{relayed_lines}
use statsgod.Socket.{messages, read_input}
use statsgod.Carbon.Lines.{IsHealthy, AllWritten}
use statsgod.Socket.Reassembly.{lines, read_input-lines, join, IsStream}
use statsgod.Prelude.Dict.{Dict}
use statsgod.Auth.{Auth}
use statsgod.Carbon.{CarbonRelay}
use statsgod.Config.{ConfigValues}
use statsgod.Ingest.{parse_metrics, Round}
use statsgod.Pool.{World, M, Network}
use statsgod.Metric.{Metric}
use statsgod.Float.{Float64}
use statsgod.Relay.Interval.{relay_metrics-interval, IsQuiet, received_in}
use statsgod.Relay.{
  carbon, prepare_flush_metrics, prepare_runtime_metrics, relay_metrics, MetricRelay, RelayRound,
  Tick,
}
use statsgod.Prelude.{
  refl, ◌∙◌, length, ap, ◌≡◌, [], none, some, ℕ, ◌++◌, All, false, ◌∷◌, Bytes, List,
}
use statsgod.Prelude.Outcome.{blocked, done, panics}

-- Messages that arrive one after the other, before `quit` is set.
unfoldable pub arrivals : List Bytes → List Round
arrivals [] = []
arrivals (m ∷ metrics) = record { message = some m; quit = false } ∷ arrivals metrics

module _ {F : Type 0} where
  unfoldable pub relay_arrivals : List (Metric F) → List (RelayRound F)
  relay_arrivals [] = []
  relay_arrivals (m ∷ metrics) =
      record { quit = false; received = some m; tick = none } ∷ relay_arrivals metrics

  abbrev pub ticking : Tick → RelayRound F
  ticking t = record { quit = false; received = none; tick = some t }

  relay_arrivals-IsQuiet : (metrics : List (Metric F)) → All IsQuiet (relay_arrivals metrics)
  unfolding relay_arrivals
  relay_arrivals-IsQuiet [] = tt
  relay_arrivals-IsQuiet (m ∷ metrics) = ((refl, refl), relay_arrivals-IsQuiet metrics)

  received_in-arrivals :
      (metrics : List (Metric F)) (t : Tick)
      → received_in (relay_arrivals metrics ++ ticking t ∷ []) ≡ metrics
  unfolding received_in relay_arrivals
  received_in-arrivals [] t = refl
  received_in-arrivals (m ∷ metrics) t = ap (λ ms. m ∷ ms) (received_in-arrivals metrics t)

module _ {F : Type 0} ⦃f : Float64 F⦄ where
  -- From the buffers of a connection to the map after the flush.
  unfoldable pub serve :
      Network → MetricRelay → ConfigValues → Auth → Tick → List Bytes → M (Dict (Metric F))
  serve net r config auth t bufs w = elim (read_input F [] bufs) [
    | done metrics ↦ elim (parse_metrics auth (arrivals metrics)) [
      | done pushed ↦ relay_metrics net r config (relay_arrivals pushed ++ ticking t ∷ []) [] w
      | panics message ↦ panics message
      | blocked ↦ blocked
    ]
    | panics message ↦ panics message
    | blocked ↦ blocked
  ]

  pub serve-lines :
      (net : Network) (size conn_type : ℕ) (c : CarbonRelay) (config : ConfigValues) (auth : Auth)
      (t : Tick) (bufs : List Bytes) (pushed : List (Metric F)) (sent own : List Bytes) (w : World)
      → AllWritten net
      → IsStream F [] bufs
      → parse_metrics auth (arrivals (messages (lines (join bufs)))) ≡ done pushed
      → relayed_lines c t.first_times (
          visited t.first_order (prepare_runtime_metrics config t.memory (aggregate_all [] pushed)))
        ≡ done sent
      → relayed_lines {F = F} c t.second_times (
          visited t.second_order (
            prepare_flush_metrics config t.duration
              (length (prepare_runtime_metrics config t.memory (aggregate_all [] pushed)))
              []))
        ≡ done own
      → IsHealthy net size conn_type w
      → (v : World) × (serve net (carbon c) config auth t bufs w ≡ done ([], v))
        × (v.delivered ≡ w.delivered ++ sent ++ own)
        × IsHealthy net size conn_type v
  unfolding serve
  serve-lines net size conn_type c config auth t bufs pushed sent own w written s p e e' h =
      let gathered = received_in-arrivals pushed t in
      let (v, ran, d, h', each) =
        relay_metrics-interval net size conn_type written c config (relay_arrivals pushed) []
          (ticking t) t [] sent own w (relay_arrivals-IsQuiet pushed) refl refl (rw gathered e)
          (rw gathered e') h in
      (v, rw (read_input-lines F [] bufs s, p, serve) (ran ∙ unfold relay_metrics in refl), d, h')
