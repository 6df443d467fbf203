-- ===== src/Channels/Acted.antt =====
-- The steps as a relation.
use statsgod.Relay.{Tick}
use statsgod.Config.{ConfigValues}
use statsgod.Prelude.Outcome.{done}
use statsgod.Ingest.{handle_message}
use statsgod.Prelude.{
  ◌≤◌, refl, [], sym, ◌++◌, ltb, inr, Bool-cases, inl, ◌<◌, arith, ◌∷◌, Option-cases, length, some,
  ◌≡◌, List, Bytes, ℕ,
}
use statsgod.Channels.{
  flush_map, flushes, flush_one, Aggregator, pushes, parses, max_reqs, receives, update_at, sends,
  take_from, Action, send_on, act, receive_metric, push_metric, parse_message, send_message,
  Channels,
}
use mathlib.Core.Option.{some-injective}
use statsgod.Float.{Float64}
use statsgod.Auth.{Auth}
use statsgod.Ingest.Delivered.{handle_message-IsParsed}
use statsgod.Metric.{Metric}
use statsgod.Metric.Aggregate.{aggregate_metric}

module _ {F : Type 0} ⦃f : Float64 F⦄ (auth : Auth) where
  -- The parse loop makes at most one metric of a message.
  pub data Acted (s t : Channels F) : Action → Type 0 where
    message_sent :
        (i : ℕ) (m : Bytes) (rest : List (List Bytes))
        → take_from i s.clients ≡ some (m, rest)
        → length s.parse_channel < max_reqs
        → t ≡ record s { clients = rest; parse_channel = s.parse_channel ++ m ∷ [] }
        → Acted s t (sends i)
    message_parsed :
        (m : Bytes) (rest : List Bytes) (pushed : List (Metric F))
        → s.parsing ≡ []
        → s.parse_channel ≡ m ∷ rest
        → handle_message auth m ≡ done pushed
        → length pushed ≤ 1
        → t ≡ record s { parse_channel = rest; parsing = pushed }
        → Acted s t parses
    metric_pushed :
        (metric : Metric F) (rest : List (Metric F))
        → s.parsing ≡ metric ∷ rest
        → length s.relay_channel < max_reqs
        → t ≡ record s { parsing = rest; relay_channel = s.relay_channel ++ metric ∷ [] }
        → Acted s t pushes
    metric_received :
        (j : ℕ) (metric : Metric F) (rest : List (Metric F)) (relays : List (Aggregator F))
        → s.relay_channel ≡ metric ∷ rest
        → update_at j (λ r. record r { metrics = aggregate_metric r.metrics metric }) s.relays
          ≡ some relays
        → t ≡ record s { relay_channel = rest; relays = relays }
        → Acted s t (receives j)
    map_flushed :
        (j : ℕ) (config : ConfigValues) (tick : Tick) (relays : List (Aggregator F))
        → update_at j (flush_map config tick) s.relays ≡ some relays
        → t ≡ record s { relays = relays }
        → Acted s t (flushes j config tick)

  module _ (s t : Channels F) where
    send_message-Acted : (i : ℕ) → send_message i s ≡ some t → Acted s t (sends i)
    unfolding send_message send_on
    send_message-Acted i h = elim (Option-cases (take_from i s.clients)) [
      | inl fails ↦ absurd (ground (arith, (rw (fails, send_message) at h)))
      | inr ((m, rest), took) ↦ elim (Bool-cases (ltb (length s.parse_channel) max_reqs)) [
        | inr full ↦ absurd (ground (arith, (rw (took, full, send_message, send_on) at h)))
        | inl room ↦
            message_sent i m rest took (ground arith)
              (sym (some-injective _ _ (rw (took, room, send_message, send_on) at h)))
      ]
    ]

    parse_message-Acted :
        (pending : List (Metric F)) (channel : List Bytes)
        → s.parsing ≡ pending
        → s.parse_channel ≡ channel
        → parse_message auth s ≡ some t
        → Acted s t parses
    unfolding parse_message
    parse_message-Acted (metric ∷ rest) channel e e' h =
        absurd (ground (arith, (rw (e, parse_message) at h)))
    parse_message-Acted [] [] e e' h = absurd (ground (arith, (rw (e, e', parse_message) at h)))
    parse_message-Acted [] (m ∷ channel) e e' h =
        let (pushed, handled, few, parsed) = handle_message-IsParsed {F = F} auth m in
        message_parsed m channel pushed e e' handled few
          (sym (some-injective _ _ (rw (e, e', handled, parse_message) at h)))

    push_metric-Acted :
        (pending : List (Metric F))
        → s.parsing ≡ pending
        → push_metric s ≡ some t
        → Acted s t pushes
    unfolding push_metric send_on
    push_metric-Acted [] e h = absurd (ground (arith, (rw (e, push_metric) at h)))
    push_metric-Acted (metric ∷ rest) e h =
        elim (Bool-cases (ltb (length s.relay_channel) max_reqs)) [
          | inr full ↦ absurd (ground (arith, (rw (e, full, push_metric, send_on) at h)))
          | inl room ↦
              metric_pushed metric rest e (ground arith)
                (sym (some-injective _ _ (rw (e, room, push_metric, send_on) at h)))
        ]

    receive_metric-Acted :
        (j : ℕ) (channel : List (Metric F))
        → s.relay_channel ≡ channel
        → receive_metric j s ≡ some t
        → Acted s t (receives j)
    unfolding receive_metric
    receive_metric-Acted j [] e h = absurd (ground (arith, (rw (e, receive_metric) at h)))
    receive_metric-Acted j (metric ∷ channel) e h =
        elim (Option-cases
          (update_at j (λ r. record r { metrics = aggregate_metric r.metrics metric }) s.relays)) [
            | inl fails ↦ absurd (ground (arith, (rw (e, fails, receive_metric) at h)))
            | inr (relays, updated) ↦
                metric_received j metric channel relays e updated
                  (sym (some-injective _ _ (rw (e, updated, receive_metric) at h)))
          ]

    flush_one-Acted :
        (j : ℕ) (config : ConfigValues) (tick : Tick)
        → flush_one j config tick s ≡ some t
        → Acted s t (flushes j config tick)
    unfolding flush_one
    flush_one-Acted j config tick h =
        elim (Option-cases (update_at j (flush_map config tick) s.relays)) [
          | inl fails ↦ absurd (ground (arith, (rw (fails, flush_one) at h)))
          | inr (relays, updated) ↦
              map_flushed j config tick relays updated
                (sym (some-injective _ _ (rw (updated, flush_one) at h)))
        ]

    pub act-Acted : (a : Action) → act auth a s ≡ some t → Acted s t a
    unfolding act
    act-Acted (sends i) h = send_message-Acted i h
    act-Acted parses h = parse_message-Acted s.parsing s.parse_channel refl refl h
    act-Acted pushes h = push_metric-Acted s.parsing refl h
    act-Acted (receives j) h = receive_metric-Acted j s.relay_channel refl h
    act-Acted (flushes j config tick) h = flush_one-Acted j config tick h
