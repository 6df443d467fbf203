-- ===== src/Channels/Progress.antt =====
-- The goroutines do not all wait for one another.
use statsgod.Channels.Costs.{act-relays, act-steps_left, total_cost, steps_left, cost}
use statsgod.Ingest.Delivered.{handle_message-IsParsed}
use statsgod.Metric.{Metric}
use statsgod.Channels.Acted.{act-Acted}
use statsgod.Auth.{Auth}
use statsgod.Float.{Float64}
use statsgod.Prelude.{
  Bytes, zero, suc, refl, ap, inr, List-cases, inl, length, ◌≤◌, ◌⊎◌, arith, map, [], some, ◌∷◌,
  ◌≡◌, ℕ, List,
}
use statsgod.Metric.Aggregate.{aggregate_metric}
use statsgod.Channels.{
  Aggregator, parses, receives, sends, pushes, send_on, run_schedule, send_message, parse_message,
  push_metric, receive_metric, act, Action, update_at, take_from, Channels,
}

take_from-cases {ℓ} :
    {A : Type ℓ} (xss : List (List A))
    → (xss ≡ map (λ xs. []) xss)
      ⊎ ((i : ℕ) × (x : A) × (yss : List (List A)) × (take_from i xss ≡ some (x, yss)))
unfolding take_from
take_from-cases [] = inl refl
take_from-cases ((x ∷ xs) ∷ xss) = inr (0, x, xs ∷ xss, refl)
take_from-cases ([] ∷ xss) = elim (take_from-cases xss) [
  | inl silent ↦ inl (ap (λ yss. [] ∷ yss) silent)
  | inr (i, x, yss, took) ↦ inr (suc i, x, [] ∷ yss, rw took refl)
]

-- Nothing is left to do.
pub record IsIdle {F : Type 0} (s : Channels F) : Type 0 where
  pub all_sent : s.clients ≡ map (λ ms. []) s.clients
  pub all_parsed : s.parse_channel ≡ []
  pub all_pushed : s.parsing ≡ []
  pub all_received : s.relay_channel ≡ []

module _ {F : Type 0} ⦃f : Float64 F⦄ (auth : Auth) where
  module _ (s : Channels F) where
    -- A goroutine that need not wait.
    abbrev Moves : Type 0
    Moves = (a : Action) × (t : Channels F) × (act auth a s ≡ some t) × (cost a ≡ 1)

    receives-Moves :
        (m : Metric F) (channel : List (Metric F)) (relays : List (Aggregator F))
        → s.relay_channel ≡ m ∷ channel
        → s.relays ≡ relays
        → 1 ≤ length relays
        → Moves
    unfolding act receive_metric update_at
    receives-Moves m channel [] e e' some_relay = absurd (omega arith)
    receives-Moves m channel (r ∷ relays) e e' some_relay = (
      receives 0,
      record s {
        relay_channel = channel;
        relays = record r { metrics = aggregate_metric r.metrics m } ∷ relays;
      },
      rw (e, e', act, receive_metric, update_at) refl,
      refl,
    )

    pushes-Moves :
        (m : Metric F) (rest : List (Metric F))
        → s.relay_channel ≡ []
        → s.parsing ≡ m ∷ rest
        → Moves
    unfolding act push_metric send_on
    pushes-Moves m rest e e' = (
      pushes,
      record s { parsing = rest; relay_channel = m ∷ [] },
      rw (e', e, act, push_metric, send_on) refl,
      refl,
    )

    parses-Moves :
        (m : Bytes) (rest : List Bytes) → s.parsing ≡ [] → s.parse_channel ≡ m ∷ rest → Moves
    unfolding act parse_message
    parses-Moves m rest e e' =
        let (pushed, handled, few, parsed) = handle_message-IsParsed {F = F} auth m in
        (
          parses,
          record s { parse_channel = rest; parsing = pushed },
          rw (e, e', handled, act, parse_message) refl,
          refl,
        )

    sends-Moves :
        (i : ℕ) (m : Bytes) (rest : List (List Bytes))
        → s.parse_channel ≡ []
        → take_from i s.clients ≡ some (m, rest)
        → Moves
    unfolding act send_message send_on
    sends-Moves i m rest e took = (
      sends i,
      record s { clients = rest; parse_channel = m ∷ [] },
      rw (took, e, act, send_message, send_on) refl,
      refl,
    )

    -- Where something is left to do, some goroutine need not wait.
    act-progress : 1 ≤ length s.relays → IsIdle s ⊎ Moves
    act-progress some_relay = elim (List-cases s.relay_channel) [
      | inr (m, channel, e) ↦ inr (receives-Moves m channel s.relays e refl some_relay)
      | inl received ↦ elim (List-cases s.parsing) [
        | inr (m, rest, e) ↦ inr (pushes-Moves m rest received e)
        | inl pushed ↦ elim (List-cases s.parse_channel) [
          | inr (m, rest, e) ↦ inr (parses-Moves m rest pushed e)
          | inl parsed ↦ elim (take_from-cases s.clients) [
            | inr (i, m, rest, took) ↦ inr (sends-Moves i m rest parsed took)
            | inl sent ↦ inl (record {
              all_sent = sent;
              all_parsed = parsed;
              all_pushed = pushed;
              all_received = received;
            })
          ]
        ]
      ]
    ]

  -- While steps are left, some schedule comes to the end.
  pub run_schedule-IsIdle :
      (fuel : ℕ) (s : Channels F)
      → 1 ≤ length s.relays
      → steps_left s ≤ fuel
      → (more : List Action) × (t : Channels F) × (run_schedule auth more s ≡ some t)
        × IsIdle t
        × (length more ≡ total_cost more)
  unfolding run_schedule
  run_schedule-IsIdle zero s some_relay enough = elim (act-progress s some_relay) [
    | inl idle ↦ ([], s, refl, idle, refl)
    | inr (a, t, acts, one_step) ↦
        let lower = act-steps_left auth s t a (act-Acted auth s t a acts) in absurd (omega arith)
  ]
  run_schedule-IsIdle (suc fuel) s some_relay enough = elim (act-progress s some_relay) [
    | inl idle ↦ ([], s, refl, idle, refl)
    | inr (a, t, acts, one_step) ↦
        let step = act-Acted auth s t a acts in
        let lower = act-steps_left auth s t a step in
        let same = act-relays auth s t a step in
        let (more, u, runs, idle, all_cost) =
          run_schedule-IsIdle fuel t (omega arith) (omega arith) in
        (a ∷ more, u, rw (acts, run_schedule) runs, idle, omega arith)
  ]
