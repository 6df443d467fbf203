-- ===== src/Channels.antt =====
-- statsgod.go: the two channels of `main` and the goroutines around them, before `quit` is set. Each
-- connection has a goroutine that sends its messages, and the UDP socket has one (statsgod/socket.go,
-- readInput and readInputUdp), one goroutine parses (statsgod/metric.go, ParseMetrics), and each relay goroutine aggregates into a map of its own and
-- flushes it (statsgod/relay.go, RelayMetrics). A schedule is a list of steps, in any order; a step that
-- would wait on a channel cannot be made. The rounds of the loops in which nothing arrives change nothing,
-- and are no steps.
pub mod Dealt
pub mod Acted
pub mod Cut
pub mod Accounted
pub mod Costs
pub mod Progress
pub mod Drained
pub mod Authorised
use statsgod.Relay.Emptied.{without}
use statsgod.Relay.{prepare_flush_metrics, prepare_runtime_metrics, Tick}
use statsgod.Config.{ConfigValues}
use statsgod.Prelude.Outcome.{done}
use statsgod.Metric.Aggregate.{aggregate_metric}
use statsgod.Ingest.{handle_message}
use statsgod.Prelude.Dict.{Dict}
use statsgod.Auth.{Auth}
use statsgod.Prelude.{
  ◌++◌, zero, length, suc, ltb, ◌∷◌, some, [], if◌then◌else◌, none, ◌^◌, Option, Bytes, ◌/◌, ◌*◌,
  List, ℕ,
}
use statsgod.Float.{Float64}
use statsgod.Metric.{Metric}

abbrev pub available_memory : ℕ
available_memory = 10 * 2 ^ 20

abbrev pub average_memory_per_request : ℕ
average_memory_per_request = 10 * 2 ^ 10

-- The capacity of both channels.
abbrev pub max_reqs : ℕ
max_reqs = available_memory / average_memory_per_request

-- A relay goroutine: its map, and the maps that it has given to `RelayAllMetrics`.
pub record Aggregator (F : Type 0) : Type 0 where
  pub metrics : Dict (Metric F)
  pub relayed : List (Dict (Metric F))

pub record Channels (F : Type 0) : Type 0 where
  pub clients : List (List Bytes)  -- what each connection has not sent yet
  pub parse_channel : List Bytes
  pub parsing : List (Metric F)  -- what the parse loop is about to push
  pub relay_channel : List (Metric F)
  pub relays : List (Aggregator F)

-- Which goroutine makes a step: a connection sends, the parse loop takes a message or pushes a metric,
-- or a relay goroutine receives one or flushes on a tick.
pub data Action : Type 0 where
  sends : ℕ → Action
  parses : Action
  pushes : Action
  receives : ℕ → Action
  flushes : ℕ → ConfigValues → Tick → Action

-- The first item of one of the lists, and the lists without it.
unfoldable pub take_from {ℓ} : {A : Type ℓ} → ℕ → List (List A) → Option (A × List (List A))
take_from i [] = none
take_from zero ([] ∷ xss) = none
take_from zero ((x ∷ xs) ∷ xss) = some (x, xs ∷ xss)
take_from (suc i) (xs ∷ xss) = elim (take_from i xss) [
  | none ↦ none
  | some (x, yss) ↦ some (x, xs ∷ yss)
]

unfoldable pub update_at {ℓ} : {A : Type ℓ} → ℕ → (A → A) → List A → Option (List A)
update_at i g [] = none
update_at zero g (x ∷ xs) = some (g x ∷ xs)
update_at (suc i) g (x ∷ xs) = elim (update_at i g xs) [ none ↦ none | some ys ↦ some (x ∷ ys) ]

-- `channel <- x`
unfoldable pub send_on {ℓ} : {A : Type ℓ} → A → List A → Option (List A)
send_on x channel = if ltb (length channel) max_reqs then some (channel ++ x ∷ []) else none

module _ {F : Type 0} where
  unfoldable pub send_message : ℕ → Channels F → Option (Channels F)
  send_message i s = elim (take_from i s.clients) [
    | none ↦ none
    | some (m, clients) ↦ elim (send_on m s.parse_channel) [
      | none ↦ none
      | some channel ↦ some (record s { clients = clients; parse_channel = channel })
    ]
  ]

  unfoldable pub push_metric : Channels F → Option (Channels F)
  push_metric s = elim s.parsing [
    | [] ↦ none
    | metric ∷ rest ↦ elim (send_on metric s.relay_channel) [
      | none ↦ none
      | some channel ↦ some (record s { parsing = rest; relay_channel = channel })
    ]
  ]

module _ {F : Type 0} ⦃f : Float64 F⦄ where
  unfoldable pub receive_metric : ℕ → Channels F → Option (Channels F)
  receive_metric j s = elim s.relay_channel [
    | [] ↦ none
    | metric ∷ channel ↦
        elim (update_at j (λ r. record r { metrics = aggregate_metric r.metrics metric })
          s.relays) [
            | none ↦ none
            | some relays ↦ some (record s { relay_channel = channel; relays = relays })
          ]
  ]

  -- A flush. `RelayAllMetrics` deletes each entry of the map that it is given.
  unfoldable pub flush_map : ConfigValues → Tick → Aggregator F → Aggregator F
  flush_map config tick r =
      let prepared = prepare_runtime_metrics config tick.memory r.metrics in
      let left = without prepared prepared in
      let last = prepare_flush_metrics config tick.duration (length prepared) left in
      record { metrics = without last last; relayed = r.relayed ++ prepared ∷ last ∷ [] }

  unfoldable pub flush_one : ℕ → ConfigValues → Tick → Channels F → Option (Channels F)
  flush_one j config tick s = elim (update_at j (flush_map config tick) s.relays) [
    | none ↦ none
    | some relays ↦ some (record s { relays = relays })
  ]

  -- `handle_message` never panics, as Ingest/Delivered shows.
  unfoldable pub parse_message : Auth → Channels F → Option (Channels F)
  parse_message auth s = elim s.parsing [
    | [] ↦ elim s.parse_channel [
      | [] ↦ none
      | m ∷ channel ↦ elim (handle_message auth m) [
        | done pushed ↦ some (record s { parse_channel = channel; parsing = pushed })
        | other ↦ none
      ]
    ]
    | metric ∷ rest ↦ none
  ]

module _ {F : Type 0} ⦃f : Float64 F⦄ (auth : Auth) where
  -- A step, if its goroutine does not wait.
  unfoldable pub act : Action → Channels F → Option (Channels F)
  unfolding send_message parse_message push_metric receive_metric flush_one
  act (sends i) = send_message i
  act parses = parse_message auth
  act pushes = push_metric
  act (receives j) = receive_metric j
  act (flushes j config tick) = flush_one j config tick

  unfoldable pub run_schedule : List Action → Channels F → Option (Channels F)
  run_schedule [] s = some s
  run_schedule (a ∷ schedule) s = elim (act a s) [ none ↦ none | some t ↦ run_schedule schedule t ]
