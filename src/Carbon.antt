-- ===== src/Carbon.antt =====
-- statsgod/relay.go: `CarbonRelay`, which writes metrics to a carbon server.
pub mod Send
pub mod Retry
pub mod Lines
pub mod Namespace
use statsgod.Prelude.Outcome.{blocked, panics, done}
use statsgod.Metric.Process.{process_metric}
use statsgod.Decimal.{itoa}
use statsgod.Metric.{
  metric_type_timer, metric_type_set, metric_type_counter, metric_type_gauge, MetricQuantile,
  Metric,
}
use statsgod.Prelude.Int.{ℤ}
use statsgod.Pool.{
  nil_conn, write_failed, dialed, release_connection, write, nil_conn_call, return, get_connection,
  PoolError, ◌>>=◌, M, Conn, Network,
}
use statsgod.Float.{Float64}
use statsgod.Prelude.{
  ◌+◌, none, false, some, codes, ◌==◌, Option, [], if◌then◌else◌, Bool, ◌++◌, ◌∷◌, Bytes, List, ℕ,
  true,
}

-- The constants are counted by `iota` from the third line of their block.
abbrev pub namespace_type_counter : ℕ
namespace_type_counter = 2

abbrev pub namespace_type_gauge : ℕ
namespace_type_gauge = 3

abbrev pub namespace_type_rate : ℕ
namespace_type_rate = 4

abbrev pub namespace_type_set : ℕ
namespace_type_set = 5

abbrev pub namespace_type_timer : ℕ
namespace_type_timer = 6

-- A map from namespace types to texts; a key that is missing reads as "".
abbrev pub Affixes : Type 0
Affixes = List (ℕ × Bytes)

unfoldable pub affix : Affixes → ℕ → Bytes
affix [] t = []
affix ((u, text) ∷ m) t = if u == t then text else affix m t

unfoldable pub set_affix : Affixes → ℕ → Bytes → Affixes
set_affix [] t text = (t, text) ∷ []
set_affix ((u, old) ∷ m) t text = if u == t then (u, text) ∷ m else (u, old) ∷ set_affix m t text

-- The fields of `CarbonRelay` but the pool, which stands in the world.
pub record CarbonRelay : Type 0 where
  pub flush_interval : ℕ
  pub percentile : List ℤ
  pub prefixes : Affixes
  pub suffixes : Affixes

abbrev space : Bytes
space = b' ' ∷ []

unfoldable pub apply_prefix_and_suffix : CarbonRelay → Bytes → ℕ → Bytes
unfolding affix
apply_prefix_and_suffix c namespace metric_type =
    affix c.prefixes metric_type ++ namespace ++ affix c.suffixes metric_type

module _ {F : Type 0} ⦃f : Float64 F⦄ where
  -- "key value time\n"
  unfoldable pub carbon_payload : Bytes → F → Bytes → Bytes
  carbon_payload key v t = key ++ space ++ f.format_float v ++ space ++ t ++ b'\n' ∷ []

-- fmt.Fprint(conn, payload)
unfoldable pub write_conn : Network → Conn → Bytes → M (Option PoolError)
write_conn net nil_conn payload w = nil_conn_call write
write_conn net (dialed c) payload w =
    if net.write_ok w.writes
    then done (none, record w { writes = w.writes + 1; delivered = w.delivered ++ payload ∷ [] })
    else done (some write_failed, record w { writes = w.writes + 1 })

-- One try to send a payload: whether it was written.
unfoldable pub try_send : Network → Bytes → M Bool
unfolding write_conn
try_send net payload = do
  (conn, conn_err) ← get_connection net
  elim conn_err [
    | some e ↦ do _ ← release_connection net conn true; return false
    | none ↦ do
      write_err ← write_conn net conn payload
      elim write_err [
        | some e ↦ do _ ← release_connection net conn true; return false
        | none ↦ do _ ← release_connection net conn false; return true
      ]
  ]

-- The call with `retry` makes, if nothing was sent, the call without it.
unfoldable pub send_payload : Network → Bytes → Bool → M Bool
send_payload net payload false = try_send net payload
send_payload net payload true = do
  data_sent ← try_send net payload
  if data_sent then return true else try_send net payload

module _ {F : Type 0} ⦃f : Float64 F⦄ where
  unfoldable pub send_carbon_metric : Network → Bytes → F → Bytes → Bool → M Bool
  send_carbon_metric net key v t retry = send_payload net (carbon_payload key v t) retry

  module _ (net : Network) (c : CarbonRelay) where
    abbrev send : Metric F → Bytes → ℕ → F → M Bool
    send metric name kind v =
        send_carbon_metric net (apply_prefix_and_suffix c (metric.key ++ name) kind) v
          (itoa metric.flush_time) true

    relay_gauge : Metric F → M Bool
    relay_gauge metric = do _ ← send metric [] namespace_type_gauge metric.last_value; return true

    relay_counter : Metric F → M Bool
    relay_counter metric = do
      _ ← send metric [] namespace_type_rate metric.values_per_second
      _ ← send metric [] namespace_type_counter metric.last_value
      return true

    relay_set : Metric F → M Bool
    relay_set metric = do _ ← send metric [] namespace_type_set metric.last_value; return true

    relay_quantiles : Metric F → List (MetricQuantile F) → M Bool
    relay_quantiles metric [] = return true
    relay_quantiles metric (q ∷ quantiles) = do
      let qkey = itoa q.quantile
      _ ← send metric (codes ".mean_" ++ qkey) namespace_type_timer q.mean
      _ ← send metric (codes ".median_" ++ qkey) namespace_type_timer q.median
      _ ← send metric (codes ".upper_" ++ qkey) namespace_type_timer q.max
      _ ← send metric (codes ".sum_" ++ qkey) namespace_type_timer q.sum
      relay_quantiles metric quantiles

    relay_timer : Metric F → M Bool
    unfolding relay_quantiles
    relay_timer metric = do
      _ ← send metric [] namespace_type_rate metric.values_per_second
      _ ← send metric (codes ".mean_value") namespace_type_timer metric.mean_value
      _ ← send metric (codes ".median_value") namespace_type_timer metric.median_value
      _ ← send metric (codes ".max_value") namespace_type_timer metric.max_value
      _ ← send metric (codes ".min_value") namespace_type_timer metric.min_value
      relay_quantiles metric metric.quantiles

    -- The `switch` of `Relay`.
    relay_processed : Metric F → M Bool
    unfolding relay_gauge relay_counter relay_set relay_timer
    relay_processed metric =
        if metric.metric_type == metric_type_gauge
        then relay_gauge metric
        else if metric.metric_type == metric_type_counter
        then relay_counter metric
        else if metric.metric_type == metric_type_set
        then relay_set metric
        else if metric.metric_type == metric_type_timer
        then relay_timer metric
        else return true

    unfoldable pub carbon_relay : Metric F → M Bool
    unfolding relay_processed
    carbon_relay metric w = elim (process_metric c.flush_interval c.percentile metric) [
      | done processed ↦ relay_processed processed w
      | panics message ↦ panics message
      | blocked ↦ blocked
    ]
