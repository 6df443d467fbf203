-- ===== src/Extras/Generator.antt =====
-- extras/generator.go: the sample generator. The random choices, and how the dials end, are parameters.
-- A payload is also the format of its Fprintf, which changes nothing in a text without a percent sign.
pub mod Read
use statsgod.Prelude.Int.{pos, ℤ}
use statsgod.Decimal.{itoa, decimal}
use statsgod.Prelude.Outcome.{at_index, ◌>>=◌, done, Outcome}
use statsgod.Prelude.{
  zero, suc, length, ◌++◌, [], ◌==◌, ◌+◌, bytes_eq, ◌∷◌, Bool, if◌then◌else◌, codes, ℕ, List, Bytes,
}
use statsgod.Extras.Loadtest.Run.{Choice}

pub record GeneratorMetric : Type 0 where
  pub key : Bytes
  pub metric_type : Bytes
  pub connection_type : ℕ

-- `metricTypes`
abbrev pub generator_types : List Bytes
generator_types = codes "c" ∷ codes "g" ∷ codes "ms" ∷ []

-- The rounds of `generateMetricNames`, one for each choice.
unfoldable pub generate_metric_names :
    List Choice → List GeneratorMetric → Outcome (List GeneratorMetric)
generate_metric_names [] store = done store
generate_metric_names (r ∷ choices) store = do
  metric_type ← at_index generator_types (r.intn (length generator_types))
  generate_metric_names choices (
      store
      ++ record {
        key = codes "statsgod.test." ++ r.name;
        metric_type = metric_type;
        connection_type = r.range 1 4;
      }
        ∷ [])

-- `payload`; `rand.Intn(n)` is `intn n`.
unfoldable pub payload_of : (ℕ → ℕ) → GeneratorMetric → Bytes
payload_of intn metric =
    if bytes_eq metric.metric_type (codes "ms")
    then metric.key ++ b':' ∷ (decimal (intn 1000) ++ codes "|ms")
    else if bytes_eq metric.metric_type (codes "c")
    then metric.key ++ codes ":1|c"
    else metric.key ++ b':' ∷ (decimal (intn 100) ++ codes "|g")

-- The flags that are not numbers of rounds.
pub record GeneratorFlags : Type 0 where
  pub stats_host : Bytes
  pub stats_port_tcp : ℤ
  pub stats_port_udp : ℤ
  pub stats_sock : Bytes

-- What the flags are if they are not given.
abbrev pub default_generator_flags : GeneratorFlags
default_generator_flags = record {
  stats_host = codes "localhost";
  stats_port_tcp = pos 8125;
  stats_port_udp = pos 8126;
  stats_sock = codes "/var/run/statsgod/statsgod.sock";
}

-- A payload that was written, and where.
pub record Written : Type 0 where
  pub network : Bytes
  pub addr : Bytes
  pub payload : Bytes

-- The dials so far, the payloads written, and the failures printed.
pub record GeneratorState : Type 0 where
  pub dials : ℕ
  pub written : List Written
  pub failures : ℕ

-- net.Dial and Fprintf.
unfoldable pub dial_and_write : (ℕ → Bool) → Bytes → Bytes → Bytes → GeneratorState → GeneratorState
dial_and_write dial_ok network addr payload s =
    if dial_ok s.dials
    then record s {
      dials = s.dials + 1;
      written = s.written ++ record { network = network; addr = addr; payload = payload } ∷ [];
    }
    else record s { dials = s.dials + 1; failures = s.failures + 1 }

-- "host:port"
abbrev pub dial_addr : Bytes → ℤ → Bytes
dial_addr host port = host ++ b':' ∷ itoa port

unfoldable pub send_metric_to_stats :
    GeneratorFlags → (ℕ → Bool) → (ℕ → ℕ) → GeneratorMetric → GeneratorState → GeneratorState
send_metric_to_stats flags dial_ok intn metric s =
    let payload = payload_of intn metric in
    if metric.connection_type == 1
    then dial_and_write dial_ok (codes "tcp") (dial_addr flags.stats_host flags.stats_port_tcp)
        payload s
    else if metric.connection_type == 2
    then dial_and_write dial_ok (codes "udp") (dial_addr flags.stats_host flags.stats_port_udp)
        payload s
    else if metric.connection_type == 3
    then dial_and_write dial_ok (codes "unix") flags.stats_sock payload s
    else s

-- `loadTestMetrics`: what it writes to the queue in so many ticks.
unfoldable pub load_test_metrics : List GeneratorMetric → ℕ → List GeneratorMetric
load_test_metrics store zero = []
load_test_metrics store (suc ticks) = store ++ load_test_metrics store ticks

-- `handleStatsQueue`, whose goroutines run in the order of the queue here.
unfoldable pub handle_stats_queue :
    GeneratorFlags → (ℕ → Bool) → List ((ℕ → ℕ) × GeneratorMetric) → GeneratorState → GeneratorState
handle_stats_queue flags dial_ok [] s = s
handle_stats_queue flags dial_ok ((intn, metric) ∷ queue) s =
    handle_stats_queue flags dial_ok queue (send_metric_to_stats flags dial_ok intn metric s)

-- The loop of `main`: the stores of the generators, from the choices of each.
unfoldable pub make_stores : List (List Choice) → Outcome (List (List GeneratorMetric))
make_stores [] = done []
make_stores (choices ∷ generators) = do
  store ← generate_metric_names choices []
  stores ← make_stores generators
  done (store ∷ stores)
