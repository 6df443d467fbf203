-- ===== src/Tests/Loading.antt =====
-- The load test.
use statsgod.Metric.Process.{second}
use statsgod.Prelude.Outcome.{done}
use statsgod.Auth.{auth_config_token, Auth}
use statsgod.Prelude.{
  some, none, if◌then◌else◌, not, ◌==◌, refl, ◌≤◌, inr, length, ◌*◌, ◌≡◌, ◌+◌, [], arith, ◌∷◌,
  codes, true, ltb, All, List, ℕ,
}
use statsgod.Prelude.Int.{pos}
use statsgod.Extras.Generator
use statsgod.Extras.Generator.{
  default_generator_flags, dial_and_write, load_test_metrics, GeneratorMetric, handle_stats_queue,
  payload_of,
}
use statsgod.Extras.Generator.Read.{IsDrawn, IsRead, generate_metric_names-AreRead}
use statsgod.Decimal.{itoa, decimal}
use statsgod.Extras.LogCompare.{
  Patterns, count_of, log_compare, input_key, output_key, remove_first,
}
use statsgod.Extras.LogCompare.Counted.{log_compare-left_over, occurrences}
use statsgod.Float.Fixed.{fixed, Fixed, fixed-decimal}
use statsgod.Prelude.{bytes_eq}
use statsgod.Prelude.Dict.{lookup}
use statsgod.Carbon.{write_conn}
use statsgod.Pool.{conn_pool_type_unix, release_connection, get_connection, create_connection}
use statsgod.Tests.Relaying.{two-Balances, steady, two}
use statsgod.Extras.Loadtest.{
  no_counts, finished, flush_ticked, send_test_metrics, total_error, total_count,
  send_metric_to_stats, flush_metrics, Flags, TestMetric, LoadNetwork, LoadState,
}
use statsgod.Extras.Loadtest.Run.{
  print_results, ReqPerSecond, Choice, generate_metric_names, metric_token_of,
}
use statsgod.Extras.Loadtest.Accepted.{ReadsDigits}
use statsgod.Extras.Loadtest.Generated.{IsChoice, IsAcceptedBy, generate_metric_names-AreAccepted}
use statsgod.Extras.Loadtest.Results.{flush_metrics-IsReport, IsReport}

fixed-ReadsDigits : ReadsDigits Fixed
unfolding fixed
fixed-ReadsDigits = record { digits = fixed-decimal; empty = refl; one_one = refl }

abbrev flags : Flags
flags = record {
  stats_pool_count = 2;
  num_metrics = 2;
  concurrency = 1;
  run_time = 1;
  conn_type = pos 0;
  log_sent = true;
  token = codes "t";
}

abbrev choice : ℕ → Choice
choice i = record { name = codes "abcdefghijABCDEFGHIJ"; range = λ m n. m + i; intn = λ n. i }

abbrev choices : List Choice
choices = choice 0 ∷ choice 3 ∷ []

choices-IsChoice : All IsChoice choices
choices-IsChoice = (
  record {
    twenty = refl;
    letters = ground arith;
    range_from = ground arith;
    range_to = ground arith;
    intn_lt = ground arith;
  },
  (
    record {
      twenty = refl;
      letters = ground arith;
      range_from = ground arith;
      range_to = ground arith;
      intn_lt = ground arith;
    },
    tt,
  ),
)

abbrev auth : Auth
auth = auth_config_token ((codes "t", true) ∷ [])

generate_metric_names-AreAccepted_example :
    (store : List TestMetric) × (generate_metric_names flags choices []
        (metric_token_of (codes "t"))
      ≡ done store)
    × (length store ≡ 2)
    × All (IsAcceptedBy Fixed auth (λ n. 7)) store
unfolding lookup bytes_eq
generate_metric_names-AreAccepted_example =
    generate_metric_names-AreAccepted fixed-ReadsDigits auth (λ n. 7) flags (codes "t") choices
      (inr ((codes "t", true) ∷ [], refl, (λ e. absurd (ground arith)), ground arith, refl))
      choices-IsChoice (ground arith) (ground arith)

abbrev drawn : List Choice
drawn = choice 1 ∷ choice 2 ∷ []

drawn-IsDrawn : All IsDrawn drawn
drawn-IsDrawn = (
  record {
    twenty = refl;
    letters = ground arith;
    range_from = ground arith;
    range_to = ground arith;
    intn_lt = ground arith;
  },
  (
    record {
      twenty = refl;
      letters = ground arith;
      range_from = ground arith;
      range_to = ground arith;
      intn_lt = ground arith;
    },
    tt,
  ),
)

generate_metric_names-AreRead_example :
    (all : List GeneratorMetric) × (Generator.generate_metric_names drawn [] ≡ done all)
    × (length all ≡ 2)
    × All (IsRead Fixed (λ n. 42)) all
generate_metric_names-AreRead_example =
    generate_metric_names-AreRead fixed-ReadsDigits (λ n. 42) (omega arith) (omega arith) drawn
      drawn-IsDrawn

-- The second dial fails.
two_sent :
    (handle_stats_queue default_generator_flags
      (λ n. n == 0)
      ((λ n. 42, record { key = codes "a"; metric_type = codes "g"; connection_type = 2 })
        ∷ (λ n. 42, record { key = codes "b"; metric_type = codes "c"; connection_type = 1 })
        ∷ [])
      (record { dials = 0; written = []; failures = 0 }))
    ≡ record {
      dials = 2;
      written =
          record { network = codes "udp"; addr = codes "localhost:8126"; payload = codes "a:42|g" }
          ∷ [];
      failures = 1;
    }
unfolding handle_stats_queue Generator.send_metric_to_stats dial_and_write itoa payload_of bytes_eq
    decimal
two_sent = refl

-- Every line of the input but an empty one matches; an output line that is not empty is about `a:1|c`.
abbrev patterns : Patterns
patterns = record {
  input_matches = λ escaped line. not (bytes_eq line []);
  output_groups = λ line. if bytes_eq line [] then none else some (codes "a", codes "0", codes "1");
}

-- Sent twice with a token and logged once.
log_compare-left_over_example :
    (count_of
        (codes "a:1|c")
        (log_compare patterns
          (codes "t")
          (codes "t.a:1|c" ∷ [] ∷ codes "t.a:1|c" ∷ [])
          (codes "Metric: {a 0}" ∷ [])).1.input_strings
      ≡ 2)
    × (count_of
          (codes "a:1|c")
          (log_compare patterns
            (codes "t")
            (codes "t.a:1|c" ∷ [] ∷ codes "t.a:1|c" ∷ [])
            (codes "Metric: {a 0}" ∷ [])).1.output_strings
        ≡ 1)
unfolding occurrences input_key output_key remove_first bytes_eq
log_compare-left_over_example =
    log_compare-left_over patterns (codes "t") (codes "t.a:1|c" ∷ [] ∷ codes "t.a:1|c" ∷ [])
      (codes "Metric: {a 0}" ∷ []) (codes "a:1|c")

abbrev metric : ℕ → ((ℕ → ℕ) × TestMetric)
metric t = (
  λ n. 7,
  record { key = codes "a"; metric_type = codes "g"; metric_value = pos 0; connection_type = t },
)

-- The first dial outside of the pools fails.
abbrev load_net : LoadNetwork
load_net = record { tcp = steady; unix = steady; direct = λ n. ltb 0 n }

abbrev metrics : List ((ℕ → ℕ) × TestMetric)
metrics = metric 1 ∷ metric 2 ∷ metric 3 ∷ metric 4 ∷ metric 5 ∷ []

-- Both pools filled, and every counter at 0.
abbrev before_load : LoadState
before_load = record {
  counts = no_counts;
  tcp_pool = two;
  unix_pool = record two { pool = record two.pool { conn_type = conn_pool_type_unix } };
  dials = 0;
  written = [];
  printed = [];
}

flush_metrics-IsReport_example :
    (s : LoadState) × (rs : List (ReqPerSecond Fixed)) × (flush_metrics flags load_net metrics
        before_load
      ≡ done s)
    × (print_results s.counts (2 * second) ≡ done rs)
    × (total_count s.counts ≡ 5)
    × (total_error s.counts ≤ 5)
    × IsReport s.counts rs
flush_metrics-IsReport_example =
    flush_metrics-IsReport flags load_net 2 metrics (2 * second) before_load refl two-Balances
      (record { places = ground arith; size_is = refl; type_is = refl; dialable = refl })
      (ground arith) (ground arith)

-- Only the first one fails.
one_error :
    (s : LoadState) × (flush_metrics flags load_net metrics before_load ≡ done s)
    × (total_error s.counts ≡ 1)
unfolding flush_metrics send_metric_to_stats create_connection get_connection write_conn
    release_connection
one_error = (_, refl, refl)

abbrev stored : TestMetric
stored = (metric 1).1

sent_twice :
    send_test_metrics (stored ∷ []) (flush_ticked ∷ flush_ticked ∷ finished ∷ flush_ticked ∷ [])
    ≡ stored ∷ stored ∷ []
unfolding send_test_metrics
sent_twice = refl

queued_twice :
    length (
      load_test_metrics
        (record { key = codes "a"; metric_type = codes "c"; connection_type = 1 } ∷ [])
        2)
    ≡ 2
unfolding load_test_metrics
queued_twice = refl
