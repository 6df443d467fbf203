-- ===== src/Extras/Loadtest/Run.antt =====
-- extras/loadtest.go: `generateMetricNames`, `printReqPerSecond` and what `main` prints at its end. What
-- randutil.String, randutil.IntRange and `r.Intn` return in a round is a parameter.
use statsgod.Metric.Process.{second}
use statsgod.Float.{Float64}
use statsgod.Prelude.Int.{negsuc, ◌-ℤ◌, pos, ℤ}
use statsgod.Prelude.Outcome.{at_index, ◌>>=◌, done, panics, Outcome}
use statsgod.Extras.Loadtest.{total_error, total_count, Counts, TestMetric, Flags}
use statsgod.Prelude.{
  zero, ◌&&◌, ◌/◌, length, ltb, suc, if◌then◌else◌, ◌++◌, [], ◌∷◌, codes, ℕ, List, Bytes,
}

pub record Choice : Type 0 where
  pub name : Bytes
  pub range : ℕ → ℕ → ℕ
  pub intn : ℕ → ℕ

abbrev pub metric_types : List Bytes
metric_types = codes "c" ∷ codes "g" ∷ codes "ms" ∷ codes "s" ∷ []

-- `*connType > 0 && *connType < 6`, or a random one.
unfoldable pub chosen_connection_type : Flags → Choice → ℕ
chosen_connection_type flags r = elim flags.conn_type [
  | pos n ↦ if ltb 0 n && ltb n 6 then n else r.range 1 6
  | negsuc n ↦ r.range 1 6
]

-- The rounds of `generateMetricNames`, one for each choice.
unfoldable pub generate_metric_names :
    Flags → List Choice → List TestMetric → Bytes → Outcome (List TestMetric)
unfolding chosen_connection_type
generate_metric_names flags [] store metric_token = done store
generate_metric_names flags (r ∷ choices) store metric_token = do
  metric_type ← at_index metric_types (r.intn (length metric_types))
  generate_metric_names flags choices
      (store
        ++ record {
          key = metric_token ++ codes "statsgod.test." ++ r.name;
          metric_type = metric_type;
          metric_value = pos 0;
          connection_type = chosen_connection_type flags r;
        }
          ∷ [])
      metric_token

-- `metricToken` in `main`.
unfoldable pub metric_token_of : Bytes → Bytes
metric_token_of [] = []
metric_token_of (c ∷ token) = c ∷ (token ++ b'.' ∷ [])

-- What `printReqPerSecond` prints.
pub record ReqPerSecond (F : Type 0) : Type 0 where
  pub title : Bytes
  pub total : ℕ
  pub errors : ℕ
  pub error_rate : F
  pub rate : ℤ

abbrev pub divide_by_zero : {A : Type 0} → Outcome A
divide_by_zero = panics (codes "runtime error: integer divide by zero")

-- A quotient of Go, cut off towards 0.
unfoldable pub quotient : ℤ → ℕ → Outcome ℤ
quotient a zero = divide_by_zero
quotient (pos n) (suc d) = done (pos (n / suc d))
quotient (negsuc n) (suc d) = done (pos 0 -ℤ pos (suc n / suc d))

module _ {F : Type 0} ⦃f : Float64 F⦄ where
  unfoldable pub print_req_per_second : Bytes → ℕ → ℕ → ℕ → Outcome (ReqPerSecond F)
  unfolding quotient
  print_req_per_second title total errors run_time = do
    rate ← quotient (pos total -ℤ pos errors) (run_time / second)
    done (record {
      title = title;
      total = total;
      errors = errors;
      error_rate = f.div (f.of_int (pos errors)) (f.of_int (pos total));
      rate = rate;
    })

  -- The output at the end of `main`.
  unfoldable pub print_results : Counts → ℕ → Outcome (List (ReqPerSecond F))
  print_results c total_time = do
    tcp ←
        print_req_per_second (codes "TCP") c.connection_count_tcp c.connection_error_tcp total_time
    tcp_pool ←
        print_req_per_second (codes "TCP (pool)") c.connection_count_tcp_pool
          c.connection_error_tcp_pool total_time
    udp ←
        print_req_per_second (codes "UDP") c.connection_count_udp c.connection_error_udp total_time
    unix ←
        print_req_per_second (codes "Unix") c.connection_count_unix c.connection_error_unix
          total_time
    unix_pool ←
        print_req_per_second (codes "Unix (pool)") c.connection_count_unix_pool
          c.connection_error_unix_pool total_time
    total ← print_req_per_second (codes "Total") (total_count c) (total_error c) total_time
    done (tcp ∷ tcp_pool ∷ udp ∷ unix ∷ unix_pool ∷ total ∷ [])
