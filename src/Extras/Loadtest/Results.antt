-- ===== src/Extras/Loadtest/Results.antt =====
-- What the load test prints at its end.
use statsgod.Pool.Accounts.{Balances}
use statsgod.Extras.Loadtest.Totals.{flush_metrics-counts, AreSendable}
use statsgod.Pool.{conn_pool_type_unix, conn_pool_type_tcp}
use statsgod.Metric.Process.{second}
use statsgod.Extras.Loadtest.{
  flush_metrics, no_counts, LoadState, total_error, total_count, TestMetric, LoadNetwork, Flags,
  Counts,
}
use statsgod.Prelude.{
  ap, refl, [], zero, length, ◌∷◌, arith, ◌/◌, suc, codes, ◌≤◌, ◌≡◌, ◌<◌, List, ℕ, Bytes,
}
use statsgod.Prelude.Int.{negsuc, ◌-ℤ◌, pos, ℤ}
use statsgod.Float.{Float64}
use statsgod.Extras.Loadtest.Run.{ReqPerSecond, print_results, print_req_per_second, quotient}
use statsgod.Prelude.Outcome.{done}

quotient-returns : (a : ℤ) (d : ℕ) → 0 < d → (q : ℤ) × (quotient a d ≡ done q)
unfolding quotient
quotient-returns a zero h = elim h [ ]
quotient-returns (pos n) (suc d) h = (pos (n / suc d), refl)
quotient-returns (negsuc n) (suc d) h = (pos 0 -ℤ pos (suc n / suc d), refl)

module _ {F : Type 0} ⦃f : Float64 F⦄ where
  -- A line of the results, about these counts.
  pub record Reports (title : Bytes) (total errors : ℕ) (r : ReqPerSecond F) : Type 0 where
    pub title_is : r.title ≡ title
    pub total_is : r.total ≡ total
    pub errors_is : r.errors ≡ errors

  print_req_per_second-Reports :
      (title : Bytes) (total errors run_time : ℕ)
      → second ≤ run_time
      → (r : ReqPerSecond F) × (print_req_per_second title total errors run_time ≡ done r)
        × Reports title total errors r
  unfolding print_req_per_second
  print_req_per_second-Reports title total errors run_time h =
      let (q, e) = quotient-returns (pos total -ℤ pos errors) (run_time / second) (omega arith) in
      (
        record {
          title = title;
          total = total;
          errors = errors;
          error_rate = f.div (f.of_int (pos errors)) (f.of_int (pos total));
          rate = q;
        },
        rw e,
        record { title_is = refl; total_is = refl; errors_is = refl },
      )

  -- The last line is the total.
  abbrev pub IsReport : Counts → List (ReqPerSecond F) → Type 0
  IsReport c (tcp ∷ tcp_pool ∷ udp ∷ unix ∷ unix_pool ∷ total ∷ []) =
      Reports (codes "Total") (total_count c) (total_error c) total
  IsReport c _ = ⊥

  print_results-IsReport :
      (c : Counts) (total_time : ℕ)
      → second ≤ total_time
      → (rs : List (ReqPerSecond F)) × (print_results c total_time ≡ done rs) × IsReport c rs
  unfolding print_results
  print_results-IsReport c t h =
      let (a, ea, ra) =
        print_req_per_second-Reports (codes "TCP") c.connection_count_tcp c.connection_error_tcp t
          h in
      let (b, eb, rb) =
        print_req_per_second-Reports (codes "TCP (pool)") c.connection_count_tcp_pool
          c.connection_error_tcp_pool t h in
      let (u, eu, ru) =
        print_req_per_second-Reports (codes "UDP") c.connection_count_udp c.connection_error_udp t
          h in
      let (x, ex, rx) =
        print_req_per_second-Reports (codes "Unix") c.connection_count_unix c.connection_error_unix
          t h in
      let (y, ey, ry) =
        print_req_per_second-Reports (codes "Unix (pool)") c.connection_count_unix_pool
          c.connection_error_unix_pool t h in
      let (z, ez, rz) =
        print_req_per_second-Reports (codes "Total") (total_count c) (total_error c) t h in
      (a ∷ b ∷ u ∷ x ∷ y ∷ z ∷ [], rw (ea, eb, eu, ex, ey, ez), rz)

  -- One goroutine of `flushMetrics` that nothing else runs beside, on pools that keep account and from
  -- counters at 0: if every metric has one of the five connection types, it handles all that come off the
  -- flush channel, whatever dials and writes fail, and has then counted one connection for each and at most
  -- as many errors. If the test takes a second at least, the results printed from these counters end with
  -- them as the total.
  pub flush_metrics-IsReport :
      (flags : Flags) (net : LoadNetwork) (size : ℕ) (metrics : List ((ℕ → ℕ) × TestMetric))
      (total_time : ℕ) (start : LoadState)
      → start.counts ≡ no_counts
      → Balances 0 size conn_pool_type_tcp start.tcp_pool
      → Balances 0 size conn_pool_type_unix start.unix_pool
      → AreSendable metrics
      → second ≤ total_time
      → (s : LoadState) × (rs : List (ReqPerSecond F)) × (flush_metrics flags net metrics start
          ≡ done s)
        × (print_results s.counts total_time ≡ done rs)
        × (total_count s.counts ≡ length metrics)
        × (total_error s.counts ≤ length metrics)
        × IsReport s.counts rs
  flush_metrics-IsReport flags net size metrics total_time start fresh b b' k h =
      let (s, sent, count, from, to, p) =
        flush_metrics-counts flags net size conn_pool_type_tcp conn_pool_type_unix metrics start k
          (record { tcp = b; unix = b' }) in
      let (rs, printed, is_report) = print_results-IsReport s.counts total_time h in
      let none_counted = ap total_count fresh in
      let none_failed = ap total_error fresh in
      (s, rs, sent, printed, omega (arith, count), omega (arith, to), is_report)
