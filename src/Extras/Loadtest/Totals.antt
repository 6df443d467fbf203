-- ===== src/Extras/Loadtest/Totals.antt =====
-- The counts of the load test.
use statsgod.Pool.Release.{release-recreated, release-kept}
use statsgod.Carbon.{write_conn}
use statsgod.Pool.{◌>>=◌, World, Network, get_connection}
use statsgod.Prelude.Outcome.{done, Outcome}
use statsgod.Pool.Accounts.{Balances}
use statsgod.Prelude.{
  length, All, ◌==◌, refl, false, length-append, true, inr, [], inl, Bool-cases, some, ◌∷◌, arith,
  none, ◌++◌, List, Bool, Option, ◌≤◌, ◌+◌, Bytes, ◌≡◌, ◌<◌, ℕ,
}
use statsgod.Extras.Loadtest.{
  unix_failed, unix_counted, udp_failed, udp_counted, tcp_failed, flush_metrics, tcp_counted,
  connection_type_unix_pool, connection_type_unix, connection_type_udp, connection_type_tcp_pool,
  connection_type_tcp, value_of, string_value, TestMetric, send_metric_to_stats, send_directly,
  unix_pooled, tcp_pooled, send_on_pool, newline, log_sent_metric, total_error, write_pooled,
  send_pooled, LoadNetwork, LoadState, total_count, Flags, Counts,
}

-- A message was sent or tried: one connection more, and at most one error more.
pub record IsTried (c d : Counts) : Type 0 where
  pub one_more : total_count d ≡ total_count c + 1
  pub errors_from : total_error c ≤ total_error d
  pub errors_to : total_error d ≤ total_error c + 1

abbrev pub IsConnectionType : ℕ → Type 0
IsConnectionType t = (0 < t) × (t < 6)

-- Both pools keep account of their connections.
pub record ArePools (size tcp_type unix_type : ℕ) (s : LoadState) : Type 0 where
  pub tcp : Balances 0 size tcp_type s.tcp_pool
  pub unix : Balances 0 size unix_type s.unix_pool

abbrev pub AreSendable : List ((ℕ → ℕ) × TestMetric) → Type 0
AreSendable = All λ m. IsConnectionType m.1.connection_type

module _ (flags : Flags) (net : LoadNetwork) (size tcp_type unix_type : ℕ) where
  send_pooled-Balances :
      (pool_net : Network) (line : Bytes) (conn_type : ℕ) (w : World) (xs : List ℕ)
      → w.connections ≡ xs
      → Balances 0 size conn_type w
      → (r : Option Bool) × (v : World) × (send_pooled flags net pool_net line w ≡ done (r, v))
        × Balances 0 size conn_type v
  unfolding send_pooled write_pooled get_connection write_conn
  send_pooled-Balances pool_net line conn_type w [] e b = (
    none,
    record w { pool = record w.pool { connections = [] } },
    ground (arith, e),
    ground arith,
  )
  send_pooled-Balances pool_net line conn_type w (c ∷ rest) e b =
      elim (Bool-cases (pool_net.write_ok w.writes)) [
        | inl ok ↦
            let u : World = record w {
              pool = record w.pool { connections = rest };
              writes = w.writes + 1;
              delivered = w.delivered ++ line ∷ [];
            } in
            (
              some true,
              record u { pool = record u.pool { connections = rest ++ c ∷ [] } },
              rw (e, ◌>>=◌, get_connection)
                  (rw (ok, ◌>>=◌, write_conn)
                    (rw (release-kept pool_net c u (ground arith), ◌>>=◌))),
              ground (arith, length-append rest (c ∷ [])),
            )
        | inr failed ↦
            let u : World = record w {
              pool = record w.pool { connections = rest };
              writes = w.writes + 1;
            } in
            let (added, err, v, released, b', dialed_ok, lines, sent, left) =
              release-recreated pool_net c 0 size conn_type u (ground arith) in
            (
              some false,
              v,
              rw (e, ◌>>=◌, get_connection) (rw (failed, ◌>>=◌, write_conn) (rw (released, ◌>>=◌))),
              b',
            )
      ]

  send_on_pool-done :
      (pool_net : Network) (line : Bytes) (conn_type : ℕ) (w : World)
      → (after : Option Bool → World → LoadState) → Balances 0 size conn_type w
      → (r : Option Bool) × (v : World) × (send_on_pool flags net pool_net line w after
          ≡ done (after r v))
        × Balances 0 size conn_type v
  unfolding send_on_pool
  send_on_pool-done pool_net line conn_type w after b =
      let (r, v, e, b') = send_pooled-Balances pool_net line conn_type w w.connections refl b in
      (r, v, rw (e, send_on_pool) refl, b')

  abbrev Tries : (LoadState → Outcome LoadState) → LoadState → Type 0
  Tries send s =
      (t : LoadState) × (send s ≡ done t)
      × IsTried s.counts t.counts
      × ArePools size tcp_type unix_type t

  module _ (line : Bytes) (s : LoadState) (p : ArePools size tcp_type unix_type s) where
    tcp_pooled-IsTried :
        (r : Option Bool) (w : World) → IsTried s.counts (tcp_pooled flags net line s r w).counts
    unfolding tcp_pooled
    tcp_pooled-IsTried r w = ground arith

    tcp_pooled-pools :
        (r : Option Bool) (w : World)
        → ((tcp_pooled flags net line s r w).tcp_pool ≡ w)
          × ((tcp_pooled flags net line s r w).unix_pool ≡ s.unix_pool)
    unfolding tcp_pooled
    tcp_pooled-pools r w = ground arith

    tcp_pool-Tries :
        Tries
          (λ u.
            send_on_pool flags net net.tcp
              (line ++ newline)
              u.tcp_pool
              (tcp_pooled flags net line u))
          s
    tcp_pool-Tries =
        let (r, w, e, b) =
          send_on_pool-done net.tcp (line ++ newline) tcp_type s.tcp_pool
            (tcp_pooled flags net line s) p.tcp in
        let (this, other) = tcp_pooled-pools r w in
        (
          tcp_pooled flags net line s r w,
          e,
          tcp_pooled-IsTried r w,
          record { tcp = rw this b; unix = rw other p.unix },
        )

    unix_pooled-IsTried :
        (r : Option Bool) (w : World) → IsTried s.counts (unix_pooled flags net line s r w).counts
    unfolding unix_pooled
    unix_pooled-IsTried r w = ground arith

    unix_pooled-pools :
        (r : Option Bool) (w : World)
        → ((unix_pooled flags net line s r w).unix_pool ≡ w)
          × ((unix_pooled flags net line s r w).tcp_pool ≡ s.tcp_pool)
    unfolding unix_pooled
    unix_pooled-pools r w = ground arith

    unix_pool-Tries :
        Tries
          (λ u.
            send_on_pool flags net net.unix
              (line ++ newline)
              u.unix_pool
              (unix_pooled flags net line u))
          s
    unix_pool-Tries =
        let (r, w, e, b) =
          send_on_pool-done net.unix (line ++ newline) unix_type s.unix_pool
            (unix_pooled flags net line s) p.unix in
        let (this, other) = unix_pooled-pools r w in
        (
          unix_pooled flags net line s r w,
          e,
          unix_pooled-IsTried r w,
          record { unix = rw this b; tcp = rw other p.tcp },
        )

    send_directly-pools :
        (counted failed : Counts → Counts) (sent : Bytes)
        → ((send_directly flags net counted failed sent line s).tcp_pool ≡ s.tcp_pool)
          × ((send_directly flags net counted failed sent line s).unix_pool ≡ s.unix_pool)
    unfolding send_directly
    send_directly-pools counted failed sent = ground arith

    send_directly-Tries :
        (counted failed : Counts → Counts) (sent : Bytes)
        → IsTried s.counts (counted s.counts)
        → IsTried s.counts (failed (counted s.counts))
        → Tries (λ u. done (send_directly flags net counted failed sent line u)) s
    unfolding send_directly log_sent_metric
    send_directly-Tries counted failed sent a b =
        let (this, other) = send_directly-pools counted failed sent in
        (
          send_directly flags net counted failed sent line s,
          refl,
          ground arith,
          record { tcp = rw this p.tcp; unix = rw other p.unix },
        )

  -- From pools that keep account of their connections, sending a metric with one of the five connection
  -- types returns: one connection more is counted, and at most one error more.
  send_metric_to_stats-Tries :
      (intn : ℕ → ℕ) (metric : TestMetric) (s : LoadState)
      → IsConnectionType metric.connection_type
      → ArePools size tcp_type unix_type s
      → Tries (send_metric_to_stats flags net intn metric) s
  unfolding send_metric_to_stats
  send_metric_to_stats-Tries intn metric s k p =
      let line : Bytes = string_value metric (value_of intn metric.metric_type) in
      elim (Bool-cases (metric.connection_type == connection_type_tcp)) [
        | inl tcp ↦
            rw tcp
              (send_directly-Tries line s p tcp_counted tcp_failed _ (omega arith) (omega arith))
        | inr not_tcp ↦ elim (Bool-cases (metric.connection_type == connection_type_tcp_pool)) [
          | inl tcp_pool ↦ rw (not_tcp, tcp_pool) (tcp_pool-Tries line s p)
          | inr not_pool ↦ elim (Bool-cases (metric.connection_type == connection_type_udp)) [
            | inl udp ↦
                rw (not_tcp, not_pool, udp)
                  (send_directly-Tries line s p udp_counted udp_failed _ (omega arith)
                    (omega arith))
            | inr not_udp ↦ elim (Bool-cases (metric.connection_type == connection_type_unix)) [
              | inl unix ↦
                  rw (not_tcp, not_pool, not_udp, unix)
                    (send_directly-Tries line s p unix_counted unix_failed _ (omega arith)
                      (omega arith))
              | inr not_unix ↦
                  let last : (metric.connection_type == connection_type_unix_pool) ≡ true =
                    ground arith in
                  rw (not_tcp, not_pool, not_udp, not_unix, last) (unix_pool-Tries line s p)
            ]
          ]
        ]
      ]

  -- From pools that keep account of their connections, sending metrics with one of the five connection
  -- types, whatever dials and writes fail, returns: it counts one connection for each metric, adds at
  -- most as many errors, and leaves such pools.
  pub flush_metrics-counts :
      (metrics : List ((ℕ → ℕ) × TestMetric)) (s : LoadState)
      → AreSendable metrics
      → ArePools size tcp_type unix_type s
      → (t : LoadState) × (flush_metrics flags net metrics s ≡ done t)
        × (total_count t.counts ≡ total_count s.counts + length metrics)
        × (total_error s.counts ≤ total_error t.counts)
        × (total_error t.counts ≤ total_error s.counts + length metrics)
        × ArePools size tcp_type unix_type t
  unfolding flush_metrics
  flush_metrics-counts [] s k p = (s, refl, omega arith, omega arith, omega arith, p)
  flush_metrics-counts ((intn, metric) ∷ metrics) s (here, k) p =
      let (t, e, tried, p') = send_metric_to_stats-Tries intn metric s here p in
      let (u, e', count, from, to, p'') = flush_metrics-counts metrics t k p' in
      (
        u,
        rw (e, flush_metrics) e',
        omega (arith, tried.one_more),
        omega (arith, tried.errors_from),
        omega (arith, tried.errors_to),
        p'',
      )
