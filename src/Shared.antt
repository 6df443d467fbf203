-- ===== src/Shared.antt =====
-- statsgod/relay.go and statsgod/connectionpool.go: several goroutines of `RelayMetrics` on one pool,
-- as `Relay.Concurrency` says. One try of `sendCarbonMetric` is cut where it reads or changes the
-- pool; between two such points any other goroutine can run.
pub mod Places
pub mod Hands
pub mod Moves
pub mod Kept
pub mod Reached
pub mod Created
pub mod Progress
use statsgod.Carbon.{write_conn}
use statsgod.Prelude.Outcome.{blocked, panics, done, Outcome}
use statsgod.Prelude.{
  ◌+◌, true, ◌||◌, ◌==◌, length, ltb, if◌then◌else◌, zero, false, some, suc, ◌∷◌, none, ◌++◌, ◌≡◌,
  Option, List, Bytes, ℕ,
}
use statsgod.Pool.{
  send_conn, count_error, dial, conn_pool_type_unix, conn_pool_type_tcp, close_conn,
  release_connection, dialed, nil_conn, get_connection, World, Network, ◌>>=◌, return, M,
}

-- Where a goroutine stands, with its connection.
pub data Pc : Type 0 where
  idle : Pc  -- before GetConnection
  writing : ℕ → Pc  -- before the write
  releasing : ℕ → Pc  -- before ReleaseConnection(conn, false)
  closing : ℕ → Pc  -- before conn.Close() in ReleaseConnection(conn, true)
  checking : Pc  -- at the start of CreateConnection
  dialing : Pc  -- before net.Dial
  failing : Pc  -- before pool.ErrorCount is read in `pool.ErrorCount++`
  counting : ℕ → Pc  -- before it is written there, with the number that was read
  adding : ℕ → Pc  -- before `pool.Connections <- conn`
  timed_out : Pc  -- with NilConn{}, before ReleaseConnection(conn, true)

-- On an empty channel a goroutine waits, which is no step, until it gets a connection or times out.
module _ (net : Network) (payload : Bytes) where
  unfoldable pub step : Pc → M Pc
  step idle = do
    (conn, err) ← get_connection net
    return (elim conn [ nil_conn ↦ timed_out | dialed c ↦ writing c ])
  step (writing c) = do
    err ← write_conn net (dialed c) payload
    return (elim err [ some e ↦ closing c | none ↦ releasing c ])
  step (releasing c) = do _ ← release_connection net (dialed c) false; return idle
  step (closing c) = do _ ← close_conn (dialed c); return checking
  step checking = λ w.
      if ltb (length w.connections) w.size
      then if w.conn_type == conn_pool_type_tcp || w.conn_type == conn_pool_type_unix
        then done (dialing, w)
        else done (idle, w)
      else done (idle, w)
  step dialing = do conn ← dial net; return (elim conn [ none ↦ failing | some c ↦ adding c ])
  step failing = λ w. done (counting w.error_count, w)
  step (counting n) = λ w. done (idle, record w { pool = record w.pool { error_count = n + 1 } })
  step (adding c) = do _ ← send_conn c; return idle
  step timed_out = do _ ← release_connection net nil_conn true; return idle

-- The pool, and where each goroutine stands.
pub record System : Type 0 where
  pub world : World
  pub threads : List Pc

-- One goroutine makes a step, with any payload.
pub data Turn (net : Network) (s t : System) : Type 0 where
  run :
      (payload : Bytes) (before after : List Pc) (p q : Pc) (v : World)
      → s.threads ≡ before ++ p ∷ after
      → step net payload p s.world ≡ done (q, v)
      → t ≡ record { world = v; threads = before ++ q ∷ after }
      → Turn net s t

pub data Reach (net : Network) (s : System) : System → Type 0 where
  here : Reach net s s
  next : {t u : System} → Reach net s t → Turn net t u → Reach net s u
