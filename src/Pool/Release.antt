-- ===== src/Pool/Release.antt =====
-- `GetConnection` and `ReleaseConnection`.
use statsgod.Prelude.Outcome.{done, panics}
use statsgod.Pool.Accounts.{create_connection-Balances, Balances}
use statsgod.Prelude.{
  arith, [], ◌∷◌, if◌then◌else◌, ◌++◌, ◌+◌, none, false, Option, ◌≡◌, suc, Bool, length, ltb, ℕ,
  true, refl,
}
use statsgod.Pool.{
  send_conn, push_conn, ◌>>=◌, nil_conn_panic_msg, PoolError, dialed, nil_conn, nil_conn_call,
  release_connection, Network, World,
}

module _ (net : Network) where
  -- A connection that is put back goes behind those in the pool.
  pub release-kept :
      (c : ℕ) (w : World)
      → ltb (length w.connections) w.size ≡ true
      → release_connection net (dialed c) false w
        ≡ done (
          (true, none),
          record w { pool = record w.pool { connections = w.connections ++ c ∷ [] } },
        )
  unfolding release_connection
  release-kept c w room = rw (room, ◌>>=◌, push_conn, send_conn)

  -- `NilConn` cannot be released.
  pub release-nil_conn :
      (recreate : Bool) (w : World)
      → release_connection net nil_conn recreate w ≡ panics nil_conn_panic_msg
  unfolding release_connection nil_conn_call
  release-nil_conn true w = refl
  release-nil_conn false w = refl

  -- A broken connection is closed, and its place gets a new connection or is counted as an error. The
  -- second part of the result is whether there is a new connection.
  pub release-recreated :
      (c lent size conn_type : ℕ) (w : World)
      → Balances (suc lent) size conn_type w
      → (added : Bool) × (err : Option PoolError) × (v : World) × (release_connection net
            (dialed c)
            true
            w
          ≡ done ((added, err), v))
        × Balances lent size conn_type v
        × (added ≡ net.dial_ok w.dials)
        × (v.delivered ≡ w.delivered)
        × (v.writes ≡ w.writes)
        × (length v.connections ≡ length w.connections + (if added then 1 else 0))
  unfolding release_connection
  release-recreated c lent size conn_type w b =
      let u : World = record w { closed = w.closed ++ c ∷ [] } in
      let (added, err, v, made, b', ok, count, dialed_ok, lines, sent, left) =
        create_connection-Balances net u lent size conn_type (ground arith) in
      (
        added,
        if added then none else err,
        v,
        rw (made, ◌>>=◌) (ground arith),
        b',
        dialed_ok,
        lines,
        sent,
        left,
      )
