-- ===== src/Carbon/Send.antt =====
-- `sendCarbonMetric` with its one retry, on a pool that keeps account of its connections.
use statsgod.Pool.Release.{release-kept, release-recreated}
use statsgod.Pool.Accounts.{Balances}
use statsgod.Prelude.Outcome.{done, panics}
use statsgod.Carbon.{write_conn, try_send}
use statsgod.Pool.{
  ◌>>=◌, nil_conn_panic_msg, nil_conn_call, release_connection, get_connection, World, Network,
}
use statsgod.Prelude.{
  ap, ◌∙◌, if◌then◌else◌, false, arith, ◌≤◌, ◌+◌, length, [], ◌≡◌, ◌∷◌, ◌++◌, List, Bytes, ℕ, true,
}

module _ (net : Network) (payload : Bytes) where
  -- With no connection at hand the `NilConn` is closed, which panics.
  pub try_send-empty :
      (w : World) → w.connections ≡ [] → try_send net payload w ≡ panics nil_conn_panic_msg
  unfolding try_send get_connection release_connection nil_conn_call
  try_send-empty w e = rw (e, ◌>>=◌, get_connection)

  unfoldable pub after_write : World → ℕ → List ℕ → World
  after_write w c rest = record w {
    pool = record w.pool { connections = rest ++ c ∷ [] };
    writes = w.writes + 1;
    delivered = w.delivered ++ payload ∷ [];
  }

  -- A payload that is written leaves the connection behind the others in the pool.
  pub try_send-written :
      (w : World) (c : ℕ) (rest : List ℕ)
      → w.connections ≡ c ∷ rest
      → length w.connections ≤ w.size
      → net.write_ok w.writes ≡ true
      → try_send net payload w ≡ done (true, after_write w c rest)
  unfolding try_send get_connection after_write
  try_send-written w c rest e fits ok =
      let v : World = record w {
        pool = record w.pool { connections = rest };
        writes = w.writes + 1;
        delivered = w.delivered ++ payload ∷ [];
      } in
      rw (e, ◌>>=◌, get_connection)
        (rw (ok, ◌>>=◌, write_conn) (rw (release-kept net c v (ground arith), ◌>>=◌)))

  -- A write that fails delivers nothing, and its connection is replaced if the dial succeeds.
  pub try_send-failed :
      (w : World) (c size conn_type : ℕ) (rest : List ℕ)
      → Balances 0 size conn_type w
      → w.connections ≡ c ∷ rest
      → net.write_ok w.writes ≡ false
      → (v : World) × (try_send net payload w ≡ done (false, v))
        × Balances 0 size conn_type v
        × (v.delivered ≡ w.delivered)
        × (v.writes ≡ w.writes + 1)
        × (length v.connections ≡ length rest + (if net.dial_ok w.dials then 1 else 0))
  unfolding try_send get_connection
  try_send-failed w c size conn_type rest b e failed =
      let u : World = record w {
        pool = record w.pool { connections = rest };
        writes = w.writes + 1;
      } in
      let balanced : Balances 1 size conn_type u = record {
        places = ground arith;
        size_is = b.size_is;
        type_is = b.type_is;
        dialable = b.dialable;
      } in
      let (added, err, v, released, b', dialed_ok, lines, sent, left) =
        release-recreated net c 0 size conn_type u balanced in
      (
        v,
        rw (e, ◌>>=◌, get_connection) (rw (failed, ◌>>=◌, write_conn) (rw (released, ◌>>=◌))),
        b',
        lines,
        sent,
        left ∙ ap (λ ok. length rest + (if ok then 1 else 0)) dialed_ok,
      )
