-- ===== src/Pool/Accounts.antt =====
-- The pool keeps account of its connections: each of its places holds a connection, or is a dial that
-- failed.
use mathlib.Core.Path.{subst}
use statsgod.Prelude.Outcome.{done, done-injective}
use statsgod.Prelude.{
  ◌∙◌, ==_iff, ◌<◌, ap, ◌⊎◌, ◌≤◌, sym, Bytes, zero, ltb, some, false, inr, length-append, arith, [],
  ◌∷◌, ◌++◌, none, inl, Bool-cases, if◌then◌else◌, not, Option, Bool, suc, ◌≡◌, ◌||◌, ◌+◌, length,
  ◌==◌, ℕ, true, refl,
}
use statsgod.Pool.{
  connections_failed, create_connection_pool, create_connections, send_conn, dial, ◌>>=◌,
  dial_failed, has_error, PoolError, conn_pool_type_unix, create_connection, conn_pool_type_tcp,
  Network, World,
}

-- The type is one that can be dialed.
abbrev pub IsDialable : ℕ → Type 0
IsDialable t = (t == conn_pool_type_tcp || t == conn_pool_type_unix) ≡ true

-- The places of the pool, with some of its connections or places in other hands.
pub record Balances (lent size conn_type : ℕ) (w : World) : Type 0 where
  pub places : length w.connections + w.error_count + lent ≡ size
  pub size_is : w.size ≡ size
  pub type_is : w.conn_type ≡ conn_type
  pub dialable : IsDialable conn_type

-- Of so many dials from this one on, all succeed, or one fails.
abbrev pub AllDial : Network → ℕ → ℕ → Type 0
AllDial net from count = (k : ℕ) → from ≤ k → k < from + count → net.dial_ok k ≡ true

abbrev pub SomeFails : Network → ℕ → ℕ → Type 0
SomeFails net from count = (k : ℕ) × (from ≤ k) × (k < from + count) × (net.dial_ok k ≡ false)

module _ (net : Network) where
  pub create_connection-ok :
      (w : World)
      → ltb (length w.connections) w.size ≡ true
      → IsDialable w.conn_type
      → net.dial_ok w.dials ≡ true
      → create_connection net w
        ≡ done (
          (true, none),
          record w {
            pool = record w.pool { connections = w.connections ++ w.dials ∷ [] };
            dials = w.dials + 1;
          },
        )
  unfolding create_connection
  create_connection-ok w room type ok =
      rw (room, type) (rw (ok, ◌>>=◌, dial) (rw (room, ◌>>=◌, send_conn)))

  pub create_connection-failed :
      (w : World)
      → ltb (length w.connections) w.size ≡ true
      → IsDialable w.conn_type
      → net.dial_ok w.dials ≡ false
      → create_connection net w
        ≡ done (
          (false, some dial_failed),
          record w {
            pool = record w.pool { error_count = w.error_count + 1 };
            dials = w.dials + 1;
          },
        )
  unfolding create_connection
  create_connection-failed w room type failed = rw (room, type) (rw (failed, ◌>>=◌, dial))

  -- What one call of `CreateConnection` does on a pool with a free place.
  pub create_connection-Balances :
      (w : World) (lent size conn_type : ℕ)
      → Balances (suc lent) size conn_type w
      → (added : Bool) × (err : Option PoolError) × (v : World) × (create_connection net w
          ≡ done ((added, err), v))
        × Balances lent size conn_type v
        × ((not added || has_error err) ≡ not added)
        × (v.error_count ≡ w.error_count + (if added then 0 else 1))
        × (added ≡ net.dial_ok w.dials)
        × (v.delivered ≡ w.delivered)
        × (v.writes ≡ w.writes)
        × (length v.connections ≡ length w.connections + (if added then 1 else 0))
  create_connection-Balances w lent size conn_type b = elim (Bool-cases (net.dial_ok w.dials)) [
    | inl ok ↦ (
      true,
      none,
      record w {
        pool = record w.pool { connections = w.connections ++ w.dials ∷ [] };
        dials = w.dials + 1;
      },
      create_connection-ok w (ground arith) (rw b.type_is b.dialable) ok,
      ground (arith, length-append w.connections (w.dials ∷ [])),
      refl,
      ground arith,
      sym ok,
      refl,
      refl,
      ground (arith, length-append w.connections (w.dials ∷ [])),
    )
    | inr failed ↦ (
      false,
      some dial_failed,
      record w { pool = record w.pool { error_count = w.error_count + 1 }; dials = w.dials + 1 },
      create_connection-failed w (ground arith) (rw b.type_is b.dialable) failed,
      ground arith,
      refl,
      refl,
      sym failed,
      refl,
      refl,
      omega arith,
    )
  ]

  pub create_connections-Balances :
      (rounds errors size conn_type : ℕ) (w : World)
      → Balances rounds size conn_type w
      → errors ≡ w.error_count
      → (v : World) × (create_connections net rounds errors w ≡ done (v.error_count, v))
        × Balances 0 size conn_type v
  unfolding create_connections
  create_connections-Balances zero errors size conn_type w b e = (w, rw e, b)
  create_connections-Balances (suc rounds) errors size conn_type w b e =
      let (added, err, v, made, b', ok, count, dialed_ok, lines, sent, left) =
        create_connection-Balances w rounds size conn_type b in
      let next : ℕ = if not added || has_error err then errors + 1 else errors in
      let (u, eq, done_b) =
        create_connections-Balances rounds next size conn_type v b' (ground arith) in
      (u, rw (made, ◌>>=◌) eq, done_b)

  -- For a type that can be dialed, a new pool has one connection or one counted error for each of its
  -- places, and the error says how many are missing, if any.
  pub create_connection_pool-Balances :
      (size : ℕ) (addr : Bytes) (conn_type timeout : ℕ) (w : World)
      → IsDialable conn_type
      → (v : World) × (create_connection_pool net size addr conn_type timeout w
          ≡ done (if ltb 0 v.error_count then some (connections_failed v.error_count) else none, v))
        × Balances 0 size conn_type v
  unfolding create_connection_pool
  create_connection_pool-Balances size addr conn_type timeout w d =
      let start : World = record w {
        pool = record {
          size = size;
          connections = [];
          addr = addr;
          conn_type = conn_type;
          timeout = timeout;
          error_count = 0;
        };
      } in
      let (v, e, b) = create_connections-Balances size 0 size conn_type start (ground arith) refl in
      (v, rw (e, ◌>>=◌), b)

module _ (net : Network) where
  -- An error is counted if and only if a dial fails.
  abbrev pub Counts : ℕ → World → World → Type 0
  Counts rounds w v =
      (AllDial net w.dials rounds × (v.error_count ≡ w.error_count))
      ⊎ (SomeFails net w.dials rounds × (w.error_count < v.error_count))

  pub create_connections-Counts :
      (rounds errors n size conn_type : ℕ) (w v : World)
      → Balances rounds size conn_type w
      → create_connections net rounds errors w ≡ done (n, v)
      → Counts rounds w v
  unfolding create_connections
  create_connections-Counts zero errors n size conn_type w v b e =
      let same = ap (λ r. r.1) (done-injective e) in
      inl (λ k low high. absurd (omega arith), ap (λ x. x.error_count) (sym same))
  create_connections-Counts (suc rounds) errors n size conn_type w v b e =
      elim (Bool-cases (net.dial_ok w.dials)) [
        | inl ok ↦
            let made = create_connection-ok net w (ground arith) (rw b.type_is b.dialable) ok in
            let u : World = record w {
              pool = record w.pool { connections = w.connections ++ w.dials ∷ [] };
              dials = w.dials + 1;
            } in
            let b' : Balances rounds size conn_type u =
              ground (arith, length-append w.connections (w.dials ∷ [])) in
            elim (create_connections-Counts rounds _ n size conn_type u v b'
              (rw (made, ◌>>=◌) at e)) [
                | inl (all, same) ↦ inl (
                  λ k low high. elim (Bool-cases (k == w.dials)) [
                    | inl first ↦ ap net.dial_ok ((==_iff k w.dials).0 first) ∙ ok
                    | inr later ↦ all k (ground arith) (omega arith)
                  ],
                  same,
                )
                | inr ((k, low, high, failed), more) ↦
                    inr ((k, omega arith, omega arith, failed), more)
              ]
        | inr failed ↦
            let made =
              create_connection-failed net w (ground arith) (rw b.type_is b.dialable) failed in
            let u : World = record w {
              pool = record w.pool { error_count = w.error_count + 1 };
              dials = w.dials + 1;
            } in
            let b' : Balances rounds size conn_type u = ground arith in
            let here : SomeFails net w.dials (suc rounds) =
              (w.dials, omega arith, omega arith, failed) in
            elim (create_connections-Counts rounds _ n size conn_type u v b'
              (rw (made, ◌>>=◌) at e)) [
                | inl (all, same) ↦ inr (here, omega arith)
                | inr (one_more, more) ↦ inr (here, omega arith)
              ]
      ]

  pub create_connection_pool-Counts :
      (size : ℕ) (addr : Bytes) (conn_type timeout : ℕ) (r : Option PoolError) (w v : World)
      → IsDialable conn_type
      → create_connection_pool net size addr conn_type timeout w ≡ done (r, v)
      → (AllDial net w.dials size × (v.error_count ≡ 0))
        ⊎ (SomeFails net w.dials size × (0 < v.error_count))
  unfolding create_connection_pool
  create_connection_pool-Counts size addr conn_type timeout r w v d h =
      let start : World = record w {
        pool = record {
          size = size;
          connections = [];
          addr = addr;
          conn_type = conn_type;
          timeout = timeout;
          error_count = 0;
        };
      } in
      let b : Balances size size conn_type start = ground arith in
      let (u, e, b') = create_connections-Balances net size 0 size conn_type start b refl in
      let same : u ≡ v = ap (λ x. x.1) (done-injective (rw (e, ◌>>=◌) at h)) in
      subst
        (λ x.
          (AllDial net w.dials size × (x.error_count ≡ 0))
          ⊎ (SomeFails net w.dials size × (0 < x.error_count)))
        same (create_connections-Counts size 0 u.error_count size conn_type start u b e)
