-- ===== src/Shared/Created.antt =====
-- Where the connections of a new pool are.
use statsgod.Prelude.Outcome.{done-injective, done}
use statsgod.Prelude.{
  refl, ap, inr, [], zero, ◌∷◌, Bytes, ◌∙◌, arith, sym, inl, Bool-cases, suc, Option, ◌≡◌, Bool,
  ◌+◌, ℕ,
}
use statsgod.Pool.{
  ◌>>=◌, create_connection_pool, create_connection, PoolError, create_connections, World, Network,
}
use mathlib.Core.Path.{subst}
use statsgod.Shared.Hands.{copies, copies-append, made, made-next}
use statsgod.Pool.Accounts.{
  Balances, create_connection-Balances, create_connections-Balances, create_connection-ok,
  create_connection-failed, IsDialable,
}

-- Each connection that a dial has made is in the channel or closed, if it was so before.
abbrev pub Keeps : Network → World → World → Type 0
Keeps net w v =
    (k : ℕ)
    → copies k v.connections + copies k v.closed + made net w.dials k
      ≡ copies k w.connections + copies k w.closed + made net v.dials k

module _ (net : Network) where
  create_connection-Keeps :
      (w v : World) (lent size conn_type : ℕ) (r : Bool × Option PoolError)
      → Balances (suc lent) size conn_type w
      → create_connection net w ≡ done (r, v)
      → Keeps net w v
  unfolding copies
  create_connection-Keeps w v lent size conn_type r b e = elim (Bool-cases (net.dial_ok w.dials)) [
    | inl ok ↦
        let same =
          done-injective
            (sym (create_connection-ok net w (ground arith) (rw b.type_is b.dialable) ok) ∙ e) in
        subst (λ x. Keeps net w x.1) same
          (λ k.
            ground
              (arith, ok, made-next net w.dials k, copies-append k w.connections (w.dials ∷ [])))
    | inr failed ↦
        let same = done-injective (
          sym (create_connection-failed net w (ground arith) (rw b.type_is b.dialable) failed)
          ∙ e) in
        subst (λ x. Keeps net w x.1) same (λ k. ground (arith, failed, made-next net w.dials k))
  ]

  create_connections-Keeps :
      (rounds errors size conn_type n : ℕ) (w v : World)
      → Balances rounds size conn_type w
      → create_connections net rounds errors w ≡ done (n, v)
      → Keeps net w v
  unfolding create_connections
  create_connections-Keeps zero errors size conn_type n w v b e =
      subst (λ x. Keeps net w x.1) (done-injective e) (λ k. omega arith)
  create_connections-Keeps (suc rounds) errors size conn_type n w v b e =
      let (added, err, u, c, b', ok, count, dialed_ok, lines, sent, left) =
        create_connection-Balances net w rounds size conn_type b in
      let e' = rw (c, ◌>>=◌) at e in
      λ k. omega (
        arith,
        create_connection-Keeps w u rounds size conn_type (added, err) b c k,
        create_connections-Keeps rounds _ size conn_type n u v b' e' k,
      )

  -- A new pool, where none was before.
  pub create_connection_pool-owned :
      (size : ℕ) (addr : Bytes) (conn_type timeout : ℕ) (w v : World) (r : Option PoolError)
      → IsDialable conn_type
      → w.dials ≡ 0
      → w.closed ≡ []
      → create_connection_pool net size addr conn_type timeout w ≡ done (r, v)
      → (k : ℕ) → copies k v.connections + copies k v.closed ≡ made net v.dials k
  unfolding create_connection_pool copies made
  create_connection_pool-owned size addr conn_type timeout w v r d none_yet open_all h k =
      let start : World = record w {
        pool = record {
          size = size;
          connections = [];
          addr = addr;
          conn_type = conn_type;
          timeout = timeout;
          error_count = 0;
        };
      } in
      let balanced : Balances size size conn_type start = ground (arith, d) in
      let (u, e, b) = create_connections-Balances net size 0 size conn_type start balanced refl in
      let same = done-injective (rw (e, ◌>>=◌) at h) in
      let keeps =
        create_connections-Keeps size 0 size conn_type u.error_count start u balanced e k in
      let closed : copies k w.closed ≡ 0 = ap (copies k) open_all in
      let dials : made net w.dials k ≡ 0 = ground (arith, none_yet) in
      subst (λ x. copies k x.1.connections + copies k x.1.closed ≡ made net x.1.dials k) same
        (omega (arith, keeps, closed, dials))
