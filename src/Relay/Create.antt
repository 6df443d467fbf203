-- ===== src/Relay/Create.antt =====
-- statsgod/relay.go: `CreateRelay`.
use statsgod.Carbon.Namespace.{set_prefixes_and_suffixes}
use statsgod.Pool.Accounts.{
  create_connection_pool-Counts, SomeFails, AllDial, create_connection_pool-Balances, Balances,
}
use statsgod.Relay.{mock, carbon, MetricRelay}
use statsgod.Decimal.{itoa}
use statsgod.Carbon.{CarbonRelay, Affixes}
use statsgod.Config.{ConfigValues}
use statsgod.Prelude.{
  false, ◌∙◌, ap, Option, refl, arith, inr, inl, ltb, Bool-cases, bytes_eq_iff, true, none, [], ◌⊎◌,
  some, bytes_eq, length, if◌then◌else◌, ◌≡◌, ◌∷◌, ◌++◌, codes, Bytes,
}
use statsgod.Pool.{
  PoolError, return, conn_pool_type_tcp, create_connection_pool, World, M, Network, ◌>>=◌,
}
use statsgod.Prelude.Outcome.{done-injective, done, panics}

abbrev pub relay_type_carbon : Bytes
relay_type_carbon = codes "carbon"

abbrev pub relay_type_mock : Bytes
relay_type_mock = codes "mock"

-- "host:port"
abbrev pub carbon_addr : ConfigValues → Bytes
carbon_addr config = config.carbon.host ++ b':' ∷ itoa config.carbon.port

abbrev pub fatal_message : ConfigValues → Bytes
fatal_message config =
    codes "Fatal error, could not create a connection pool to " ++ carbon_addr config

abbrev pub carbon_relay_of : (Affixes → Affixes) → ConfigValues → CarbonRelay
carbon_relay_of visited config = set_prefixes_and_suffixes visited config.namespace (record {
  flush_interval = config.relay.flush;
  percentile = config.percentile;
  prefixes = [];
  suffixes = [];
})

-- The pool stands in the world that is returned.
unfoldable pub create_relay : Network → (Affixes → Affixes) → ConfigValues → M MetricRelay
create_relay net visited config =
    if bytes_eq config.relay.type relay_type_carbon
    then (do
      err ←
          create_connection_pool net config.relay.concurrency (carbon_addr config)
            conn_pool_type_tcp config.relay.timeout
      elim err [
        | some e ↦ λ w. panics (fatal_message config)
        | none ↦ return (carbon (carbon_relay_of visited config))
      ])
    else return (mock config.relay.flush config.percentile)

module _ (net : Network) (visited : Affixes → Affixes) (config : ConfigValues) where
  -- If the configured type is the carbon relay and the next dials, as many as `Relay.Concurrency` says, all
  -- succeed, that relay is created, and the pool has as many connections. If one of these dials fails,
  -- the process panics with the address of carbon in its message.
  pub create_relay-full :
      (w : World)
      → config.relay.type ≡ relay_type_carbon
      → (AllDial net w.dials config.relay.concurrency
          × (v : World) × (create_relay net visited config w
              ≡ done (carbon (carbon_relay_of visited config), v))
          × (length v.connections ≡ config.relay.concurrency)
          × Balances 0 config.relay.concurrency conn_pool_type_tcp v)
        ⊎ (SomeFails net w.dials config.relay.concurrency
            × (create_relay net visited config w ≡ panics (fatal_message config)))
  unfolding create_relay
  create_relay-full w e =
      let (v, made, b) =
        create_connection_pool-Balances net config.relay.concurrency (carbon_addr config)
          conn_pool_type_tcp config.relay.timeout w refl in
      let carbon_type : bytes_eq config.relay.type relay_type_carbon ≡ true =
        (bytes_eq_iff config.relay.type relay_type_carbon).1 e in
      elim (create_connection_pool-Counts net config.relay.concurrency (carbon_addr config)
        conn_pool_type_tcp config.relay.timeout _ w v refl made) [
          | inr (fails, counted) ↦
              let some_failed : ltb 0 v.error_count ≡ true = ground arith in
              inr (fails, rw (carbon_type, made, some_failed, ◌>>=◌) refl)
          | inl (all, none_counted) ↦
              let none_failed : ltb 0 v.error_count ≡ false = ground arith in
              inl (
                all,
                v,
                rw (carbon_type, made, none_failed, ◌>>=◌) refl,
                ground (arith, b.places),
                b,
              )
        ]

  -- The pool of a carbon relay that was created.
  pub create_relay-pool :
      (w v : World) (r : MetricRelay)
      → config.relay.type ≡ relay_type_carbon
      → create_relay net visited config w ≡ done (r, v)
      → (e : Option PoolError) × (create_connection_pool net config.relay.concurrency
            (carbon_addr config)
            conn_pool_type_tcp
            config.relay.timeout
            w
          ≡ done (e, v))
  unfolding create_relay
  create_relay-pool w v r is_carbon h =
      let (x, made, b) =
        create_connection_pool-Balances net config.relay.concurrency (carbon_addr config)
          conn_pool_type_tcp config.relay.timeout w refl in
      let carbon_type : bytes_eq config.relay.type relay_type_carbon ≡ true =
        (bytes_eq_iff config.relay.type relay_type_carbon).1 is_carbon in
      elim (Bool-cases (ltb 0 x.error_count)) [
        | inl some_failed ↦
            absurd (ground (arith, (rw (carbon_type, made, some_failed, ◌>>=◌) at h)))
        | inr none_failed ↦
            let same : x ≡ v =
              ap (λ y. y.1) (done-injective (rw (carbon_type, made, none_failed, ◌>>=◌) at h)) in
            (none, made ∙ rw none_failed (ap (λ y. done (none, y)) same))
      ]
