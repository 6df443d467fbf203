-- ===== src/Service/Relaying.antt =====
-- The relay goroutines that `main` has started, on the pool that it has created.
use mathlib.Core.Path.{subst}
use statsgod.Prelude.{
  All, refl, inr, ◌∙◌, sym, ap, zero, arith, ◌∷◌, ◌++◌, inl, suc, [], Bytes, length, ◌≡◌, List,
  Option, ℕ,
}
use statsgod.Service.Started.{start-made}
use statsgod.Service.{start, Service}
use statsgod.Config.{ConfigValues}
use statsgod.Carbon.{Affixes}
use statsgod.Shared.Created.{create_connection_pool-owned}
use statsgod.Shared.Hands.{has}
use statsgod.Shared.Reached.{IsShared, IsOwned, Reach-IsOwned, total_has}
use statsgod.Relay.Create.{create_relay-pool, create_relay-full, relay_type_carbon}
use statsgod.Pool.Accounts.{Balances}
use statsgod.Pool.{conn_pool_type_tcp, World, Network}
use statsgod.Prelude.Outcome.{done, done-injective}
use statsgod.Shared.{Pc, idle, timed_out, System, Reach}
use statsgod.Shared.Places.{IsBounded, panics-done, total_holds, holds}
use statsgod.Shared.Moves.{IsMoved}
use statsgod.Shared.Progress.{Reach-IsMoved, timeouts, missing}

-- As many goroutines as this, before their first send.
unfoldable pub resting : ℕ → List Pc
resting zero = []
resting (suc n) = idle ∷ resting n

resting-total_holds : (n : ℕ) → total_holds (resting n) ≡ 0
unfolding resting total_holds holds
resting-total_holds zero = refl
resting-total_holds (suc n) = ground (arith, resting-total_holds n)

resting-total_has : (k n : ℕ) → total_has k (resting n) ≡ 0
unfolding resting has
resting-total_has k zero = refl
resting-total_has k (suc n) = ground (arith, resting-total_has k n)

resting-timeouts : (n : ℕ) → timeouts (resting n) ≡ 0
unfolding resting timeouts missing
resting-timeouts zero = refl
resting-timeouts (suc n) = ground (arith, resting-timeouts n)

resting-IsBounded : (size held : ℕ) (w : World) (n : ℕ) → All (IsBounded size held w) (resting n)
unfolding resting
resting-IsBounded size held w zero = tt
resting-IsBounded size held w (suc n) =
    ((λ k e. absurd (ground arith)), resting-IsBounded size held w n)

length-resting : (n : ℕ) → length (resting n) ≡ n
unfolding resting
length-resting zero = refl
length-resting (suc n) = ground (arith, length-resting n)

module _ (net : Network) (visited : Affixes → Affixes) (profile_error : Option Bytes)
    (config : ConfigValues) (w v : World) (service : Service) where
  -- The pool has a connection for each place.
  start-Balances :
      config.relay.type ≡ relay_type_carbon
      → start net visited profile_error config w ≡ done (service, v)
      → Balances 0 config.relay.concurrency conn_pool_type_tcp v
  start-Balances e h =
      let (created, relays, tcp, udp, unix) =
        start-made net visited profile_error config w v service h in
      elim (create_relay-full net visited config w e) [
        | inl (all, x, made, filled, b) ↦
            subst (Balances 0 config.relay.concurrency conn_pool_type_tcp)
              (ap (λ r. r.1) (done-injective (sym made ∙ created))) b
        | inr (fails, died) ↦ absurd (panics-done (sym died ∙ created))
      ]

  start-IsShared :
      config.relay.type ≡ relay_type_carbon
      → start net visited profile_error config w ≡ done (service, v)
      → IsShared config.relay.concurrency conn_pool_type_tcp
          (record { world = v; threads = resting service.relays })
  start-IsShared e h = record {
    lost = 0;
    balanced =
        subst (λ n. Balances n config.relay.concurrency conn_pool_type_tcp v)
          (ground (arith, resting-total_holds service.relays)) (start-Balances e h);
    exact = λ none. refl;
    reads = resting-IsBounded config.relay.concurrency _ v service.relays;
  }

  -- If `main` has started the service with the carbon relay: in whatever order its relay goroutines have
  -- run, as long as no failed dial has been counted since, any of them can make its next step, which does not panic,
  -- wait for ever or time out, keeps the account of the pool, and brings its try nearer to its end, which
  -- is 6 steps away at most, or starts it.
  pub start-IsMoved :
      (payload : Bytes) (t : System) (before after : List Pc) (p : Pc)
      → config.relay.type ≡ relay_type_carbon
      → start net visited profile_error config w ≡ done (service, v)
      → Reach net (record { world = v; threads = resting service.relays }) t
      → t.world.error_count ≡ 0
      → t.threads ≡ before ++ p ∷ after
      → (i : IsMoved net payload config.relay.concurrency conn_pool_type_tcp
          (total_holds (before ++ after))
          p
          t.world)
        × (¬ i.pc ≡ timed_out)
  start-IsMoved payload t before after p e h r none_failed at =
      let (created, relays, tcp, udp, unix) =
        start-made net visited profile_error config w v service h in
      Reach-IsMoved net payload config.relay.concurrency conn_pool_type_tcp _ t before after p
        (start-IsShared e h) (omega (arith, length-resting service.relays, relays))
        (resting-timeouts service.relays) r none_failed at

  -- If `main` has started the service with the carbon relay, before any dial and with no connection
  -- closed: in whatever order its relay goroutines have run, each connection that a dial has made stands in
  -- one place and only there: in the channel, in the hands of one goroutine, or among the closed ones.
  pub start-IsOwned :
      (t : System) (k : ℕ)
      → config.relay.type ≡ relay_type_carbon
      → w.dials ≡ 0
      → w.closed ≡ []
      → start net visited profile_error config w ≡ done (service, v)
      → Reach net (record { world = v; threads = resting service.relays }) t
      → IsOwned net t k
  start-IsOwned t k e none_yet open_all h r =
      let (created, relays, tcp, udp, unix) =
        start-made net visited profile_error config w v service h in
      let (failed, pool) = create_relay-pool net visited config w v service.relay e created in
      let owned =
        create_connection_pool-owned net config.relay.concurrency _ conn_pool_type_tcp
          config.relay.timeout w v failed refl none_yet open_all pool k in
      Reach-IsOwned net config.relay.concurrency conn_pool_type_tcp _ t k r (start-IsShared e h)
        (omega (arith, owned, resting-total_has k service.relays))
