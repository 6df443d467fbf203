-- ===== src/Tests/Relaying.antt =====
-- The connection pool and the relay.
use statsgod.Statistics.{mean, sort, median}
use statsgod.Float.Fixed.{fixed}
use statsgod.Pool.Release.{release-recreated}
use statsgod.Prelude.Int.{pos}
use statsgod.Prelude.Outcome.{done}
use statsgod.Metric.Process.{process_metric, second}
use statsgod.Float.Fixed.{Fixed}
use statsgod.Metric.{metric_type_gauge, create_simple_metric, Metric}
use statsgod.Carbon.Lines.{carbon_relay-lines_of, lines_of, IsHealthy}
use statsgod.Carbon.{namespace_type_gauge, carbon_relay, try_send, CarbonRelay, send_payload}
use statsgod.Carbon.Retry.{send_payload-SendResult, SendResult}
use statsgod.Pool.Accounts.{create_connection_pool-Balances, Balances}
use statsgod.Prelude.{
  refl, none, ◌+◌, length, ltb, ◌++◌, if◌then◌else◌, ◌==◌, ◌≡◌, some, arith, [], codes, not, ◌*◌,
  Option, ◌∷◌, ℕ, true, Bool, List,
}
use statsgod.Pool.{
  connections_failed, create_connection, dialed, release_connection, get_connection, PoolError,
  conn_pool_type_tcp, create_connection_pool, World, Network,
}

-- Every dial succeeds; the first write fails.
abbrev pub net : Network
net = record { dial_ok = λ n. true; write_ok = λ n. not (n == 0) }

abbrev pub world : List ℕ → ℕ → World
world connections error_count = record {
  pool = record {
    size = 2;
    connections = connections;
    addr = codes "localhost:2003";
    conn_type = conn_pool_type_tcp;
    timeout = second;
    error_count = error_count;
  };
  dials = 2;
  writes = 0;
  closed = [];
  delivered = [];
}

abbrev pub two : World
two = world (0 ∷ 1 ∷ []) 0

pool_filled :
    (v : World) × (create_connection_pool net 2
        (codes "localhost:2003")
        conn_pool_type_tcp
        second
        (world [] 0)
      ≡ done (if ltb 0 v.error_count then some (connections_failed v.error_count) else none, v))
    × Balances 0 2 conn_pool_type_tcp v
pool_filled =
    create_connection_pool-Balances net 2 (codes "localhost:2003") conn_pool_type_tcp second
      (world [] 0) refl

pub two-Balances : Balances 0 2 conn_pool_type_tcp two
two-Balances = ground arith

lent-Balances : Balances 1 2 conn_pool_type_tcp (world (1 ∷ []) 0)
lent-Balances = ground arith

replaced :
    (added : Bool) × (err : Option PoolError) × (v : World) × (release_connection net
        (dialed 0)
        true
        (world (1 ∷ []) 0)
      ≡ done ((added, err), v))
    × Balances 0 2 conn_pool_type_tcp v
    × (added ≡ true)
    × (v.delivered ≡ [])
    × (v.writes ≡ 0)
    × (length v.connections ≡ 1 + (if added then 1 else 0))
replaced = release-recreated net 0 0 2 conn_pool_type_tcp (world (1 ∷ []) 0) lent-Balances

send_payload-SendResult_example :
    SendResult net 2 conn_pool_type_tcp
      (codes "a 1 2")
      two
      (send_payload net (codes "a 1 2") true two)
send_payload-SendResult_example =
    send_payload-SendResult net 2 conn_pool_type_tcp (codes "a 1 2") two two-Balances

-- The second try delivers the line.
second_try :
    (v : World) × (send_payload net (codes "a 1 2") true two ≡ done (true, v))
    × (v.delivered ≡ codes "a 1 2" ∷ [])
unfolding send_payload try_send get_connection release_connection create_connection
second_try = (_, refl, refl)

abbrev pub steady : Network
steady = record { dial_ok = λ n. true; write_ok = λ n. true }

pub two-IsHealthy : IsHealthy steady 2 conn_pool_type_tcp two
two-IsHealthy = record { balanced = two-Balances; filled = ground arith }

abbrev relay : CarbonRelay
relay = record {
  flush_interval = 10 * second;
  percentile = [];
  prefixes = (namespace_type_gauge, codes "stats.") ∷ [];
  suffixes = [];
}

abbrev gauge : Metric Fixed
gauge = create_simple_metric (codes "g") (some (pos 5000)) metric_type_gauge

abbrev flushed : Metric Fixed
flushed = record gauge { median_value = some (pos 5000); mean_value = some (pos 5000) }

carbon_relay-lines_of_example :
    (v : World) × (carbon_relay steady relay gauge two ≡ done (true, v))
    × (v.delivered ≡ [] ++ lines_of relay flushed)
    × IsHealthy steady 2 conn_pool_type_tcp v
carbon_relay-lines_of_example =
    carbon_relay-lines_of steady 2 conn_pool_type_tcp (λ n. refl) relay gauge flushed two
      (unfold process_metric create_simple_metric median sort mean fixed in refl) two-IsHealthy
