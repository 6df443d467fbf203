-- ===== src/Tests/Delivering.antt =====
-- Two connections, the parse loop and two relay goroutines in one schedule, and the connections of the
-- pool since the start.
use statsgod.Relay.{prepare_runtime_metrics, prepare_flush_metrics}
use statsgod.Relay.Emptied.{without}
use statsgod.Tests.Serving.{tick}
use statsgod.Config.{new_config}
use statsgod.Prelude.Outcome.{done}
use statsgod.Carbon.Namespace.{set_prefixes_and_suffixes}
use statsgod.Decimal.{itoa}
use statsgod.Logger.{create_logger}
use statsgod.Tests.Serving.{turned}
use statsgod.Service.Relaying.{start-IsOwned, resting}
use statsgod.Relay.Create.{create_relay}
use statsgod.Tests.Relaying.{steady, two}
use statsgod.Shared.Reached.{IsOwned}
use statsgod.Shared.{run, here, next, Reach, idle, writing, step, System}
use statsgod.Service.{start}
use statsgod.Pool.{
  create_connection, create_connections, create_connection_pool, get_connection, World,
}
use statsgod.Prelude.Dict.{insert, lookup}
use statsgod.Metric.Aggregate.{combine, aggregate_metric}
use statsgod.Utf8.{string_of, runes}
use statsgod.Metric.Parse.{
  sample_rate_of, get_metric_type, build_metric, unless_full, scan_rune, scan, parse_metric_string,
}
use statsgod.Ingest.{handle_message}
use statsgod.Channels.Costs.{total_cost}
use statsgod.Channels.Progress.{IsIdle}
use statsgod.Channels.Drained.{IsDelivered, run_fresh-IsDelivered}
use statsgod.Tests.Running.{started, tcp_config, parsed}
use statsgod.Auth.{create_auth, authenticate, auth_none}
use statsgod.Channels.Accounted.{fresh, run_fresh-IsAccounted, IsAccounted}
use statsgod.Float.Fixed.{fixed, Fixed}
use statsgod.Prelude.{
  refl, bytes_eq, arith, ◌≤◌, length, ◌+◌, none, some, ◌≡◌, ◌∷◌, codes, [], Bytes, List,
}
use statsgod.Metric.Aggregate.{combine}
use statsgod.Channels.{
  flush_map, flushes, update_at, push_metric, parse_message, take_from, pushes, receives, send_on,
  parses, receive_metric, send_message, sends, act, Action, run_schedule, Channels,
}

-- The first message has no value, and makes no metric.
abbrev two_clients : List (List Bytes)
two_clients = (codes "ab" ∷ []) ∷ (codes "a:1|c" ∷ codes "a:1|c" ∷ codes "a:2|c" ∷ []) ∷ []

-- The second connection is first; the second relay goroutine receives its first metric, flushes it, and
-- receives the next one.
abbrev one_received : List Action
one_received =
    sends 1
    ∷ sends 0
    ∷ parses
    ∷ pushes
    ∷ receives 1
    ∷ flushes 1 new_config tick
    ∷ parses
    ∷ sends 1
    ∷ parses
    ∷ pushes
    ∷ receives 1
    ∷ []

abbrev reached : Channels Fixed
reached = record {
  clients = [] ∷ (codes "a:2|c" ∷ []) ∷ [];
  parse_channel = [];
  parsing = [];
  relay_channel = [];
  relays =
      record { metrics = []; relayed = [] }
      ∷ record {
        metrics = (codes "a", parsed 1) ∷ [];
        relayed = ((codes "a", parsed 1) ∷ []) ∷ [] ∷ [];
      }
      ∷ [];
}

received_once : run_schedule auth_none one_received (fresh auth_none two_clients 2) ≡ some reached
unfolding run_schedule act send_message send_on take_from parse_message push_metric receive_metric
    update_at fixed handle_message authenticate parse_metric_string scan runes scan_rune unless_full
    build_metric string_of get_metric_type bytes_eq sample_rate_of aggregate_metric lookup insert
    combine flush_map without prepare_flush_metrics prepare_runtime_metrics
received_once = refl

-- A relay goroutine waits where the channel is empty.
waits : run_schedule auth_none (receives 0 ∷ []) reached ≡ none
unfolding run_schedule act receive_metric
waits = refl

run_fresh-IsAccounted_example : IsAccounted auth_none two_clients reached
run_fresh-IsAccounted_example =
    run_fresh-IsAccounted auth_none two_clients 2 one_received reached received_once

run_fresh-IsDelivered_example :
    (more : List Action) × (u : Channels Fixed) × (run_schedule auth_none more reached ≡ some u)
    × IsIdle u
    × IsDelivered auth_none two_clients u
    × (total_cost one_received + length more ≤ 16)
run_fresh-IsDelivered_example =
    run_fresh-IsDelivered auth_none two_clients 2 one_received reached (omega arith) received_once

-- The service starts, and its first relay goroutine takes the older of the two connections.
abbrev undialed : World
undialed = record two { dials = 0 }

abbrev dialed_two : World
dialed_two = record two { pool = record two.pool { addr = codes ":0" } }

undialed-start : start steady turned none tcp_config undialed ≡ done (started none, dialed_two)
unfolding start create_relay create_connection_pool create_connections create_connection create_auth
    create_logger bytes_eq itoa set_prefixes_and_suffixes
undialed-start = refl

abbrev zero_taken : System
zero_taken = record {
  world = record dialed_two { pool = record dialed_two.pool { connections = 1 ∷ [] } };
  threads = writing 0 ∷ idle ∷ [];
}

zero_taken-Reach : Reach steady (record { world = dialed_two; threads = resting 2 }) zero_taken
unfolding step get_connection resting
zero_taken-Reach =
    next here (run (codes "a 1 2") [] (idle ∷ []) idle (writing 0) zero_taken.world refl refl refl)

start-IsOwned_example : IsOwned steady zero_taken 0
start-IsOwned_example =
    start-IsOwned steady turned none tcp_config undialed dialed_two (started none) zero_taken 0 refl
      refl refl undialed-start zero_taken-Reach
