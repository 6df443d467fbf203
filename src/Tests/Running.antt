-- ===== src/Tests/Running.antt =====
-- The service as a whole: its start, its signals and its end, and several goroutines on one pool.
use statsgod.Relay.Emptied.{insert_visited, visited}
use statsgod.Metric.Process.{process_metric}
use statsgod.Metric.Aggregate.{combine, aggregate_metric, aggregate_all}
use statsgod.Ingest.{parse_metrics}
use statsgod.Carbon.Lines.{lines_of, IsHealthy}
use statsgod.Carbon.Namespace.{set_prefixes_and_suffixes}
use statsgod.Decimal.{itoa}
use statsgod.Auth.{create_auth, auth_none}
use statsgod.Relay.Create.{create_relay, carbon_relay_of}
use statsgod.Relay.{prepare_flush_metrics, prepare_runtime_metrics, carbon}
use statsgod.Carbon.{carbon_payload, affix, apply_prefix_and_suffix}
use statsgod.Prelude.Outcome.{done}
use statsgod.Logger.{stderr, stdout, discard, create_logger}
use statsgod.Prelude.Int.{pos}
use statsgod.Pool.{
  create_connection, create_connection_pool, conn_pool_type_tcp, get_connection, World,
}
use statsgod.Socket.Listener.{
  nil_dereference, open_listener, tcp_socket, block_for_socket, SocketKind,
}
use statsgod.Config.{load_file, new_config, ConfigValues}
use statsgod.Tests.Relaying.{world}
use statsgod.Shared.{
  counting, failing, timed_out, run, here, next, writing, Reach, idle, step, System,
}
use statsgod.Prelude.{
  refl, bytes_eq, arith, ◌++◌, ◌*◌, inl, [], ◌+◌, ◌⊎◌, ◌∷◌, some, ◌==◌, ◌≡◌, Bytes, true, none,
  Option, codes, ℕ,
}
use statsgod.Float.Fixed.{fixed, Fixed}
use statsgod.Tests.Relaying.{steady, two, two-IsHealthy, two-Balances}
use statsgod.Socket.{split_from}
use statsgod.Ingest.{handle_message}
use statsgod.Auth.{authenticate}
use statsgod.Metric.Parse.{
  parse_metric_string, scan, scan_rune, unless_full, build_metric, get_metric_type, sample_rate_of,
}
use statsgod.Utf8.{runes, string_of}
use statsgod.Tests.Flushing.{thousand}
use statsgod.Relay.Lines.{relayed_lines}
use statsgod.Metric.{new_metric, metric_type_counter, Metric}
use statsgod.Socket.{messages}
use statsgod.Socket.Reassembly.{lines}
use statsgod.Prelude.Dict.{insert, lookup}
use statsgod.Tests.Serving.{a_lines, env, tick, bare, carbon_config, turned}
use statsgod.Socket.Listener.Blocking.{block_for_socket-IsReturn, IsReturn}
use statsgod.Service.{sigint, sigterm, sighup, start, Service, listen_for_signals}
use statsgod.Service.Started.{start-shut_down}
use statsgod.Service.Shutdown.{shut_down, open_sockets}
use statsgod.Service.Reload.{shut_down-unreadable, listen_for_signals-reloaded}
use statsgod.Service.Relaying.{resting, start-IsMoved}
use statsgod.Service.Pipeline.{arrivals, serve, serve-lines}
use statsgod.Shared.Places.{holds, total_holds}
use statsgod.Shared.Moves.{IsMoved}
use statsgod.Shared.Reached.{IsShared, IsFilled, Reach-IsFilled}
use statsgod.Shared.Hands.{hands, failures}
use statsgod.Shared.Progress.{missing, timeouts, Reach-IsMoved}

-- The socket becomes active in the third round.
block_for_socket-IsReturn_example :
    (r : ℕ) × (block_for_socket 5 (λ i. i == 2) (λ k. (k + 1) * 1000) 4000 0 ≡ some r)
    × IsReturn (λ i. i == 2) (λ k. (k + 1) * 1000) 4000 r
block_for_socket-IsReturn_example =
    block_for_socket-IsReturn (λ i. i == 2) (λ k. (k + 1) * 1000) 4000 5 (λ k. omega arith)
      (omega arith)

abbrev begun : System
begun = record { world = two; threads = idle ∷ idle ∷ [] }

-- The first goroutine has taken a connection.
abbrev taken : System
taken = record { world = world (1 ∷ []) 0; threads = writing 0 ∷ idle ∷ [] }

taken-Reach : Reach steady begun taken
unfolding step get_connection
taken-Reach =
    next here
      (run (codes "a 1 2") [] (idle ∷ []) idle (writing 0) (world (1 ∷ []) 0) refl refl refl)

begun-IsShared : IsShared 2 conn_pool_type_tcp begun
unfolding total_holds holds
begun-IsShared = record {
  lost = 0;
  balanced = two-Balances;
  exact = λ none. refl;
  reads = ((λ n e. absurd (ground arith)), ((λ n e. absurd (ground arith)), tt));
}

Reach-IsFilled_example : IsFilled steady 2 taken × IsShared 2 conn_pool_type_tcp taken
unfolding hands failures
Reach-IsFilled_example =
    Reach-IsFilled steady 2 conn_pool_type_tcp 2 begun taken taken-Reach begun-IsShared
      (ground arith)

-- Both goroutines have read the count before one writes it: of two failed dials one is counted.
overwritten :
    Reach steady
      (record { world = world [] 0; threads = failing ∷ failing ∷ [] })
      (record { world = world [] 1; threads = idle ∷ idle ∷ [] })
unfolding step
overwritten =
    let reads_first = run [] [] (failing ∷ []) failing (counting 0) (world [] 0) refl refl refl in
    let reads_second =
      run [] (counting 0 ∷ []) [] failing (counting 0) (world [] 0) refl refl refl in
    let writes_first = run [] [] (counting 0 ∷ []) (counting 0) idle (world [] 1) refl refl refl in
    let writes_second = run [] (idle ∷ []) [] (counting 0) idle (world [] 1) refl refl refl in
    next (next (next (next here reads_first) reads_second) writes_first) writes_second

taken_next :
    (i : IsMoved steady
      (codes "b 3 4")
      2
      conn_pool_type_tcp
      (total_holds (writing 0 ∷ [] ++ []))
      idle
      taken.world)
    × (¬ i.pc ≡ timed_out)
unfolding timeouts missing
taken_next =
    Reach-IsMoved steady (codes "b 3 4") 2 conn_pool_type_tcp begun taken (writing 0 ∷ []) [] idle
      begun-IsShared (ground arith) refl taken-Reach refl refl

one_reload :
    listen_for_signals env (codes "x") (sighup ∷ sigterm ∷ sighup ∷ []) new_config
    ≡ ((load_file env (codes "x") new_config).0, true)
one_reload = listen_for_signals-reloaded env (codes "x") (sighup ∷ sigterm ∷ sighup ∷ []) new_config

-- Just the TCP socket is enabled.
abbrev pub tcp_config : ConfigValues
tcp_config = record carbon_config {
  tcp = record carbon_config.tcp { enabled = true; host = codes "localhost"; port = pos 8125 };
}

abbrev pub started : Option Bytes → Service
started listener = record {
  logger = create_logger discard stdout stdout stderr;
  relay = carbon (carbon_relay_of turned tcp_config);
  auth = auth_none;
  relays = 2;
  socket_tcp =
      some (record { kind = tcp_socket; addr = codes "localhost:8125"; listener = listener });
  socket_udp = none;
  socket_unix = none;
}

abbrev net_listen : SocketKind → Bytes → Bytes ⊎ Bytes
net_listen kind addr = inl addr

-- Two goroutines relay, and both connections are made.
abbrev tcp_world : World
tcp_world = record two {
  pool = record two.pool { connections = 2 ∷ 3 ∷ []; addr = codes ":0" };
  dials = 4;
}

tcp-start : start steady turned none tcp_config two ≡ done (started none, tcp_world)
unfolding start create_relay create_connection_pool create_connection create_auth create_logger
    bytes_eq itoa set_prefixes_and_suffixes
tcp-start = refl

tcp-opens : open_sockets net_listen (started none) ≡ done (started (some (codes "localhost:8125")))
unfolding open_sockets open_listener
tcp-opens = refl

-- The two goroutines that were started, the second of which has taken a connection.
abbrev rested : System
rested = record { world = tcp_world; threads = resting 2 }

abbrev one_took : System
one_took = record {
  world = record tcp_world { pool = record tcp_world.pool { connections = 3 ∷ [] } };
  threads = idle ∷ writing 2 ∷ [];
}

one_took-Reach : Reach steady rested one_took
unfolding step get_connection resting
one_took-Reach =
    next here (run (codes "a 1 2") (idle ∷ []) [] idle (writing 2) one_took.world refl refl refl)

start-IsMoved_example :
    (i : IsMoved steady
      (codes "b 3 4")
      2
      conn_pool_type_tcp
      (total_holds (writing 2 ∷ []))
      idle
      one_took.world)
    × (¬ i.pc ≡ timed_out)
start-IsMoved_example =
    start-IsMoved steady turned none tcp_config two tcp_world (started none) (codes "b 3 4")
      one_took [] (writing 2 ∷ []) idle refl tcp-start one_took-Reach refl refl

abbrev both_config : ConfigValues
both_config = record tcp_config { udp = record tcp_config.udp { enabled = true } }

start-shut_down_example :
    shut_down both_config (started (some (codes "localhost:8125"))) ≡ nil_dereference
start-shut_down_example =
    start-shut_down steady turned none net_listen tcp_config both_config two tcp_world
      (started none) (started (some (codes "localhost:8125"))) tcp-start tcp-opens

shut_down-unreadable_example :
    shut_down
      (listen_for_signals env (codes "y") (sighup ∷ sigint ∷ []) tcp_config).0
      (started (some (codes "localhost:8125")))
    ≡ nil_dereference
shut_down-unreadable_example =
    shut_down-unreadable env (codes "y") steady turned none net_listen tcp_config two tcp_world
      (started none) (started (some (codes "localhost:8125"))) (codes "no such file")
      (sighup ∷ sigint ∷ []) 0 tcp-start tcp-opens (λ h. ground arith) (unfold bytes_eq in refl)
      refl

abbrev text : Bytes
text = codes "a:1|c\na:2|c\n"

abbrev pub parsed : ℕ → Metric Fixed
parsed n = record new_metric {
  key = codes "a";
  metric_type = metric_type_counter;
  total_hits = some (pos 1000);
  last_value = thousand n;
  all_values = thousand n ∷ [];
  sample_rate = some (pos 1000);
}

text-parsed :
    parse_metrics {F = Fixed} auth_none (arrivals (messages (lines text)))
    ≡ done (parsed 1 ∷ parsed 2 ∷ [])
unfolding arrivals fixed parse_metrics messages split_from handle_message authenticate
    parse_metric_string scan runes scan_rune unless_full build_metric string_of get_metric_type
    bytes_eq sample_rate_of
text-parsed = refl

text-relayed :
    relayed_lines {F = Fixed} bare tick.first_times (
      visited tick.first_order (
        prepare_runtime_metrics new_config tick.memory
          (aggregate_all [] (parsed 1 ∷ parsed 2 ∷ []))))
    ≡ done a_lines
unfolding visited insert_visited relayed_lines prepare_runtime_metrics aggregate_all fixed
    aggregate_metric lookup insert bytes_eq process_metric combine lines_of apply_prefix_and_suffix
    affix carbon_payload itoa
text-relayed = refl

serve-lines_example :
    (v : World) × (serve {F = Fixed} steady (carbon bare) new_config auth_none tick (text ∷ []) two
      ≡ done ([], v))
    × (v.delivered ≡ [] ++ a_lines ++ [])
    × IsHealthy steady 2 conn_pool_type_tcp v
serve-lines_example =
    serve-lines steady 2 conn_pool_type_tcp bare new_config auth_none tick (text ∷ [])
      (parsed 1 ∷ parsed 2 ∷ []) a_lines [] two (λ n. refl) (ground arith) text-parsed text-relayed
      (unfold visited insert_visited relayed_lines prepare_flush_metrics in refl) two-IsHealthy
