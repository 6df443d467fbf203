-- ===== src/Tests/Serving.antt =====
-- Configuration, sockets and the relay loop.
use statsgod.Relay.Emptied.{IsEachVisited, insert_visited, visited}
use statsgod.Decimal.{itoa}
use statsgod.Prelude.Dict.{insert, lookup}
use statsgod.Metric.Parse.{
  build_metric, unless_full, scan_rune, scan, parse_metric_string, missing_elements,
}
use statsgod.Pool.Accounts.{SomeFails, AllDial, Balances}
use statsgod.Utf8.{runes}
use statsgod.Socket.Reassembly.{IsStream, read_input-lines, join, lines}
use statsgod.Metric.{create_simple_metric}
use statsgod.Carbon.Lines.{lines_of, IsHealthy}
use statsgod.Relay.Interval.{relay_metrics-quit, relay_metrics-interval, received_in}
use statsgod.Prelude.Outcome.{panics, done}
use statsgod.Metric.Aggregate.{combine, aggregate_metric, aggregate_all}
use statsgod.Metric.Process.{process_metric, second}
use statsgod.Prelude.Int.{pos}
use statsgod.Relay.Create.{
  create_relay-full, fatal_message, carbon_relay_of, create_relay, relay_type_carbon,
}
use statsgod.Carbon.Namespace.{by_kind, set_prefixes_and_suffixes}
use statsgod.Carbon.Namespace.Dotted.{swap, apply-set_prefixes_and_suffixes, keep, empty, Reordered}
use statsgod.Relay.Lines.{relayed_lines}
use statsgod.Relay.{
  prepare_flush_metrics, carbon, millisecond, relay_metrics, prepare_runtime_metrics, Tick,
  RelayRound,
}
use statsgod.Socket.{split_from, messages, read_input}
use statsgod.Prelude.{
  true, refl, ◌⊎◌, length, arith, inr, none, zero, inl, some, ◌++◌, suc, ◌≡◌, bytes_eq, false, ◌*◌,
  ◌∷◌, codes, [], if◌then◌else◌, List, Bytes, ℕ,
}
use statsgod.Pool.{conn_pool_type_tcp, World}
use statsgod.Carbon.{
  carbon_payload, affix, namespace_type_gauge, apply_prefix_and_suffix, CarbonRelay, Affixes,
}
use statsgod.Config.Loaded.{default_config, load_file-unreadable, load_file-IsLoaded, IsLoaded}
use statsgod.Config.{
  new_config, create_config, is_alphanumeric, replace_all, get_hostname, fill_lists, set_defaults,
  NamespaceValues, load_file, ConfigValues, Environment,
}
use statsgod.Float.Fixed.{Fixed, fixed}
use statsgod.Tests.Relaying.{steady, two, two-IsHealthy}
use statsgod.Tests.Flushing.{sent}

-- The YAML reader sets no value; the file `x` can be read.
abbrev pub env : Environment Bytes
env = record {
  read_file = λ path. if bytes_eq path (codes "x") then inl [] else inr (codes "no such file");
  unmarshal = λ contents config. (config, none);
  os_hostname = some (codes "web 1");
}

abbrev config : ConfigValues
config = (create_config env (codes "x")).0

load_file-IsLoaded_example : IsLoaded (load_file env (codes "x") new_config).0
load_file-IsLoaded_example = load_file-IsLoaded env (codes "x") new_config

host_of_config : config.service.hostname ≡ codes "web-1"
unfolding create_config load_file set_defaults fill_lists get_hostname replace_all is_alphanumeric
    runes bytes_eq
host_of_config = refl

load_file-unreadable_example :
    (load_file env (codes "y") new_config ≡ (
      default_config
          (pos 80 ∷ [])
          ((codes "token-name", false) ∷ [])
          (get_hostname (some (codes "web 1")) []),
      some (codes "no such file"),
    ))
    × (load_file env (codes "y") (load_file env (codes "y") new_config).0
        ≡ load_file env (codes "y") new_config)
load_file-unreadable_example =
    load_file-unreadable env (codes "y") (codes "no such file") new_config (λ h. ground arith)
      (unfold bytes_eq in refl)

abbrev ns : NamespaceValues
ns = record new_config.namespace {
  prefix = codes "stats";
  prefixes = record new_config.namespace.prefixes { gauges = codes "gauges" };
  suffix = codes "eu";
}

abbrev pub turned : Affixes → Affixes
turned [] = []
turned (x ∷ []) = x ∷ []
turned (x ∷ y ∷ m) = y ∷ x ∷ m

abbrev pub bare : CarbonRelay
bare = record { flush_interval = 10 * second; percentile = []; prefixes = []; suffixes = [] }

Reordered-self : (m : Affixes) → Reordered m m
Reordered-self [] = empty
Reordered-self (x ∷ m) = keep x (Reordered-self m)

apply-set_prefixes_and_suffixes_example :
    apply_prefix_and_suffix
      (set_prefixes_and_suffixes turned ns bare)
      (codes "load")
      namespace_type_gauge
    ≡ codes "stats.gauges.load.eu"
apply-set_prefixes_and_suffixes_example =
    apply-set_prefixes_and_suffixes turned namespace_type_gauge ns bare (codes "load")
      (unfold by_kind in swap _ _ _) (unfold by_kind in swap _ _ _) (ground arith)

abbrev pub carbon_config : ConfigValues
carbon_config = record new_config {
  relay = record {
    type = relay_type_carbon;
    concurrency = 2;
    timeout = second;
    flush = 10 * second;
  };
}

create_relay-full_example :
    (AllDial steady 2 2
      × (v : World) × (create_relay steady turned carbon_config two
          ≡ done (carbon (carbon_relay_of turned carbon_config), v))
      × (length v.connections ≡ 2)
      × Balances 0 2 conn_pool_type_tcp v)
    ⊎ (SomeFails steady 2 2
        × (create_relay steady turned carbon_config two ≡ panics (fatal_message carbon_config)))
create_relay-full_example = create_relay-full steady turned carbon_config two refl

abbrev repeated : ℕ → Bytes → Bytes
repeated zero s = []
repeated (suc n) s = s ++ repeated n s

-- 512 bytes: 85 lines and the beginning of another.
abbrev pub first_buffer : Bytes
first_buffer = repeated 85 (codes "a:1|c\n") ++ codes "ab"

abbrev pub second_buffer : Bytes
second_buffer = codes "c:2|c\n"

pub stream : IsStream Fixed [] (first_buffer ∷ second_buffer ∷ [])
stream = (
  refl,
  (
    missing_elements,
    unfold parse_metric_string split_from runes scan scan_rune unless_full build_metric in refl,
  ),
  (ground arith, ground arith),
)

read_input-lines_example :
    read_input Fixed [] (first_buffer ∷ second_buffer ∷ [])
    ≡ done (messages (lines ([] ++ join (first_buffer ∷ second_buffer ∷ []))))
read_input-lines_example = read_input-lines Fixed [] (first_buffer ∷ second_buffer ∷ []) stream

abbrev received_a : RelayRound Fixed
received_a = record { quit = false; received = some (sent "a" 1 0); tick = none }

abbrev pub tick : Tick
tick = record {
  memory = record { heap_alloc = 0; alloc = 0; sys = 0 };
  first_order = λ key. 0;
  second_order = length;
  first_times = λ key. pos 100;
  second_times = λ key. pos 101;
  duration = 5 * millisecond;
}

abbrev flushing : RelayRound Fixed
flushing = record { quit = false; received = some (sent "a" 2 0); tick = some tick }

abbrev quiet_config : ConfigValues
quiet_config = new_config

abbrev pub a_lines : List Bytes
a_lines = codes "a 0.300000 100\n" ∷ codes "a 3.000000 100\n" ∷ []

a-relayed_lines :
    relayed_lines {F = Fixed} bare tick.first_times (
      visited tick.first_order (
        prepare_runtime_metrics quiet_config tick.memory
          (aggregate_all [] (received_in (received_a ∷ flushing ∷ [])))))
    ≡ done a_lines
unfolding visited insert_visited relayed_lines prepare_runtime_metrics aggregate_all received_in
    create_simple_metric fixed aggregate_metric lookup insert bytes_eq process_metric combine
    lines_of apply_prefix_and_suffix affix carbon_payload itoa
a-relayed_lines = refl

relay_metrics-interval_example :
    (v : World) × (relay_metrics steady
        (carbon bare)
        quiet_config
        (received_a ∷ flushing ∷ [])
        []
        two
      ≡ relay_metrics steady (carbon bare) quiet_config [] [] v)
    × (v.delivered ≡ [] ++ a_lines ++ [])
    × IsHealthy steady 2 conn_pool_type_tcp v
    × IsEachVisited tick.first_order (
        prepare_runtime_metrics quiet_config tick.memory
          (aggregate_all [] (received_in (received_a ∷ flushing ∷ []))))
relay_metrics-interval_example =
    relay_metrics-interval steady 2 conn_pool_type_tcp (λ n. refl) bare quiet_config
      (received_a ∷ []) [] flushing tick [] a_lines [] two ((refl, refl), tt) refl refl
      a-relayed_lines (unfold visited insert_visited relayed_lines prepare_flush_metrics in refl)
      two-IsHealthy

abbrev quitting : RelayRound Fixed
quitting = record { quit = true; received = none; tick = none }

relay_metrics-quit_example :
    relay_metrics steady (carbon bare) quiet_config (received_a ∷ quitting ∷ []) [] two
    ≡ done (aggregate_all [] (received_in (received_a ∷ [])), two)
relay_metrics-quit_example =
    relay_metrics-quit steady (carbon bare) quiet_config (received_a ∷ []) [] quitting [] two
      ((refl, refl), tt) refl
