-- ===== src/Service.antt =====
-- statsgod.go and statsgod/signals.go: the start of the service, the signals, and its end.
pub mod Shutdown
pub mod Started
pub mod Reload
pub mod Pipeline
pub mod Relaying
use statsgod.Decimal.{itoa}
use statsgod.Relay.Create.{create_relay}
use statsgod.Auth.{create_auth, Auth}
use statsgod.Carbon.{Affixes}
use statsgod.Prelude.Int.{ℤ}
use statsgod.Relay.{MetricRelay}
use statsgod.Socket.Listener.{
  socket_type_unix, close_socket, socket_type_udp, nil_dereference, socket_type_tcp, Socket,
  SocketKind, create_socket,
}
use statsgod.Prelude.{
  none, [], some, ◌++◌, ◌∷◌, true, Option, if◌then◌else◌, ℕ, false, List, Bool, Bytes,
}
use statsgod.Logger.{discard, stderr, stdout, create_logger, Logger}
use statsgod.Config.{load_file, ConfigValues, DebugValues, Environment}
use statsgod.Pool.{return, Network, ◌>>=◌, M}
use statsgod.Prelude.Outcome.{blocked, done, panics, Outcome}

-- The signals that are asked for.
pub data Signal : Type 0 where
  sigabrt sighup sigint sigterm sigquit : Signal

module _ {E : Type 0} (env : Environment E) (config_file : Bytes) where
  -- A round of the loop of `ListenForSignals`: the configuration, and whether the service is to finish.
  -- The error of `LoadFile` is not looked at.
  unfoldable pub handle_signal : Signal → ConfigValues → ConfigValues × Bool
  handle_signal sighup config = ((load_file env config_file config).0, false)
  handle_signal s config = (config, true)

  -- The signals up to the first one that finishes the service, which is `none` if there is none yet.
  unfoldable pub listen_for_signals : List Signal → ConfigValues → ConfigValues × Bool
  listen_for_signals [] config = (config, false)
  listen_for_signals (s ∷ signals) config =
      let (next, finish) = handle_signal s config in
      let rest = listen_for_signals signals next in if finish then (next, true) else rest

-- What `main` has started.
pub record Service : Type 0 where
  pub logger : Logger
  pub relay : MetricRelay
  pub auth : Auth
  pub relays : ℕ
  pub socket_tcp : Option Socket
  pub socket_udp : Option Socket
  pub socket_unix : Option Socket

-- "host:port"
abbrev host_port : Bytes → ℤ → Bytes
host_port host port = host ++ b':' ∷ itoa port

-- The socket is made if the configuration enables it.
socket_if : Bool → ℕ → Bytes → M (Option Socket)
unfolding create_socket
socket_if false socket_type addr w = done (none, w)
socket_if true socket_type addr w = elim (create_socket socket_type addr) [
  | done l ↦ done (some l, w)
  | panics message ↦ panics message
  | blocked ↦ blocked
]

logger_of : DebugValues → Logger
logger_of debug =
    if debug.verbose
    then create_logger stdout stdout stdout stderr
    else create_logger discard stdout stdout stderr

-- os.Create("statsgod.prof"), which may fail.
start_profile : Bool → Option Bytes → M (Unit {0})
start_profile false failure w = done (tt, w)
start_profile true none w = done (tt, w)
start_profile true (some err) w = panics err

-- `main` up to the wait for its end, with the configuration that was loaded and the error of
-- os.Create, if there is one.
unfoldable pub start : Network → (Affixes → Affixes) → Option Bytes → ConfigValues → M Service
unfolding socket_if logger_of start_profile
start net visited profile_error config = do
  _ ← start_profile config.debug.profile profile_error
  relay ← create_relay net visited config
  let auth = create_auth config.service.auth config.service.tokens
  tcp ← socket_if config.tcp.enabled socket_type_tcp (host_port config.tcp.host config.tcp.port)
  udp ← socket_if config.udp.enabled socket_type_udp (host_port config.udp.host config.udp.port)
  unix ← socket_if config.unix.enabled socket_type_unix config.unix.file
  return (record {
    logger = logger_of config.debug;
    relay = relay;
    auth = auth;
    relays = config.relay.concurrency;
    socket_tcp = tcp;
    socket_udp = udp;
    socket_unix = unix;
  })
