-- ===== src/Service/Shutdown.antt =====
-- statsgod.go: the end of `main`.
use statsgod.Socket.Listener.Cycle.{close_socket-active}
use statsgod.Service.{Service}
use statsgod.Config.{ConfigValues}
use statsgod.Prelude.{
  refl, arith, true, false, ◌||◌, ◌∷◌, none, [], some, ◌≡◌, not, if◌then◌else◌, ◌++◌, ◌⊎◌, ◌&&◌,
  List, Option, Bytes, Bool,
}
use statsgod.Socket.Listener.{
  unix_socket, udp_socket, tcp_socket, open_listener, nil_dereference, Socket, socket_is_active,
  close_socket, SocketKind,
}
use statsgod.Prelude.Outcome.{◌>>=◌, done, Outcome}

-- The goroutines of `main` that listen, up to their loops.
unfoldable pub open_if :
    (SocketKind → Bytes → Bytes ⊎ Bytes) → Option Socket → Outcome (Option Socket)
open_if net_listen none = done none
open_if net_listen (some l) = do opened ← open_listener net_listen l; done (some opened)

unfoldable pub open_sockets : (SocketKind → Bytes → Bytes ⊎ Bytes) → Service → Outcome Service
unfolding open_if
open_sockets net_listen service = do
  tcp ← open_if net_listen service.socket_tcp
  udp ← open_if net_listen service.socket_udp
  unix ← open_if net_listen service.socket_unix
  done (record service { socket_tcp = tcp; socket_udp = udp; socket_unix = unix })

-- `if enabled { socket.Close() }`, where a socket that was not made is a nil interface.
close_if : Bool → Option Socket → Outcome (List SocketKind)
close_if false socket = done []
close_if true none = nil_dereference
close_if true (some l) = do kind ← (close_socket l).1; done (kind ∷ [])

-- With the configuration as it is at the end: the sockets that are closed.
unfoldable pub shut_down : ConfigValues → Service → Outcome (List SocketKind)
unfolding close_if
shut_down config service = do
  tcp ← close_if config.tcp.enabled service.socket_tcp
  udp ← close_if config.udp.enabled service.socket_udp
  unix ← close_if config.unix.enabled service.socket_unix
  done (tcp ++ udp ++ unix)

-- A socket of the kind is there and listens, if it was enabled.
abbrev pub Serves : Bool → SocketKind → Option Socket → Type 0
Serves false kind socket = socket ≡ none
Serves true kind socket =
    (l : Socket) × (socket ≡ some l) × (l.kind ≡ kind) × (socket_is_active l ≡ true)

pub record IsServing (config : ConfigValues) (service : Service) : Type 0 where
  pub tcp : Serves config.tcp.enabled tcp_socket service.socket_tcp
  pub udp : Serves config.udp.enabled udp_socket service.socket_udp
  pub unix : Serves config.unix.enabled unix_socket service.socket_unix

close_if-Serves :
    (was is : Bool) (kind : SocketKind) (socket : Option Socket)
    → Serves was kind socket
    → close_if is socket
      ≡ (if is then if was then done (kind ∷ []) else nil_dereference else done [])
unfolding close_if
close_if-Serves was false kind socket s = refl
close_if-Serves false true kind socket s = rw s
close_if-Serves true true kind socket (l, e, k, on) = rw (e, close_socket-active l on, k)

-- The sockets of one kind that are enabled.
abbrev kinds_of : Bool → SocketKind → List SocketKind
kinds_of b kind = if b then kind ∷ [] else []

abbrev pub enabled_kinds : ConfigValues → List SocketKind
enabled_kinds config =
    kinds_of config.tcp.enabled tcp_socket
    ++ kinds_of config.udp.enabled udp_socket
    ++ kinds_of config.unix.enabled unix_socket

-- Some socket is enabled now that was not before.
abbrev pub newly_enabled : ConfigValues → ConfigValues → Bool
newly_enabled was is =
    (is.tcp.enabled && not was.tcp.enabled)
    || (is.udp.enabled && not was.udp.enabled)
    || (is.unix.enabled && not was.unix.enabled)

pub shut_down-IsServing :
    (was is : ConfigValues) (service : Service)
    → IsServing was service
    → shut_down is service
      ≡ (if newly_enabled was is then nil_dereference else done (enabled_kinds is))
unfolding shut_down
shut_down-IsServing was is service s =
    rw
      (
        close_if-Serves was.tcp.enabled is.tcp.enabled tcp_socket service.socket_tcp s.tcp,
        close_if-Serves was.udp.enabled is.udp.enabled udp_socket service.socket_udp s.udp,
        close_if-Serves was.unix.enabled is.unix.enabled unix_socket service.socket_unix s.unix,
      )
      (ground arith)
