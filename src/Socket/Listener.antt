-- ===== src/Socket/Listener.antt =====
-- statsgod/socket.go: the calls of the interface `Socket`, and `BlockForSocket`. Whether an address can be
-- listened on is a parameter. Durations are numbers of nanoseconds.
pub mod Blocking
pub mod Cycle
use statsgod.Prelude.Outcome.{Outcome}
use statsgod.Socket.Tcp
use statsgod.Socket.Udp
use statsgod.Socket.Unix
pub use statsgod.Socket.Kinds.{
  socket_type_udp, socket_type_tcp, socket_type_unix, SocketKind, udp_socket, tcp_socket,
  unix_socket, Socket, nil_dereference,
}
unfoldable pub use statsgod.Socket.Kinds.{create_socket}
use statsgod.Prelude.{zero, ltb, if◌then◌else◌, ◌+◌, suc, some, none, ◌⊎◌, Option, Bool, Bytes, ℕ}

-- `Listen` up to its loop.
unfoldable pub open_listener : (SocketKind → Bytes → Bytes ⊎ Bytes) → Socket → Outcome Socket
unfolding Tcp.establish Udp.establish Unix.establish
open_listener net_listen l = elim l.kind [
  | tcp_socket ↦ Tcp.establish (net_listen tcp_socket) l
  | udp_socket ↦ Udp.establish (net_listen udp_socket) l
  | unix_socket ↦ Unix.establish (net_listen unix_socket) l
]

unfoldable pub socket_is_active : Socket → Bool
unfolding Tcp.is_active Udp.is_active Unix.is_active
socket_is_active l = elim l.kind [
  | tcp_socket ↦ Tcp.is_active l
  | udp_socket ↦ Udp.is_active l
  | unix_socket ↦ Unix.is_active l
]

unfoldable pub get_addr : Socket → Outcome Bytes
unfolding Tcp.get_addr Udp.get_addr Unix.get_addr
get_addr l = elim l.kind [
  | tcp_socket ↦ Tcp.get_addr l
  | udp_socket ↦ Udp.get_addr l
  | unix_socket ↦ Unix.get_addr l
]

-- The file that is removed, if any, and what is closed.
unfoldable pub close_socket : Socket → Option Bytes × Outcome SocketKind
unfolding Tcp.close Udp.close Unix.close
close_socket l = elim l.kind [
  | tcp_socket ↦ (none, Tcp.close l)
  | udp_socket ↦ (none, Udp.close l)
  | unix_socket ↦ let (file, closed) = Unix.close l in (some file, closed)
]

-- `BlockForSocket` on fuel, with the rounds done: `active` says what `SocketIsActive` returns in a
-- round, `since` what time.Since returns after its sleep. The result is the round of the return.
unfoldable pub block_for_socket : ℕ → (ℕ → Bool) → (ℕ → ℕ) → ℕ → ℕ → Option ℕ
block_for_socket zero active since timeout i = none
block_for_socket (suc fuel) active since timeout i =
    let rest = block_for_socket fuel active since timeout (i + 1) in
    if active i then some i else if ltb timeout (since i) then some i else rest
