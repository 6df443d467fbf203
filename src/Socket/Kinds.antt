-- ===== src/Socket/Kinds.antt =====
-- statsgod/socket.go: the types of the sockets, and `CreateSocket`.
use statsgod.Prelude.Outcome.{done, panics, Outcome}
use statsgod.Prelude.{[], ◌∷◌, some, codes, ◌==◌, none, if◌then◌else◌, Option, List, Bytes, ℕ}

abbrev pub socket_type_udp : ℕ
socket_type_udp = 0

abbrev pub socket_type_tcp : ℕ
socket_type_tcp = 1

abbrev pub socket_type_unix : ℕ
socket_type_unix = 2

-- The implementations of the interface `Socket`.
pub data SocketKind : Type 0 where
  udp_socket tcp_socket unix_socket : SocketKind

-- The listener is the address that it is bound to, `none` for `nil`.
pub record Socket : Type 0 where
  pub kind : SocketKind
  pub addr : Bytes
  pub listener : Option Bytes

unfoldable pub create_socket : ℕ → Bytes → Outcome Socket
create_socket socket_type addr =
    if socket_type == socket_type_udp
    then done (record { kind = udp_socket; addr = addr; listener = none })
    else if socket_type == socket_type_tcp
    then done (record { kind = tcp_socket; addr = addr; listener = none })
    else if socket_type == socket_type_unix
    then done (record { kind = unix_socket; addr = addr; listener = none })
    else panics (codes "Unknown socket type requested.")

abbrev pub nil_dereference {ℓ} : {A : Type ℓ} → Outcome A
nil_dereference = panics (codes "runtime error: invalid memory address or nil pointer dereference")

-- What `l.Listener.Close()` closes.
unfoldable pub close_bound : Socket → Outcome SocketKind
close_bound l = elim l.listener [ none ↦ nil_dereference | some bound ↦ done l.kind ]

-- The loop of `Listen` for TCP and Unix sockets, from what `Accept` returns: the connections that get
-- a `readInput` each, until an error.
unfoldable pub accept_loop {ℓ} : {A : Type ℓ} → List (Option A) → List A
accept_loop [] = []
accept_loop (accepted ∷ rest) = elim accepted [ none ↦ [] | some conn ↦ conn ∷ accept_loop rest ]
