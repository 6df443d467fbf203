-- ===== src/Socket/Listener/Cycle.antt =====
-- statsgod/socket.go: a socket from `CreateSocket` to `Close`.
use statsgod.Socket.Listener.{get_addr}
use statsgod.Prelude.Outcome.{done-injective, panics, done, Outcome}
use statsgod.Prelude.{
  codes, sym, refl, ◌++◌, ◌==◌, ◌≢◌, Bool-cases, arith, inr, ◌∷◌, inl, false, [], true, some, ℕ,
  ◌≡◌, none, ◌⊎◌, Bytes, Option,
}
use statsgod.Socket.Kinds.{
  socket_type_unix, socket_type_tcp, socket_type_udp, udp_socket, tcp_socket, nil_dereference,
  close_bound, unix_socket, create_socket, SocketKind,
}
use statsgod.Socket.Listener.{close_socket, open_listener, socket_is_active, Socket}
use statsgod.Socket.Tcp
use statsgod.Socket.Udp
use statsgod.Socket.Unix

abbrev pub made : SocketKind → Bytes → Socket
made kind addr = record { kind = kind; addr = addr; listener = none }

-- The file of a Unix socket.
abbrev pub file_of : Socket → Option Bytes
file_of l = elim l.kind [ unix_socket ↦ some l.addr | _ ↦ none ]

-- A socket that listens: it is active, its address is the one that is bound, or the file of a Unix
-- socket, and it can be closed.
pub record IsOpen (l opened : Socket) (bound : Bytes) : Type 0 where
  pub same_kind : opened.kind ≡ l.kind
  pub active : socket_is_active opened ≡ true
  pub address : get_addr opened ≡ done (elim (file_of l) [ some file ↦ file | none ↦ bound ])
  pub closes : close_socket opened ≡ (file_of l, done l.kind)

-- The texts of the panics in `Listen`; the second one goes on with the error.
abbrev pub unaddressed : SocketKind → Bytes
unaddressed udp_socket = codes "Could not establish a UDP socket. Addr must be specified."
unaddressed tcp_socket = codes "Could not establish a TCP socket. Address must be specified."
unaddressed unix_socket = codes "Could not establish a Unix socket. No sock file specified."

abbrev pub not_established : SocketKind → Bytes
not_established udp_socket = codes "Could not establish a UDP socket. "
not_established tcp_socket = codes "Could not establish a TCP socket. "
not_established unix_socket = codes "Could not establish a Unix socket. "

-- How `Listen` comes to its loop, or panics.
pub data Listened (net_listen : SocketKind → Bytes → Bytes ⊎ Bytes) (l : Socket)
    : Outcome Socket → Type 0 where
  no_address : l.addr ≡ [] → Listened net_listen l (panics (unaddressed l.kind))
  refused :
      (failure : Bytes)
      → l.addr ≢ []
      → net_listen l.kind l.addr ≡ inr failure
      → Listened net_listen l (panics (not_established l.kind ++ failure))
  listening :
      (bound : Bytes) (opened : Socket)
      → l.addr ≢ []
      → net_listen l.kind l.addr ≡ inl bound
      → IsOpen l opened bound
      → Listened net_listen l (done opened)

-- A socket that `CreateSocket` makes is not active before `Listen`, and cannot be closed then.
pub record IsNew (l : Socket) : Type 0 where
  pub inactive : socket_is_active l ≡ false
  pub unclosable : close_socket l ≡ (file_of l, nil_dereference)

Sum-cases : {A B : Type 0} (s : A ⊎ B) → ((a : A) × (s ≡ inl a)) ⊎ ((b : B) × (s ≡ inr b))
Sum-cases (inl a) = inl (a, refl)
Sum-cases (inr b) = inr (b, refl)

module _ (net_listen : SocketKind → Bytes → Bytes ⊎ Bytes) where
  made-IsOpen :
      (kind : SocketKind) (addr bound : Bytes)
      → IsOpen (made kind addr) (record (made kind addr) { listener = some bound }) bound
  unfolding socket_is_active get_addr close_socket Tcp.is_active Tcp.get_addr Tcp.close
      Udp.is_active Udp.get_addr Udp.close Unix.is_active Unix.get_addr Unix.close close_bound
  made-IsOpen tcp_socket addr bound = record {
    same_kind = refl;
    active = refl;
    address = refl;
    closes = refl;
  }
  made-IsOpen udp_socket addr bound = record {
    same_kind = refl;
    active = refl;
    address = refl;
    closes = refl;
  }
  made-IsOpen unix_socket addr bound = record {
    same_kind = refl;
    active = refl;
    address = refl;
    closes = refl;
  }

  made-Listened :
      (kind : SocketKind) (addr : Bytes)
      → Listened net_listen (made kind addr) (open_listener net_listen (made kind addr))
  unfolding open_listener Tcp.establish Udp.establish Unix.establish
  made-Listened tcp_socket [] = no_address refl
  made-Listened udp_socket [] = no_address refl
  made-Listened unix_socket [] = no_address refl
  made-Listened tcp_socket (c ∷ addr) = elim (Sum-cases (net_listen tcp_socket (c ∷ addr))) [
    | inl (bound, e) ↦
        rw e (listening bound _ (λ h. ground arith) e (made-IsOpen tcp_socket (c ∷ addr) bound))
    | inr (failure, e) ↦ rw e (refused failure (λ h. ground arith) e)
  ]
  made-Listened udp_socket (c ∷ addr) = elim (Sum-cases (net_listen udp_socket (c ∷ addr))) [
    | inl (bound, e) ↦
        rw e (listening bound _ (λ h. ground arith) e (made-IsOpen udp_socket (c ∷ addr) bound))
    | inr (failure, e) ↦ rw e (refused failure (λ h. ground arith) e)
  ]
  made-Listened unix_socket (c ∷ addr) = elim (Sum-cases (net_listen unix_socket (c ∷ addr))) [
    | inl (bound, e) ↦
        rw e (listening bound _ (λ h. ground arith) e (made-IsOpen unix_socket (c ∷ addr) bound))
    | inr (failure, e) ↦ rw e (refused failure (λ h. ground arith) e)
  ]

made-IsNew : (kind : SocketKind) (addr : Bytes) → IsNew (made kind addr)
unfolding socket_is_active close_socket Tcp.is_active Tcp.close Udp.is_active Udp.close
    Unix.is_active Unix.close close_bound
made-IsNew tcp_socket addr = record { inactive = refl; unclosable = refl }
made-IsNew udp_socket addr = record { inactive = refl; unclosable = refl }
made-IsNew unix_socket addr = record { inactive = refl; unclosable = refl }

create_socket-made :
    (socket_type : ℕ) (addr : Bytes) (l : Socket)
    → create_socket socket_type addr ≡ done l
    → l ≡ made l.kind addr
unfolding create_socket
create_socket-made socket_type addr l h = elim (Bool-cases (socket_type == socket_type_udp)) [
  | inl udp ↦ made_as udp_socket (rw (udp, create_socket) at h)
  | inr other ↦ elim (Bool-cases (socket_type == socket_type_tcp)) [
    | inl tcp ↦ made_as tcp_socket (rw (other, tcp, create_socket) at h)
    | inr others ↦ elim (Bool-cases (socket_type == socket_type_unix)) [
      | inl unix ↦ made_as unix_socket (rw (other, others, unix, create_socket) at h)
      | inr unknown ↦ absurd (ground (arith, (rw (other, others, unknown, create_socket) at h)))
    ]
  ]
]
  where
    made_as : (kind : SocketKind) → done (made kind addr) ≡ done l → l ≡ made l.kind addr
    made_as kind e = let same = sym (done-injective e) in rw same refl

-- A socket that `CreateSocket` has made is not active, and its Close dereferences nil. Its Listen panics
-- if it has no address or the address cannot be listened on, with the error at the end of its text; else
-- it is active from then on, its address is the bound one, or the file of a Unix socket, and Close closes it. Close removes the file of a Unix socket and of
-- no other, even if it panics.
pub create_socket-Listened :
    (net_listen : SocketKind → Bytes → Bytes ⊎ Bytes) (socket_type : ℕ) (addr : Bytes) (l : Socket)
    → create_socket socket_type addr ≡ done l
    → IsNew l × Listened net_listen l (open_listener net_listen l)
create_socket-Listened net_listen socket_type addr l h =
    let e = create_socket-made socket_type addr l h in
    rw e (made-IsNew l.kind addr, made-Listened net_listen l.kind addr)

Listened-done :
    (net_listen : SocketKind → Bytes → Bytes ⊎ Bytes) (l opened : Socket) (o : Outcome Socket)
    → Listened net_listen l o
    → o ≡ done opened
    → (opened.kind ≡ l.kind) × (socket_is_active opened ≡ true)
Listened-done net_listen l opened o (no_address e) h = absurd (ground arith)
Listened-done net_listen l opened o (refused failure some_addr e) h = absurd (ground arith)
Listened-done net_listen l opened o (listening bound other some_addr e i) h =
    let same = sym (done-injective h) in rw same (i.same_kind, i.active)

pub open_listener-made :
    (net_listen : SocketKind → Bytes → Bytes ⊎ Bytes) (kind : SocketKind) (addr : Bytes)
    (opened : Socket)
    → open_listener net_listen (made kind addr) ≡ done opened
    → (opened.kind ≡ kind) × (socket_is_active opened ≡ true)
open_listener-made net_listen kind addr opened =
    Listened-done net_listen (made kind addr) opened _ (made-Listened net_listen kind addr)

close_socket-from :
    (l : Socket) (kind : SocketKind) (listener : Option Bytes)
    → l.kind ≡ kind
    → l.listener ≡ listener
    → socket_is_active l ≡ true
    → (close_socket l).1 ≡ done kind
unfolding socket_is_active close_socket Tcp.is_active Tcp.close Udp.is_active Udp.close
    Unix.is_active Unix.close close_bound
close_socket-from l tcp_socket none k e h = absurd (ground arith)
close_socket-from l udp_socket none k e h = absurd (ground arith)
close_socket-from l unix_socket none k e h = absurd (ground arith)
close_socket-from l tcp_socket (some bound) k e h = ground arith
close_socket-from l udp_socket (some bound) k e h = ground arith
close_socket-from l unix_socket (some bound) k e h = ground arith

pub close_socket-active :
    (l : Socket) → socket_is_active l ≡ true → (close_socket l).1 ≡ done l.kind
close_socket-active l = close_socket-from l l.kind l.listener refl refl
