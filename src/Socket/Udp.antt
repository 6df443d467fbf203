-- ===== src/Socket/Udp.antt =====
-- statsgod/socket.go: `SocketUdp`. net.ListenUDP, on what
-- net.ResolveUDPAddr makes of the address, gives the bound address or an error text.
use statsgod.Socket.{read_input_udp}
use statsgod.Prelude.Outcome.{done, panics, ◌>>=◌, Outcome}
use statsgod.Socket.Kinds.{nil_dereference, close_bound, SocketKind, Socket}
use statsgod.Prelude.{
  inr, true, inl, some, ◌++◌, codes, false, none, ◌∷◌, [], Bool, Option, ◌⊎◌, List, Bytes,
}

-- `Listen` up to its loop.
unfoldable pub establish : (Bytes → Bytes ⊎ Bytes) → Socket → Outcome Socket
establish net_listen l = elim l.addr [
  | [] ↦ panics (codes "Could not establish a UDP socket. Addr must be specified.")
  | c ∷ addr ↦ elim (net_listen (c ∷ addr)) [
    | inl bound ↦ done (record l { listener = some bound })
    | inr failure ↦ panics (codes "Could not establish a UDP socket. " ++ failure)
  ]
]

-- The loop of `Listen` for UDP sockets, from what each read returns.
unfoldable pub udp_loop : List (Option Bytes) → List Bytes
udp_loop [] = []
udp_loop (packet ∷ packets) = read_input_udp packet ++ udp_loop packets

-- All of `Listen`, from what each read returns.
unfoldable pub listen :
    (Bytes → Bytes ⊎ Bytes) → List (Option Bytes) → Socket → Outcome (Socket × List Bytes)
listen net_listen packets l = do opened ← establish net_listen l; done (opened, udp_loop packets)

unfoldable pub close : Socket → Outcome SocketKind
close = close_bound

unfoldable pub is_active : Socket → Bool
is_active l = elim l.listener [ none ↦ false | some bound ↦ true ]

unfoldable pub get_addr : Socket → Outcome Bytes
get_addr l = elim l.listener [ none ↦ nil_dereference | some bound ↦ done bound ]
