-- ===== src/Socket/Unix.antt =====
-- statsgod/socket.go: `SocketUnix`. net.Listen gives the bound address or an error text.
use statsgod.Prelude.Outcome.{◌>>=◌, panics, done, Outcome}
use statsgod.Socket.Kinds.{accept_loop, close_bound, SocketKind, Socket}
use statsgod.Prelude.{
  ◌++◌, inr, inl, true, ◌∷◌, some, codes, false, Option, none, List, [], Bool, ◌⊎◌, Bytes,
}

-- `Listen` up to its loop.
unfoldable pub establish : (Bytes → Bytes ⊎ Bytes) → Socket → Outcome Socket
establish net_listen l = elim l.addr [
  | [] ↦ panics (codes "Could not establish a Unix socket. No sock file specified.")
  | c ∷ addr ↦ elim (net_listen (c ∷ addr)) [
    | inl bound ↦ done (record l { listener = some bound })
    | inr failure ↦ panics (codes "Could not establish a Unix socket. " ++ failure)
  ]
]

-- All of `Listen`, from what `Accept` returns.
unfoldable pub listen {ℓ} :
    {A : Type ℓ} → (Bytes → Bytes ⊎ Bytes) → List (Option A) → Socket → Outcome (Socket × List A)
listen net_listen accepted l = do
  opened ← establish net_listen l
  done (opened, accept_loop accepted)

-- The file that is removed, even if the call panics, and what is closed.
unfoldable pub close : Socket → Bytes × Outcome SocketKind
close l = (l.addr, close_bound l)

unfoldable pub is_active : Socket → Bool
is_active l = elim l.listener [ none ↦ false | some bound ↦ true ]

unfoldable pub get_addr : Socket → Outcome Bytes
get_addr l = done l.addr
