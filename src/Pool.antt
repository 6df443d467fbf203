-- ===== src/Pool.antt =====
-- statsgod/connectionpool.go and statsgod/nilconn.go, used by one goroutine at a time. The channel
-- `Connections` is a list, oldest first. A connection is named by the number of the call of net.Dial
-- that made it; whether a dial or a write succeeds is a parameter. Deadlines have no state here.
pub mod Accounts
pub mod Release
use statsgod.Prelude.Outcome.{blocked, panics, done, Outcome}
use statsgod.Prelude.{
  zero, ◌==◌, ◌||◌, length, ◌∷◌, none, [], not, ◌+◌, some, ltb, ◌++◌, false, codes, suc,
  if◌then◌else◌, Option, Bytes, Bool, List, ℕ, true,
}

abbrev pub conn_pool_type_tcp : ℕ
conn_pool_type_tcp = 0

abbrev pub conn_pool_type_unix : ℕ
conn_pool_type_unix = 1

abbrev pub conn_pool_type_none : ℕ
conn_pool_type_none = 2

pub record ConnectionPool : Type 0 where
  pub size : ℕ
  pub connections : List ℕ
  pub addr : Bytes
  pub conn_type : ℕ
  pub timeout : ℕ
  pub error_count : ℕ

-- The outside world: how the dials and the writes end, each by its number.
pub record Network : Type 0 where
  pub dial_ok : ℕ → Bool
  pub write_ok : ℕ → Bool

-- The pool, the dials and writes made so far, the connections closed and the lines written.
pub record World : Type 0 where
  pub pool : ConnectionPool
  pub open pool use *
  pub dials : ℕ
  pub writes : ℕ
  pub closed : List ℕ
  pub delivered : List Bytes

-- net.Conn: a connection of net.Dial, or `NilConn{}`.
pub data Conn : Type 0 where
  dialed : ℕ → Conn
  nil_conn : Conn

pub data PoolError : Type 0 where
  wrong_type dial_failed too_many connection_timeout write_failed : PoolError
  connections_failed : ℕ → PoolError

abbrev pub nil_conn_panic_msg : Bytes
nil_conn_panic_msg = codes "Use of a nil connection."

-- The methods of net.Conn.
pub data ConnMethod : Type 0 where
  read write close local_addr remote_addr set_deadline set_read_deadline set_write_deadline :
      ConnMethod

-- Every method of `NilConn` panics.
unfoldable pub nil_conn_call {ℓ} : {A : Type ℓ} → ConnMethod → Outcome A
nil_conn_call m = panics nil_conn_panic_msg

-- Code that reads and changes the world.
abbrev pub M : Type 0 → Type 0
M A = World → Outcome (A × World)

infixl 5 ◌>>=◌
abbrev pub ◌>>=◌ : {A B : Type 0} → M A → (A → M B) → M B
◌>>=◌ m f w = elim (m w) [
  | done (a, v) ↦ f a v
  | panics message ↦ panics message
  | blocked ↦ blocked
]

abbrev pub return : {A : Type 0} → A → M A
return a w = done (a, w)

abbrev has_error {ℓ} : {A : Type ℓ} → Option A → Bool
has_error none = false
has_error (some e) = true

-- conn.Close()
unfoldable pub close_conn : Conn → M (Unit {0})
unfolding nil_conn_call
close_conn nil_conn w = nil_conn_call close
close_conn (dialed c) w = done (tt, record w { closed = w.closed ++ c ∷ [] })

-- conn.SetDeadline(...)
deadline_conn : Conn → M (Unit {0})
unfolding nil_conn_call
deadline_conn nil_conn w = nil_conn_call set_deadline
deadline_conn (dialed c) w = done (tt, w)

-- pool.Connections <- conn, which waits while the channel is full.
unfoldable pub send_conn : ℕ → M (Unit {0})
send_conn c w =
    if ltb (length w.connections) w.size
    then done (tt, record w { pool = record w.pool { connections = w.connections ++ c ∷ [] } })
    else blocked

-- `NilConn{}` pushed onto the channel would stay a `NilConn`; no caller gets that far, since
-- SetDeadline panics before.
push_conn : Conn → M (Unit {0})
unfolding send_conn nil_conn_call
push_conn nil_conn w = nil_conn_call set_deadline
push_conn (dialed c) w = send_conn c w

unfoldable pub count_error : M (Unit {0})
count_error w = done (tt, record w { pool = record w.pool { error_count = w.error_count + 1 } })

module _ (net : Network) where
  -- net.Dial(connType, pool.Addr)
  unfoldable pub dial : M (Option ℕ)
  dial w =
      done (if net.dial_ok w.dials then some w.dials else none, record w { dials = w.dials + 1 })

  -- The result and the error.
  unfoldable pub create_connection : M (Bool × Option PoolError)
  unfolding dial send_conn count_error
  create_connection w =
      if ltb (length w.connections) w.size
      then if w.conn_type == conn_pool_type_tcp || w.conn_type == conn_pool_type_unix
        then (do
          conn ← dial
          elim conn [
            | none ↦ do _ ← count_error; return (false, some dial_failed)
            | some c ↦ do _ ← send_conn c; return (true, none)
          ])
            w
        else done ((false, some wrong_type), w)
      else done ((false, some too_many), w)

  -- The loop of `CreateConnectionPool`, with the rounds left and its `errorCount`.
  unfoldable pub create_connections : ℕ → ℕ → M ℕ
  create_connections zero errors = return errors
  create_connections (suc rounds) errors = do
    (added, err) ← create_connection
    create_connections rounds (if not added || has_error err then errors + 1 else errors)

  -- The pool stands in the world that is returned.
  unfoldable pub create_connection_pool : ℕ → Bytes → ℕ → ℕ → M (Option PoolError)
  unfolding create_connections
  create_connection_pool size addr conn_type timeout w =
      (do
        errors ← create_connections size 0
        return (if ltb 0 errors then some (connections_failed errors) else none))
        (record w {
          pool = record {
            size = size;
            connections = [];
            addr = addr;
            conn_type = conn_type;
            timeout = timeout;
            error_count = 0;
          };
        })

  -- A connection of the channel is taken at once; with none there, nobody else puts one back and the
  -- timeout passes.
  unfoldable pub get_connection : M (Conn × Option PoolError)
  get_connection w = elim w.connections [
    | [] ↦ done ((nil_conn, some connection_timeout), w)
    | c ∷ rest ↦ done ((dialed c, none), record w { pool = record w.pool { connections = rest } })
  ]

  unfoldable pub release_connection : Conn → Bool → M (Bool × Option PoolError)
  unfolding close_conn deadline_conn push_conn
  release_connection conn true = do
    _ ← close_conn conn
    (added, err) ← create_connection
    return (if not added || has_error err then (false, err) else (true, none))
  release_connection conn false = do _ ← deadline_conn conn; _ ← push_conn conn; return (true, none)
