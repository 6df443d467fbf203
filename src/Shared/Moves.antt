-- ===== src/Shared/Moves.antt =====
-- What a step of one goroutine does, on a pool that keeps account.
pub mod Sending
pub mod Dialing
use statsgod.Shared.Hands.{
  copies-append, made-next, copies, has, made, hands, failures, failures-next,
}
use mathlib.Core.Path.{subst}
use statsgod.Pool.{
  nil_conn_panic_msg, send_conn, dial, close_conn, ◌>>=◌, get_connection, World, Network,
}
use statsgod.Prelude.{
  ◌∙◌, ap, sym, ◌<◌, ◌⊎◌, ◌≤◌, inr, length-append, inl, true, Bool-cases, refl, arith, [], ◌+◌, ◌≡◌,
  ◌∷◌, Bytes, ◌++◌, ℕ, List,
}
use statsgod.Shared.{
  failing, counting, dialing, checking, idle, adding, timed_out, closing, releasing, step, writing,
  Pc,
}
use statsgod.Prelude.Outcome.{panics, done, done-injective}
use statsgod.Prelude.{ltb, length}
use statsgod.Pool.Release.{release-kept, release-nil_conn}
use statsgod.Carbon.{write_conn}
use statsgod.Pool.Accounts.{IsDialable, Balances}
use statsgod.Shared.Places.{
  counting-cases, IsBounded, IsCurrent, panics-done, timed_out-cases, holds, rank,
}

pub carried :
    {a b size conn_type : ℕ} {w v : World}
    → Balances a size conn_type w
    → length v.connections + v.error_count + b ≡ size
    → v.size ≡ w.size
    → v.conn_type ≡ w.conn_type
    → Balances b size conn_type v
carried h places e f = record {
  places = places;
  size_is = e ∙ h.size_is;
  type_is = f ∙ h.type_is;
  dialable = h.dialable;
}

module _ (net : Network) (payload : Bytes) (size conn_type : ℕ) where
  -- A step that is made, with the account kept and no failed dial forgotten; only on an empty channel
  -- does a goroutine time out. A connection stays where it is or goes to another place, and one that
  -- is new has one place. A step that does not start a try brings its end nearer.
  pub record IsMoved (others : ℕ) (p : Pc) (w : World) : Type 0 where
    pub pc : Pc
    pub after : World
    pub steps : step net payload p w ≡ done (pc, after)
    pub kept : Balances (holds pc + others) size conn_type after
    pub times_out : pc ≡ timed_out → (w.connections ≡ []) × (holds p ≡ 0)
    pub errors : w.error_count ≤ after.error_count
    pub counted : ((n : ℕ) → ¬ p ≡ counting n) → after.error_count ≡ w.error_count
    pub current : IsCurrent pc after
    pub sized : after.size ≡ w.size
    pub typed : after.conn_type ≡ w.conn_type
    pub owned :
        (k : ℕ)
        → has pc k + copies k after.connections + copies k after.closed + made net w.dials k
          ≡ has p k + copies k w.connections + copies k w.closed + made net after.dials k
    pub spent :
        length after.connections + hands pc + failures net after.dials
        ≡ length w.connections + hands p + failures net w.dials
    pub nearer : (p ≡ idle) ⊎ (rank pc < rank p)
