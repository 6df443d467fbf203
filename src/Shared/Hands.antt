-- ===== src/Shared/Hands.antt =====
-- Where a connection stands, and whether a dial has made it.
use statsgod.Pool.{Network}
use statsgod.Prelude.{
  zero, suc, ==_iff, ◌==◌, if◌then◌else◌, ap, inr, inl, Bool-cases, arith, [], ◌+◌, ◌≡◌, ◌∷◌, ◌++◌,
  ℕ, List,
}
use statsgod.Shared.{
  failing, counting, dialing, checking, idle, adding, timed_out, closing, releasing, writing, Pc,
}
use statsgod.Prelude.{ltb}

-- How often a connection stands in a list.
unfoldable pub copies : ℕ → List ℕ → ℕ
copies k [] = 0
copies k (c ∷ cs) = (if c == k then 1 else 0) + copies k cs

pub copies-append : (k : ℕ) (cs ds : List ℕ) → copies k (cs ++ ds) ≡ copies k cs + copies k ds
unfolding copies
copies-append k [] ds = omega arith
copies-append k (c ∷ cs) ds = ground (arith, copies-append k cs ds)

-- Whether the goroutine has the connection in its hands.
unfoldable pub has : Pc → ℕ → ℕ
has idle k = 0
has (writing c) k = if c == k then 1 else 0
has (releasing c) k = if c == k then 1 else 0
has (closing c) k = if c == k then 1 else 0
has checking k = 0
has dialing k = 0
has failing k = 0
has (counting n) k = 0
has (adding c) k = if c == k then 1 else 0
has timed_out k = 0

-- Whether the connection was made by a dial so far.
unfoldable pub made : Network → ℕ → ℕ → ℕ
made net dials k = if ltb k dials then if net.dial_ok k then 1 else 0 else 0

pub made-next :
    (net : Network) (d k : ℕ)
    → made net (d + 1) k ≡ made net d k + (if d == k then if net.dial_ok d then 1 else 0 else 0)
unfolding made
made-next net d k = elim (Bool-cases (d == k)) [
  | inl same ↦
      let e : net.dial_ok d ≡ net.dial_ok k = ap net.dial_ok ((==_iff d k).0 same) in ground arith
  | inr other ↦ ground arith
]

-- Whether the goroutine has taken a place of the pool that no failed dial has lost.
unfoldable pub hands : Pc → ℕ
hands idle = 0
hands (writing c) = 1
hands (releasing c) = 1
hands (closing c) = 1
hands checking = 1
hands dialing = 1
hands failing = 0
hands (counting n) = 0
hands (adding c) = 1
hands timed_out = 0

-- The failed ones of so many dials.
unfoldable pub failures : Network → ℕ → ℕ
failures net zero = 0
failures net (suc d) = (if net.dial_ok d then 0 else 1) + failures net d

pub failures-next :
    (net : Network) (d : ℕ)
    → failures net (d + 1) ≡ (if net.dial_ok d then 0 else 1) + failures net d
unfolding failures
failures-next net d = let is_suc : d + 1 ≡ suc d = omega arith in ap (failures net) is_suc
