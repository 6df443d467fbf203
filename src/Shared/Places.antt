-- ===== src/Shared/Places.antt =====
-- The places of a pool that several goroutines share: one account of the connections in the channel,
-- those in the hands of the goroutines, and the dials that failed. Two goroutines that count a failed dial at
-- the same time can lose one of the counts.
use statsgod.Pool.{World}
use statsgod.Prelude.{
  ◌≤◌, length, ◌⊎◌, inr, inl, refl, arith, [], ◌+◌, ◌≡◌, ◌∷◌, Bytes, ◌++◌, ℕ, List,
}
use statsgod.Shared.{
  failing, counting, dialing, checking, idle, adding, timed_out, closing, releasing, writing, Pc,
}
use statsgod.Prelude.Outcome.{panics, done}
use statsgod.Pool.Accounts.{Balances}

-- How many places of the pool a goroutine has in its hands.
unfoldable pub holds : Pc → ℕ
holds idle = 0
holds (writing c) = 1
holds (releasing c) = 1
holds (closing c) = 1
holds checking = 1
holds dialing = 1
holds failing = 1
holds (counting n) = 1
holds (adding c) = 1
holds timed_out = 0

-- How many steps of its own a try takes to end from here, at most.
unfoldable pub rank : Pc → ℕ
rank idle = 0
rank (writing c) = 6
rank (releasing c) = 1
rank (closing c) = 5
rank checking = 4
rank dialing = 3
rank failing = 2
rank (counting n) = 1
rank (adding c) = 1
rank timed_out = 0

unfoldable pub total_holds : List Pc → ℕ
total_holds [] = 0
total_holds (p ∷ threads) = holds p + total_holds threads

pub total_holds-append :
    (before : List Pc) (threads : List Pc)
    → total_holds (before ++ threads) ≡ total_holds before + total_holds threads
unfolding total_holds
total_holds-append [] threads = omega arith
total_holds-append (p ∷ before) threads = ground (arith, total_holds-append before threads)

pub total_holds-place :
    (before after : List Pc) (p : Pc)
    → total_holds (before ++ p ∷ after) ≡ holds p + total_holds (before ++ after)
unfolding total_holds
total_holds-place before after p =
    ground (arith, total_holds-append before (p ∷ after), total_holds-append before after)

pub Balances-lent :
    {a b size conn_type : ℕ} {w : World}
    → a ≡ b
    → Balances a size conn_type w
    → Balances b size conn_type w
Balances-lent e h = record {
  places = ground arith;
  size_is = h.size_is;
  type_is = h.type_is;
  dialable = h.dialable;
}

pub panics-done : {A : Type 0} {m : Bytes} {x : A} → panics m ≡ done x → ⊥
panics-done e = ground arith

pub timed_out-cases : (p : Pc) → (p ≡ timed_out) ⊎ (¬ p ≡ timed_out)
timed_out-cases idle = inr (λ e. absurd (ground arith))
timed_out-cases (writing c) = inr (λ e. absurd (ground arith))
timed_out-cases (releasing c) = inr (λ e. absurd (ground arith))
timed_out-cases (closing c) = inr (λ e. absurd (ground arith))
timed_out-cases checking = inr (λ e. absurd (ground arith))
timed_out-cases dialing = inr (λ e. absurd (ground arith))
timed_out-cases failing = inr (λ e. absurd (ground arith))
timed_out-cases (counting n) = inr (λ e. absurd (ground arith))
timed_out-cases (adding c) = inr (λ e. absurd (ground arith))
timed_out-cases timed_out = inl refl

pub counting-cases : (p : Pc) → ((n : ℕ) → ¬ p ≡ counting n) ⊎ ((n : ℕ) × (p ≡ counting n))
counting-cases idle = inl (λ n e. absurd (ground arith))
counting-cases (writing c) = inl (λ n e. absurd (ground arith))
counting-cases (releasing c) = inl (λ n e. absurd (ground arith))
counting-cases (closing c) = inl (λ n e. absurd (ground arith))
counting-cases checking = inl (λ n e. absurd (ground arith))
counting-cases dialing = inl (λ n e. absurd (ground arith))
counting-cases failing = inl (λ n e. absurd (ground arith))
counting-cases (counting n) = inr (n, refl)
counting-cases (adding c) = inl (λ n e. absurd (ground arith))
counting-cases timed_out = inl (λ n e. absurd (ground arith))

-- A goroutine about to write the count of failed dials has read the number that stands there.
abbrev pub IsCurrent : Pc → World → Type 0
IsCurrent p w = (n : ℕ) → p ≡ counting n → n ≡ w.error_count

-- The number that a goroutine has read leaves room for the dial that it is about to count, and it was 0 if
-- no dial has been counted.
abbrev pub IsBounded : ℕ → ℕ → World → Pc → Type 0
IsBounded size held w p =
    (n : ℕ)
    → p ≡ counting n
    → (length w.connections + n + held ≤ size) × (w.error_count ≡ 0 → n ≡ 0)
