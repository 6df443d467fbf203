-- ===== src/Shared/Kept.antt =====
-- What a step that was made has kept.
use statsgod.Shared.Moves.{IsMoved}
use statsgod.Shared.Moves.Sending.{step-idle, step-writing, step-releasing, step-closing}
use statsgod.Shared.Moves.Dialing.{
  step-checking, step-dialing, step-failing, step-counting, step-adding,
}
use statsgod.Shared.Hands.{copies, has, made, hands, failures}
use mathlib.Core.Path.{subst}
use statsgod.Pool.{nil_conn_panic_msg, ◌>>=◌, World, Network}
use statsgod.Prelude.{◌∙◌, ap, sym, ◌≤◌, inr, inl, true, refl, arith, [], ◌+◌, ◌≡◌, Bytes, ℕ}
use statsgod.Shared.{
  failing, counting, dialing, checking, idle, adding, timed_out, closing, releasing, step, writing,
  Pc,
}
use statsgod.Prelude.Outcome.{panics, done, done-injective}
use statsgod.Prelude.{length}
use statsgod.Pool.Release.{release-nil_conn}
use statsgod.Pool.Accounts.{Balances}
use statsgod.Shared.Places.{
  counting-cases, IsBounded, IsCurrent, panics-done, timed_out-cases, holds,
}

module _ (net : Network) (payload : Bytes) (size conn_type : ℕ) where
  -- On a pool that keeps account, a goroutine that has not timed out makes its step.
  pub step-IsMoved :
      (others : ℕ) (p : Pc) (w : World)
      → Balances (holds p + others) size conn_type w
      → ¬ p ≡ timed_out
      → IsCurrent p w
      → IsMoved net payload size conn_type others p w
  step-IsMoved others idle w b h i =
      step-idle net payload size conn_type others w w.connections refl b
  step-IsMoved others (writing c) w b h i = step-writing net payload size conn_type others w c b
  step-IsMoved others (releasing c) w b h i = step-releasing net payload size conn_type others w c b
  step-IsMoved others (closing c) w b h i = step-closing net payload size conn_type others w c b
  step-IsMoved others checking w b h i = step-checking net payload size conn_type others w b
  step-IsMoved others dialing w b h i = step-dialing net payload size conn_type others w b
  step-IsMoved others failing w b h i = step-failing net payload size conn_type others w b
  step-IsMoved others (counting n) w b h i =
      step-counting net payload size conn_type others w n (i n refl) b
  step-IsMoved others (adding c) w b h i = step-adding net payload size conn_type others w c b
  step-IsMoved others timed_out w b h i = absurd (h refl)

-- A goroutine without a connection closes its `NilConn`, which panics.
step-timed_out :
    (net : Network) (payload : Bytes) (w : World)
    → step net payload timed_out w ≡ panics nil_conn_panic_msg
unfolding step
step-timed_out net payload w = rw (release-nil_conn net true w, ◌>>=◌) refl

-- What a step that was made has kept, with the places that the other goroutines hold.
pub record IsKept (net : Network) (size others : ℕ) (p q : Pc) (w v : World) : Type 0 where
  pub sized : v.size ≡ w.size
  pub typed : v.conn_type ≡ w.conn_type
  pub fewer : length v.connections + holds q ≤ length w.connections + holds p
  pub bound : length v.connections + v.error_count + holds q + others ≤ size
  pub exact : v.error_count ≡ 0 → length v.connections + holds q ≡ length w.connections + holds p
  pub reads : IsBounded size (holds q + others) v q
  pub times_out : q ≡ timed_out → (w.connections ≡ []) × (holds p ≡ 0)
  pub errors : v.error_count ≡ 0 → w.error_count ≡ 0
  pub spent :
      length v.connections + hands q + failures net v.dials
      ≡ length w.connections + hands p + failures net w.dials
  pub owned :
      (k : ℕ)
      → has q k + copies k v.connections + copies k v.closed + made net w.dials k
        ≡ has p k + copies k w.connections + copies k w.closed + made net v.dials k

module _ (net : Network) (payload : Bytes) (size conn_type others lost : ℕ) (w : World) where
  step-counting-IsKept :
      (n : ℕ) (q : Pc) (v : World)
      → IsBounded size (holds (counting n) + others) w (counting n)
      → step net payload (counting n) w ≡ done (q, v)
      → IsKept net size others (counting n) q w v
  unfolding step holds has hands
  step-counting-IsKept n q v bounded e =
      let room : length w.connections + n + (1 + others) ≤ size = (bounded n refl).0 in
      subst (λ r. IsKept net size others (counting n) r.0 w r.1) (done-injective e)
        (record {
          sized = refl;
          typed = refl;
          fewer = omega arith;
          bound = omega arith;
          exact = λ none. absurd (omega arith);
          reads = λ m h. absurd (ground arith);
          times_out = λ t. absurd (ground arith);
          errors = λ none. absurd (omega arith);
          owned = λ k. refl;
          spent = ground arith;
        })

  step-other-IsKept :
      (p q : Pc) (v : World)
      → Balances (holds p + (others + lost)) size conn_type w
      → ¬ p ≡ timed_out
      → ((n : ℕ) → ¬ p ≡ counting n)
      → step net payload p w ≡ done (q, v)
      → IsKept net size others p q w v
  step-other-IsKept p q v b running other e =
      let i =
        step-IsMoved net payload size conn_type (others + lost) p w b running
          (λ n h. absurd (other n h)) in
      let same : (i.pc, i.after) ≡ (q, v) = done-injective (sym i.steps ∙ e) in
      let counted = i.counted other in
      let after = i.kept.places in
      let before = b.places in
      subst (λ r. IsKept net size others p r.0 w r.1) same
        (record {
          sized = i.sized;
          typed = i.typed;
          fewer = omega arith;
          bound = omega arith;
          exact = λ none. omega arith;
          reads = λ n h. (omega (arith, i.current n h), λ none. i.current n h ∙ none);
          times_out = i.times_out;
          errors = λ none. sym counted ∙ none;
          owned = i.owned;
          spent = i.spent;
        })

  pub step-IsKept :
      (p q : Pc) (v : World)
      → Balances (holds p + (others + lost)) size conn_type w
      → IsBounded size (holds p + others) w p
      → step net payload p w ≡ done (q, v)
      → IsKept net size others p q w v
  step-IsKept p q v b bounded e = elim (timed_out-cases p) [
    | inl t ↦ absurd (
        panics-done
          (sym (step-timed_out net payload w) ∙ ap (λ x. step net payload x w) (sym t) ∙ e))
    | inr running ↦ elim (counting-cases p) [
      | inl other ↦ step-other-IsKept p q v b running other e
      | inr (n, at) ↦
          subst (λ x. IsKept net size others x q w v) (sym at)
            (step-counting-IsKept n q v
              (subst (λ x. IsBounded size (holds x + others) w x) at bounded)
              (ap (λ x. step net payload x w) (sym at) ∙ e))
    ]
  ]
