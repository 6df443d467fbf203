-- ===== src/Shared/Progress.antt =====
-- No goroutine waits for ever: with as many connections as goroutines and no dial that failed, each
-- goroutine can always make its next step, and its try ends.
use mathlib.Core.Path.{subst}
use statsgod.Shared.{
  dialing, failing, counting, checking, idle, adding, closing, releasing, writing, here, run, next,
  timed_out, Reach, System, Pc,
}
use statsgod.Pool.{World, Network}
use statsgod.Prelude.{
  sym, ◌∙◌, ◌<◌, length-append, ap, arith, refl, [], length, ◌≤◌, ◌≡◌, ◌+◌, ◌++◌, ◌∷◌, Bytes, ℕ,
  List,
}
use statsgod.Pool.Accounts.{Balances}
use statsgod.Shared.Places.{holds, total_holds, Balances-lent}
use statsgod.Shared.Kept.{step-IsKept, step-IsMoved}
use statsgod.Shared.Moves.{IsMoved}
use statsgod.Shared.Reached.{IsShared, IsShared-place, Reach-IsShared}

-- Whether a goroutine has no connection.
unfoldable pub missing : Pc → ℕ
missing idle = 0
missing (writing c) = 0
missing (releasing c) = 0
missing (closing c) = 0
missing checking = 0
missing dialing = 0
missing failing = 0
missing (counting n) = 0
missing (adding c) = 0
missing timed_out = 1

unfoldable pub timeouts : List Pc → ℕ
timeouts [] = 0
timeouts (p ∷ threads) = missing p + timeouts threads

missing-running : (p : Pc) → ¬ p ≡ timed_out → missing p ≡ 0
unfolding missing
missing-running idle h = refl
missing-running (writing c) h = refl
missing-running (releasing c) h = refl
missing-running (closing c) h = refl
missing-running checking h = refl
missing-running dialing h = refl
missing-running failing h = refl
missing-running (counting n) h = refl
missing-running (adding c) h = refl
missing-running timed_out h = absurd (h refl)

running-missing : {p : Pc} → missing p ≡ 0 → ¬ p ≡ timed_out
unfolding missing
running-missing h e = absurd (ground (arith, ap missing e))

timeouts-append :
    (before threads : List Pc) → timeouts (before ++ threads) ≡ timeouts before + timeouts threads
unfolding timeouts
timeouts-append [] threads = omega arith
timeouts-append (p ∷ before) threads = ground (arith, timeouts-append before threads)

timeouts-place :
    (before after : List Pc) (p : Pc)
    → timeouts (before ++ p ∷ after) ≡ missing p + timeouts (before ++ after)
unfolding timeouts
timeouts-place before after p =
    ground (arith, timeouts-append before (p ∷ after), timeouts-append before after)

length-place :
    (before after : List Pc) (p : Pc) → length (before ++ p ∷ after) ≡ 1 + length (before ++ after)
length-place before after p =
    ground (arith, length-append before (p ∷ after), length-append before after)

holds-bound : (p : Pc) → holds p ≤ 1
unfolding holds
holds-bound idle = omega arith
holds-bound (writing c) = omega arith
holds-bound (releasing c) = omega arith
holds-bound (closing c) = omega arith
holds-bound checking = omega arith
holds-bound dialing = omega arith
holds-bound failing = omega arith
holds-bound (counting n) = omega arith
holds-bound (adding c) = omega arith
holds-bound timed_out = omega arith

total_holds-length : (threads : List Pc) → total_holds threads ≤ length threads
unfolding total_holds
total_holds-length [] = omega arith
total_holds-length (p ∷ threads) = ground (arith, holds-bound p, total_holds-length threads)

-- With more places than other goroutines and no failed dial, a goroutine does not time out.
no_timeout :
    (size conn_type : ℕ) (others : List Pc) (p q : Pc) (w : World)
    → Balances (holds p + total_holds others) size conn_type w
    → length others < size
    → w.error_count ≡ 0
    → (q ≡ timed_out → (w.connections ≡ []) × (holds p ≡ 0))
    → ¬ q ≡ timed_out
no_timeout size conn_type others p q w b enough none_failed times_out e =
    let (empty, nothing) = times_out e in absurd (ground (arith, total_holds-length others))

module _ (net : Network) (size conn_type : ℕ) (s : System) (b : IsShared size conn_type s)
    (enough : length s.threads ≤ size) (calm : timeouts s.threads ≡ 0) where
  -- No goroutine has timed out, and none was added.
  Reach-calm :
      (t : System)
      → Reach net s t
      → t.world.error_count ≡ 0
      → (timeouts t.threads ≡ 0) × (length t.threads ≡ length s.threads)
  Reach-calm t here none_failed = (calm, refl)
  Reach-calm u (next {t} r (run payload before after p q v at made end)) none_failed =
      let others = before ++ after in
      let placed =
        IsShared-place net size conn_type t before after p at
          (Reach-IsShared net size conn_type s t r b) in
      let k =
        step-IsKept net payload size conn_type (total_holds others) placed.lost t.world p q v
          placed.balanced placed.bounded made in
      let worlds : u.world ≡ v = ap (λ x. x.world) end in
      let before_failed : t.world.error_count ≡ 0 =
        let none : v.error_count ≡ 0 = ap (λ x. x.error_count) (sym worlds) ∙ none_failed in
        k.errors none in
      let (running, lengths) = Reach-calm t r before_failed in
      let rest_calm : 0 + timeouts others ≡ 0 =
        (let whole = sym (timeouts-place before after p) ∙ sym (ap timeouts at) ∙ running in
          omega arith) in
      let l : 1 + length others ≡ length s.threads =
        sym (ap length at ∙ length-place before after p) ∙ lengths in
      let fine =
        no_timeout size conn_type others p q t.world
          (Balances-lent (omega (arith, placed.exact before_failed)) placed.balanced) (omega arith)
          before_failed k.times_out in
      subst (λ x. (timeouts x.threads ≡ 0) × (length x.threads ≡ length s.threads)) (sym end)
        (
          timeouts-place before after q
              ∙ ap (λ m. m + timeouts others) (missing-running q fine)
              ∙ rest_calm,
          length-place before after q ∙ l,
        )

-- Several goroutines share a pool that keeps account, no more of them than it has places, none of them
-- timed out. In whatever order they have run, as long as no failed dial has been counted: any of them can
-- make its next step, which does not panic, wait for ever or time out, keeps the account, and brings its
-- try nearer to its end, which is 6 steps away at most, or starts it.
pub Reach-IsMoved :
    (net : Network) (payload : Bytes) (size conn_type : ℕ) (s t : System) (before after : List Pc)
    (p : Pc)
    → IsShared size conn_type s
    → length s.threads ≤ size
    → timeouts s.threads ≡ 0
    → Reach net s t
    → t.world.error_count ≡ 0
    → t.threads ≡ before ++ p ∷ after
    → (i : IsMoved net payload size conn_type (total_holds (before ++ after)) p t.world) × (¬ i.pc
        ≡ timed_out)
Reach-IsMoved net payload size conn_type s t before after p b enough calm r none_failed at =
    let others = before ++ after in
    let placed =
      IsShared-place net size conn_type t before after p at
        (Reach-IsShared net size conn_type s t r b) in
    let nothing_lost = placed.exact none_failed in
    let balanced = Balances-lent (omega arith) placed.balanced in
    let (running, lengths) = Reach-calm net size conn_type s b enough calm t r none_failed in
    let whole : missing p + timeouts others ≡ 0 =
      sym (timeouts-place before after p) ∙ sym (ap timeouts at) ∙ running in
    let l : 1 + length others ≡ length s.threads =
      sym (ap length at ∙ length-place before after p) ∙ lengths in
    let i =
      step-IsMoved net payload size conn_type (total_holds others) p t.world balanced
        (running-missing (omega arith))
        (λ n h. (placed.bounded n h).1 none_failed ∙ sym none_failed) in
    (
      i,
      no_timeout size conn_type others p i.pc t.world balanced (omega arith) none_failed
          i.times_out,
    )
