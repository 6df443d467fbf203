-- ===== src/Channels/Drained.antt =====
-- The goroutines come to an end with what the connections have sent, and leave nothing behind.
use statsgod.Channels.Costs.{steps_left, run_schedule-steps_left, steps_of, total_cost}
use statsgod.Channels.Progress.{run_schedule-IsIdle, IsIdle}
use statsgod.Channels.Cut.{IsCut, new_relays}
use mathlib.Core.Path.{subst}
use statsgod.Channels.Accounted.{run_fresh-IsAccounted, pushed_for, fresh, IsAccounted}
use statsgod.Metric.{Metric}
use statsgod.Auth.{Auth}
use statsgod.Channels.Dealt.{Pairwise, IsMerge, one, nothing, Takes}
use statsgod.Float.{Float64}
use statsgod.Prelude.{
  append-nil, ◌++◌, sym, Bytes, ◌∙◌, zero, suc, refl, ap, inr, Option-cases, inl, length, ◌≤◌,
  arith, ◌+◌, map, [], some, ◌∷◌, ◌≡◌, ℕ, List,
}
use mathlib.Core.Option.{some-injective}
use statsgod.Channels.{run_schedule, act, Action, take_from, Channels}

take_from-empties {ℓ} :
    {A : Type ℓ} (i : ℕ) (x : A) (xss yss : List (List A))
    → take_from i xss ≡ some (x, yss)
    → map (λ xs. []) yss ≡ map {B = List A} (λ xs. []) xss
unfolding take_from
take_from-empties i x [] yss e = absurd (ground arith)
take_from-empties zero x ([] ∷ xss) yss e = absurd (ground arith)
take_from-empties zero x ((z ∷ xs) ∷ xss) yss e =
    let all : yss ≡ xs ∷ xss = ground arith in rw all refl
take_from-empties (suc i) x (xs ∷ xss) yss e = elim (Option-cases (take_from i xss)) [
  | inl fails ↦ absurd (ground arith)
  | inr ((z, wss), took) ↦
      let all : yss ≡ xs ∷ wss = ground arith in
      rw all (ap (λ zss. [] ∷ zss) (take_from-empties i z xss wss took))
]

Takes-empties {ℓ} :
    {A : Type ℓ} {xss yss : List (List A)} {xs : List A}
    → Takes xss xs yss
    → map (λ xs. []) yss ≡ map {B = List A} (λ xs. []) xss
Takes-empties nothing = refl
Takes-empties {xss} (one {yss} {x} i e t) = Takes-empties t ∙ take_from-empties i x xss yss e

length-new_relays : (F : Type 0) (n : ℕ) → length (new_relays {F = F} n) ≡ n
length-new_relays F zero = refl
length-new_relays F (suc n) = ap suc (length-new_relays F n)

module _ {F : Type 0} ⦃f : Float64 F⦄ (auth : Auth) where
  -- Every message of every connection was parsed, and each metric that they make is in the share of one
  -- relay goroutine: `sent` has the messages of the connections, each in its order, the shares have the
  -- metrics of these, each in this order, and each goroutine has aggregated and flushed its share.
  pub record IsDelivered (clients : List (List Bytes)) (t : Channels F) : Type 0 where
    pub sent : List Bytes
    pub shares : List (List (Metric F))
    pub every_message : IsMerge clients sent
    pub every_metric : IsMerge shares (pushed_for auth sent)
    pub cut : Pairwise IsCut shares t.relays

  IsIdle-IsDelivered :
      (clients : List (List Bytes)) (t : Channels F)
      → IsAccounted auth clients t
      → IsIdle t
      → IsDelivered clients t
  IsIdle-IsDelivered clients t a idle = record {
    sent = a.sent;
    shares = a.shares;
    every_message =
        subst (Takes clients a.sent) (idle.all_sent ∙ Takes-empties a.sends_in_order)
          a.sends_in_order;
    every_metric =
        subst (IsMerge a.shares)
          (sym (
            a.parsed_in_order
            ∙ simp (idle.all_received, idle.all_pushed, idle.all_parsed, append-nil)))
          a.shared;
    cut = a.cut;
  }

  run_schedule-append :
      (schedule more : List Action) (s t : Channels F)
      → run_schedule auth schedule s ≡ some t
      → run_schedule auth (schedule ++ more) s ≡ run_schedule auth more t
  unfolding run_schedule
  run_schedule-append [] more s t h = ap (run_schedule auth more) (some-injective _ _ h)
  run_schedule-append (a ∷ schedule) more s t h = elim (Option-cases (act auth a s)) [
    | inl waits ↦ absurd (ground (arith, (rw (waits, run_schedule) at h)))
    | inr (u, acts) ↦
        rw (acts, run_schedule)
          (run_schedule-append schedule more u t (rw (acts, run_schedule) at h))
  ]

  -- With a relay goroutine at least, and whatever schedule has run: as long as something is left to do the
  -- goroutines do not all wait for one another, and some more steps end it. Then every message of every
  -- connection has been parsed, each connection's in order, and each metric has come to exactly one relay
  -- goroutine, which has aggregated it in the map of one flush, or in the one that it still holds. The steps
  -- that are no flushes are 4 for each message at most.
  pub run_fresh-IsDelivered :
      (clients : List (List Bytes)) (relays : ℕ) (schedule : List Action) (t : Channels F)
      → 1 ≤ relays
      → run_schedule auth schedule (fresh auth clients relays) ≡ some t
      → (more : List Action) × (u : Channels F) × (run_schedule auth more t ≡ some u)
        × IsIdle u
        × IsDelivered clients u
        × (total_cost schedule + length more ≤ steps_of clients)
  run_fresh-IsDelivered clients relays schedule t some_relay h =
      let start = fresh auth clients relays in
      let (less, same) = run_schedule-steps_left auth schedule start t h in
      let (more, u, runs, idle, all_cost) =
        run_schedule-IsIdle auth (steps_left t) t (omega (arith, length-new_relays F relays))
          (omega arith) in
      let all = run_schedule-append schedule more start t h ∙ runs in
      let (rest, same_again) = run_schedule-steps_left auth more t u runs in
      (
        more,
        u,
        runs,
        idle,
        IsIdle-IsDelivered clients u
            (run_fresh-IsAccounted auth clients relays (schedule ++ more) u all) idle,
        omega arith,
      )
