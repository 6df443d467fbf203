-- ===== src/Channels/Costs.antt =====
-- How many steps the goroutines can still make.
use statsgod.Channels.Acted.{
  map_flushed, act-Acted, metric_received, metric_pushed, message_parsed, message_sent, Acted,
}
use statsgod.Auth.{Auth}
use statsgod.Float.{Float64}
use statsgod.Prelude.{
  sym, ◌∙◌, zero, suc, length-append, refl, ap, inr, Option-cases, inl, length, ◌≤◌, arith, ◌*◌,
  ◌+◌, [], some, ◌∷◌, ◌≡◌, ℕ, List,
}
use mathlib.Core.Option.{some-injective}
use statsgod.Channels.{
  flushes, parses, receives, sends, pushes, run_schedule, act, Action, update_at, take_from,
  Channels,
}

-- What the first messages still make of work: a message is sent, parsed, and its metric is pushed and
-- received.
abbrev pub steps_of {ℓ} : {A : Type ℓ} → List (List A) → ℕ
steps_of [] = 0
steps_of (xs ∷ xss) = 4 * length xs + steps_of xss

take_from-steps_of {ℓ} :
    {A : Type ℓ} (i : ℕ) (x : A) (xss yss : List (List A))
    → take_from i xss ≡ some (x, yss)
    → steps_of xss ≡ 4 + steps_of yss
unfolding take_from
take_from-steps_of i x [] yss e = absurd (ground arith)
take_from-steps_of zero x ([] ∷ xss) yss e = absurd (ground arith)
take_from-steps_of zero x ((z ∷ xs) ∷ xss) yss e =
    let all : yss ≡ xs ∷ xss = ground arith in rw all (omega arith)
take_from-steps_of (suc i) x (xs ∷ xss) yss e = elim (Option-cases (take_from i xss)) [
  | inl fails ↦ absurd (ground arith)
  | inr ((z, wss), took) ↦
      let all : yss ≡ xs ∷ wss = ground arith in
      let less : steps_of xss ≡ 4 + steps_of wss = take_from-steps_of i z xss wss took in
      rw all (omega arith)
]

update_at-length {ℓ} :
    {A : Type ℓ} (i : ℕ) (g : A → A) (xs ys : List A)
    → update_at i g xs ≡ some ys
    → length ys ≡ length xs
unfolding update_at
update_at-length i g [] ys e = absurd (ground arith)
update_at-length zero g (x ∷ xs) ys e = let all : ys ≡ g x ∷ xs = ground arith in rw all refl
update_at-length (suc i) g (x ∷ xs) ys e = elim (Option-cases (update_at i g xs)) [
  | inl fails ↦ absurd (ground arith)
  | inr (zs, updated) ↦
      let all : ys ≡ x ∷ zs = ground arith in rw all (ap suc (update_at-length i g xs zs updated))
]

-- The most steps that the goroutines can still make.
abbrev pub steps_left : {F : Type 0} → Channels F → ℕ
steps_left s =
    steps_of s.clients + 3 * length s.parse_channel + 2 * length s.parsing + length s.relay_channel

-- A flush is not counted, since a relay goroutine can always flush again.
abbrev pub cost : Action → ℕ
cost (flushes j config tick) = 0
cost (sends i) = 1
cost parses = 1
cost pushes = 1
cost (receives j) = 1

-- The steps that are no flushes.
abbrev pub total_cost : List Action → ℕ
total_cost [] = 0
total_cost (a ∷ schedule) = cost a + total_cost schedule

module _ {F : Type 0} ⦃f : Float64 F⦄ (auth : Auth) where
  pub act-steps_left :
      (s t : Channels F) (a : Action) → Acted auth s t a → steps_left t + cost a ≤ steps_left s
  act-steps_left s t a (message_sent i m rest took room e) =
      let less = take_from-steps_of i m s.clients rest took in
      rw e (omega (arith, less, length-append s.parse_channel (m ∷ [])))
  act-steps_left s t a (message_parsed m rest pushed idle e handled few end) =
      let l = ap length e in let none_left = ap length idle in rw end (omega (arith, few))
  act-steps_left s t a (metric_pushed metric rest e room end) =
      let l = ap length e in rw end (omega (arith, length-append s.relay_channel (metric ∷ [])))
  act-steps_left s t a (metric_received j metric rest relays e updated end) =
      let l = ap length e in rw end (omega arith)
  act-steps_left s t a (map_flushed j config tick relays updated end) = rw end (omega arith)

  pub act-relays :
      (s t : Channels F) (a : Action) → Acted auth s t a → length t.relays ≡ length s.relays
  act-relays s t a (message_sent i m rest took room e) = rw e refl
  act-relays s t a (message_parsed m rest pushed idle e handled few end) = rw end refl
  act-relays s t a (metric_pushed metric rest e room end) = rw end refl
  act-relays s t a (metric_received j metric rest relays e updated end) =
      rw end (update_at-length j _ s.relays relays updated)
  act-relays s t a (map_flushed j config tick relays updated end) =
      rw end (update_at-length j _ s.relays relays updated)

  pub run_schedule-steps_left :
      (schedule : List Action) (s t : Channels F)
      → run_schedule auth schedule s ≡ some t
      → (total_cost schedule + steps_left t ≤ steps_left s) × (length t.relays ≡ length s.relays)
  unfolding run_schedule
  run_schedule-steps_left [] s t h = let e = some-injective _ _ h in rw (sym e) (omega arith, refl)
  run_schedule-steps_left (a ∷ schedule) s t h = elim (Option-cases (act auth a s)) [
    | inl waits ↦ absurd (ground (arith, (rw (waits, run_schedule) at h)))
    | inr (u, acts) ↦
        let step = act-Acted auth s u a acts in
        let (less, same) = run_schedule-steps_left schedule u t (rw (acts, run_schedule) at h) in
        let lower = act-steps_left s u a step in (omega arith, same ∙ act-relays s u a step)
  ]
