-- ===== src/Channels/Authorised.antt =====
-- With token authentication, what reaches the relay goroutines.
use statsgod.Metric.Parse.Results.{parse_metric_string-IsResult}
use statsgod.Prelude.Outcome.{done}
use statsgod.Metric.Parse.{parse_metric_string}
use statsgod.Channels.Cut.{IsCut}
use statsgod.Auth.{is_valid, split_dot, authenticate, auth_config_token}
use mathlib.Core.Path.{subst}
use statsgod.Channels.Accounted.{
  pushed_by-done, run_fresh-IsAccounted, fresh, pushed_for, pushed_by,
}
use statsgod.Auth.Tokens.{split_dot-some, Undotted}
use statsgod.Ingest.{handle_message}
use statsgod.Metric.{Metric}
use statsgod.Prelude.Dict.{lookup, Dict}
use statsgod.Channels.Dealt.{Pairwise, Takes}
use statsgod.Float.{Float64}
use statsgod.Prelude.{
  All-left, All-map, Bool-cases, ◌⊎◌, sym, none, inr, inl, Option-cases, All-append, true, suc,
  arith, Bytes, some, ◌∷◌, Bool, ◌≡◌, [], ◌++◌, ℕ, map, All, List,
}
use statsgod.Channels.Dealt.{one, nothing}
use statsgod.Prelude.{zero, suc}
use statsgod.Channels.{run_schedule, Action, take_from, Channels}

module _ {ℓ κ} {A : Type ℓ} (P : A → Type κ) where
  abbrev AllAll : List (List A) → Type κ
  AllAll = All (All P)

  empties-AllAll : (xss : List (List A)) → AllAll (map (λ xs. []) xss)
  empties-AllAll [] = tt
  empties-AllAll (xs ∷ xss) = (tt, empties-AllAll xss)

  take_from-AllAll :
      (i : ℕ) (x : A) (xss yss : List (List A))
      → take_from i xss ≡ some (x, yss)
      → P x
      → AllAll yss
      → AllAll xss
  unfolding take_from
  take_from-AllAll i x [] yss e p a = tt
  take_from-AllAll zero x ([] ∷ xss) yss e p a = absurd (ground arith)
  take_from-AllAll zero x ((z ∷ xs) ∷ xss) yss e p a =
      let all : yss ≡ xs ∷ xss = ground arith in
      let same : x ≡ z = ground arith in let (q, r) = subst AllAll all a in ((subst P same p, q), r)
  take_from-AllAll (suc i) x (xs ∷ xss) yss e p a = elim (Option-cases (take_from i xss)) [
    | inl fails ↦ absurd (ground arith)
    | inr ((z, wss), took) ↦
        let all : yss ≡ xs ∷ wss = ground arith in
        let same : x ≡ z = ground arith in
        let (q, r) = subst AllAll all a in (q, take_from-AllAll i z xss wss took (subst P same p) r)
  ]

  Takes-AllAll :
      {xss yss : List (List A)} {xs : List A}
      → Takes xss xs yss
      → All P xs
      → AllAll yss
      → AllAll xss
  Takes-AllAll nothing a b = b
  Takes-AllAll {xss} (one {yss} {x} i e t) (p, a) b =
      take_from-AllAll i x xss yss e p (Takes-AllAll t a b)

module _ {A : Type 0} where
  -- The item stands in the list, or in one of the lists.
  abbrev pub Member : A → List A → Type 0
  Member x [] = ⊥
  Member x (y ∷ ys) = (x ≡ y) ⊎ Member x ys

  abbrev pub Among : A → List (List A) → Type 0
  Among x [] = ⊥
  Among x (xs ∷ xss) = Member x xs ⊎ Among x xss

  take_from-Among :
      (i : ℕ) (x : A) (xss yss : List (List A))
      → take_from i xss ≡ some (x, yss)
      → Among x xss × ((z : A) → Among z yss → Among z xss)
  unfolding take_from
  take_from-Among i x [] yss e = absurd (ground arith)
  take_from-Among zero x ([] ∷ xss) yss e = absurd (ground arith)
  take_from-Among zero x ((y ∷ xs) ∷ xss) yss e =
      let all : yss ≡ xs ∷ xss = ground arith in
      let same : x ≡ y = ground arith in
      (
        inl (inl same),
        λ z a. elim (subst (Among z) all a) [ inl here ↦ inl (inr here) | inr there ↦ inr there ],
      )
  take_from-Among (suc i) x (xs ∷ xss) yss e = elim (Option-cases (take_from i xss)) [
    | inl fails ↦ absurd (ground arith)
    | inr ((y, wss), took) ↦
        let all : yss ≡ xs ∷ wss = ground arith in
        let same : x ≡ y = ground arith in
        let (here, there) = take_from-Among i y xss wss took in
        (
          inr (subst (λ v. Among v xss) (sym same) here),
          λ z a. elim (subst (Among z) all a) [ inl h ↦ inl h | inr t ↦ inr (there z t) ],
        )
  ]

  -- What is taken from the lists stands in them.
  Takes-Among :
      {xss yss : List (List A)} {xs : List A} → Takes xss xs yss → All (λ x. Among x xss) xs
  Takes-Among nothing = tt
  Takes-Among {xss} (one {yss} {x} {xs} i e t) =
      let (here, there) = take_from-Among i x xss yss e in
      (here, All-map _ _ xs there (Takes-Among t))

module _ (F : Type 0) ⦃f : Float64 F⦄ (tokens : Dict Bool) where
  -- The metric is parsed from what follows the token of a message that a connection had to send: the text
  -- before its first dot, which is valid.
  pub record IsAuthorised (clients : List (List Bytes)) (metric : Metric F) : Type 0 where
    pub message : Bytes
    pub from : Among message clients
    pub token : Bytes
    pub rest : Bytes
    pub shape : message ≡ token ++ b'.' ∷ rest
    pub undotted : Undotted token
    pub valid : lookup token tokens ≡ some true
    pub parsed : parse_metric_string rest ≡ done (metric, none)

  handle_message-cases :
      (clients : List (List Bytes)) (m : Bytes)
      → Among m clients
      → (handle_message {F = F} (auth_config_token tokens) m ≡ done [])
        ⊎ ((metric : Metric F) × (handle_message (auth_config_token tokens) m ≡ done (metric ∷ []))
            × IsAuthorised clients metric)
  unfolding handle_message authenticate
  handle_message-cases clients m from = elim (Option-cases (split_dot m).1) [
    | inl missing ↦ inl (ground arith)
    | inr (rest, e) ↦ elim (Bool-cases (is_valid (lookup (split_dot m).0 tokens))) [
      | inr invalid ↦ inl (ground arith)
      | inl ok ↦ elim (parse_metric_string-IsResult ⦃f = f⦄ rest) [
        | inr (failure, h) ↦ inl (ground arith)
        | inl (metric, h, parsed) ↦ inr (
          metric,
          ground arith,
          record {
            message = m;
            from = from;
            token = (split_dot m).0;
            rest = rest;
            shape = (split_dot-some m rest e).0;
            undotted = (split_dot-some m rest e).1;
            valid = ground arith;
            parsed = h;
          },
        )
      ]
    ]
  ]

  module _ (clients : List (List Bytes)) where
    pushed_by-AreAuthorised :
        (m : Bytes)
        → Among m clients
        → All (IsAuthorised clients) (pushed_by (auth_config_token tokens) m)
    pushed_by-AreAuthorised m from = elim (handle_message-cases clients m from) [
      | inl nothing_made ↦
          subst (All (IsAuthorised clients))
            (sym (pushed_by-done (auth_config_token tokens) m [] nothing_made)) tt
      | inr (metric, made, authorised) ↦
          subst (All (IsAuthorised clients))
            (sym (pushed_by-done (auth_config_token tokens) m (metric ∷ []) made)) (authorised, tt)
    ]

    pushed_for-AreAuthorised :
        (ms : List Bytes)
        → All (λ m. Among m clients) ms
        → All (IsAuthorised clients) (pushed_for (auth_config_token tokens) ms)
    pushed_for-AreAuthorised [] from = tt
    pushed_for-AreAuthorised (m ∷ ms) (from, later) =
        All-append (IsAuthorised clients) (pushed_by (auth_config_token tokens) m)
          (pushed_for (auth_config_token tokens) ms) (pushed_by-AreAuthorised m from)
          (pushed_for-AreAuthorised ms later)

  -- What the relay goroutines have received, and what waits to be received, is authorised.
  pub record AreAuthorised (clients : List (List Bytes)) (t : Channels F) : Type 0 where
    pub shares : List (List (Metric F))
    pub cut : Pairwise IsCut shares t.relays
    pub received : All (All (IsAuthorised clients)) shares
    pub waiting : All (IsAuthorised clients) t.relay_channel
    pub pushing : All (IsAuthorised clients) t.parsing

  -- With token authentication, whatever the connections send and in whatever order the goroutines run:
  -- every metric that a relay goroutine has aggregated and flushed, and every one that waits to be, was
  -- parsed from a message of one of the connections whose text before the first dot is a token that the
  -- configuration holds valid, and from what follows that dot.
  pub run_fresh-AreAuthorised :
      (clients : List (List Bytes)) (relays : ℕ) (schedule : List Action) (t : Channels F)
      → run_schedule
          (auth_config_token tokens)
          schedule
          (fresh (auth_config_token tokens) clients relays)
        ≡ some t
      → AreAuthorised clients t
  run_fresh-AreAuthorised clients relays schedule t h =
      let P : Metric F → Type 0 = IsAuthorised clients in
      let a = run_fresh-IsAccounted (auth_config_token tokens) clients relays schedule t h in
      let all =
        subst (All P) a.parsed_in_order
          (pushed_for-AreAuthorised clients a.sent (Takes-Among a.sends_in_order)) in
      let (before, later) = All-left P (a.taken ++ t.relay_channel ++ t.parsing) _ all in
      let (received, pushing) = All-left P (a.taken ++ t.relay_channel) t.parsing before in
      let (taken, waiting) = All-left P a.taken t.relay_channel received in
      record {
        shares = a.shares;
        cut = a.cut;
        received = Takes-AllAll P a.shared taken (empties-AllAll P a.shares);
        waiting = waiting;
        pushing = pushing;
      }
