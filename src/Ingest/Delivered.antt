-- ===== src/Ingest/Delivered.antt =====
-- What `ParseMetrics` pushes.
use statsgod.Metric.Parse.Results.{parse_metric_string-IsResult, IsParsed}
use statsgod.Prelude.Outcome.{done}
use statsgod.Auth.Tokens.{split_dot-dot, Undotted}
use statsgod.Metric.{Metric}
use statsgod.Prelude.Dict.{lookup, Dict}
use statsgod.Auth.{is_valid, Authenticated, auth_none, auth_config_token, Auth, authenticate}
use statsgod.Ingest.{handle_round, Round, parse_metrics, handle_message}
use statsgod.Float.{Float64}
use statsgod.Prelude.{
  ◌≤◌, length, if◌then◌else◌, All-append, inr, none, Option-cases, inl, Option, Bool-cases, arith,
  ◌++◌, some, All, [], ◌∷◌, ◌≡◌, Bool, Bytes, List, refl,
}

module _ {F : Type 0} ⦃f : Float64 F⦄ where
  -- With token authentication a message `token.s` is treated as `s` is without authentication, if the
  -- token is valid, and has no effect otherwise.
  pub handle_message-token :
      (tokens : Dict Bool) (token s : Bytes)
      → Undotted token
      → handle_message {F = F} (auth_config_token tokens) (token ++ b'.' ∷ s)
        ≡ (if is_valid (lookup token tokens) then handle_message auth_none s else done [])
  unfolding handle_message authenticate
  handle_message-token tokens token s u = ground (arith, split_dot-dot token s u)

  -- At most one metric is pushed.
  pub handle_message-IsParsed :
      (auth : Auth) (s : Bytes)
      → (pushed : List (Metric F)) × (handle_message auth s ≡ done pushed)
        × (length pushed ≤ 1)
        × All IsParsed pushed
  unfolding handle_message
  handle_message-IsParsed auth s =
      let a : Authenticated = authenticate auth s in
      elim (Option-cases a.error) [
        | inr (refused, h) ↦ ([], ground arith, omega arith, tt)
        | inl accepted ↦ elim (Bool-cases a.ok) [
          | inr denied ↦ ([], ground arith, omega arith, tt)
          | inl ok ↦ elim (parse_metric_string-IsResult ⦃f = f⦄ a.metric) [
            | inr (failure, h) ↦ ([], ground arith, omega arith, tt)
            | inl (m, e, parsed) ↦ (m ∷ [], ground arith, omega arith, (parsed, tt))
          ]
        ]
      ]

  handle_round-IsParsed :
      (auth : Auth) (message : Option Bytes)
      → (pushed : List (Metric F)) × (handle_round auth message ≡ done pushed) × All IsParsed pushed
  unfolding handle_round
  handle_round-IsParsed auth none = ([], refl, tt)
  handle_round-IsParsed auth (some s) =
      let (pushed, e, few, p) = handle_message-IsParsed auth s in (pushed, e, p)

  -- The loop never panics, and every metric that it pushes is a parsed one.
  pub parse_metrics-IsParsed :
      (auth : Auth) (rounds : List Round)
      → (pushed : List (Metric F)) × (parse_metrics auth rounds ≡ done pushed) × All IsParsed pushed
  unfolding parse_metrics
  parse_metrics-IsParsed auth [] = ([], refl, tt)
  parse_metrics-IsParsed auth (r ∷ rounds) =
      let (first, e, p) = handle_round-IsParsed auth r.message in
      let (later, e', p') = parse_metrics-IsParsed auth rounds in
      elim (Bool-cases r.quit) [
        | inl quit ↦ (first, ground arith, p)
        | inr goes_on ↦ (first ++ later, ground arith, All-append IsParsed first later p p')
      ]
