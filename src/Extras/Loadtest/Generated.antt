-- ===== src/Extras/Loadtest/Generated.antt =====
-- The load test against the service: every message of every generated metric is accepted.
use statsgod.Auth.Tokens.{Undotted}
use statsgod.Decimal.{decimal}
use statsgod.Ingest.Delivered.{handle_message-token}
use statsgod.Metric.Parse.{parse_metric_string}
use statsgod.Prelude.Dict.{lookup, Dict}
use statsgod.Prelude.Int.{pos}
use statsgod.Metric.{
  metric_type_set, metric_type_timer, metric_type_gauge, metric_type_counter, Metric,
}
use statsgod.Extras.Loadtest.Totals.{IsConnectionType}
use statsgod.Extras.Loadtest.Accepted.{
  value_of-lt, string_value-accepted, accepted, IsTypeOf, IsKeyByte, ReadsDigits,
}
use statsgod.Ingest.{handle_message}
use statsgod.Extras.Loadtest.{value_of, string_value, TestMetric, Flags}
use statsgod.Float.{Float64}
use statsgod.Auth.{auth_config_token, authenticate, auth_none, Auth}
use statsgod.Extras.Loadtest.Run.{
  generate_metric_names, metric_types, metric_token_of, chosen_connection_type, Choice,
}
use statsgod.Prelude.{
  length-append, All-append, ◌+◌, List, refl, true, some, zero, ◌≢◌, ◌∙◌, none, suc, Bool,
  append_assoc, inr, inl, arith, ◌∷◌, [], ◌++◌, ◌⊎◌, ◌<◌, All, codes, ◌≡◌, length, ◌≤◌, Bytes, ℕ,
}
use statsgod.Prelude.Outcome.{at_index, done}

abbrev pub IsLetter : ℕ → Type 0
IsLetter c = ((b'a' ≤ c) × (c ≤ b'z')) ⊎ ((b'A' ≤ c) × (c ≤ b'Z'))

-- What randutil.String(20, randutil.Alphabet), randutil.IntRange and `r.Intn` promise.
pub record IsChoice (r : Choice) : Type 0 where
  pub twenty : length r.name ≡ 20
  pub letters : All IsLetter r.name
  pub range_from : 1 ≤ r.range 1 6
  pub range_to : r.range 1 6 < 6
  pub intn_lt : r.intn 4 < 4

-- The service checks no tokens and the load test sends none; or the token of the load test has no dot
-- and is valid for the service.
abbrev pub IsAdmitted : Auth → Bytes → Type 0
IsAdmitted auth token =
    ((auth ≡ auth_none) × (token ≡ []))
    ⊎ ((tokens : Dict Bool) × (auth ≡ auth_config_token tokens)
        × (token ≢ [])
        × Undotted token
        × (lookup token tokens ≡ some true))

abbrev pub test_prefix : Bytes
test_prefix = codes "statsgod.test."

pub key_of-name : (name : Bytes) → All IsLetter name → All IsKeyByte name
key_of-name [] k = tt
key_of-name (c ∷ name) (h, k) = (ground arith, key_of-name name k)

metric_type-IsTypeOf :
    (i : ℕ)
    → i < 4
    → (metric_type : Bytes) × (t : ℕ) × (at_index metric_types i ≡ done metric_type)
      × IsTypeOf metric_type t
metric_type-IsTypeOf zero h = (codes "c", metric_type_counter, refl, inl (refl, refl))
metric_type-IsTypeOf (suc zero) h = (codes "g", metric_type_gauge, refl, inr (inl (refl, refl)))
metric_type-IsTypeOf (suc (suc zero)) h =
    (codes "ms", metric_type_timer, refl, inr (inr (inl (refl, refl))))
metric_type-IsTypeOf (suc (suc (suc zero))) h =
    (codes "s", metric_type_set, refl, inr (inr (inr (refl, refl))))
metric_type-IsTypeOf (suc (suc (suc (suc i)))) h = absurd (omega arith)

chosen-IsConnectionType :
    (flags : Flags) (r : Choice) → IsChoice r → IsConnectionType (chosen_connection_type flags r)
unfolding chosen_connection_type
chosen-IsConnectionType flags r c = ground (arith, c.range_from, c.range_to)

-- The message of a metric, with the value that is drawn for it, makes the service push just the metric
-- that it describes.
abbrev pub IsAcceptedBy : (F : Type 0) ⦃f : Float64 F⦄ → Auth → (ℕ → ℕ) → TestMetric → Type 0
IsAcceptedBy F auth intn m =
    (key : Bytes) × (t : ℕ) × (IsTypeOf m.metric_type t)
    × IsConnectionType m.connection_type
    × (handle_message {F = F} auth (string_value m (value_of intn m.metric_type))
        ≡ done (accepted key t (value_of intn m.metric_type) ∷ []))

module _ {F : Type 0} ⦃f : Float64 F⦄ where
  handle_message-admitted :
      (auth : Auth) (token s : Bytes)
      → IsAdmitted auth token
      → handle_message {F = F} auth (metric_token_of token ++ s) ≡ handle_message auth_none s
  unfolding metric_token_of
  handle_message-admitted auth token s (inl (open_auth, no_token)) = rw (open_auth, no_token)
  handle_message-admitted auth [] s (inr (tokens, e, ne, u, valid)) = absurd (ne refl)
  handle_message-admitted auth (c ∷ token) s (inr (tokens, e, ne, u, valid)) =
      rw (e, append_assoc token (b'.' ∷ []) s)
        (handle_message-token tokens (c ∷ token) s u ∙ rw valid)

  pub handle_message-parsed :
      (s : Bytes) (m : Metric F)
      → parse_metric_string s ≡ done (m, none)
      → handle_message auth_none s ≡ done (m ∷ [])
  unfolding handle_message authenticate
  handle_message-parsed s m e = rw e

  module _ (reads : ReadsDigits F) (auth : Auth) (intn : ℕ → ℕ) (flags : Flags)
      (token : Bytes) where
    generated-IsAcceptedBy :
        (r : Choice) (metric_type : Bytes) (t : ℕ)
        → IsAdmitted auth token
        → IsChoice r
        → IsTypeOf metric_type t
        → intn 100 < 100
        → intn 1000 < 1000
        → IsAcceptedBy F auth intn (record {
          key = metric_token_of token ++ test_prefix ++ r.name;
          metric_type = metric_type;
          metric_value = pos 0;
          connection_type = chosen_connection_type flags r;
        })
    unfolding string_value
    generated-IsAcceptedBy r metric_type t a c typed p q =
        let key : Bytes = test_prefix ++ r.name in
        let value : ℕ = value_of intn metric_type in
        let m : TestMetric = record {
          key = key;
          metric_type = metric_type;
          metric_value = pos 0;
          connection_type = chosen_connection_type flags r;
        } in
        (
          key,
          t,
          typed,
          chosen-IsConnectionType flags r c,
          rw
              (
                append_assoc (metric_token_of token) test_prefix r.name,
                append_assoc (metric_token_of token) key
                    (b':' ∷ (decimal value ++ b'|' ∷ metric_type)),
              )
              (handle_message-admitted auth token (string_value m value) a
                ∙ handle_message-parsed (string_value m value) (accepted key t value) (
                    string_value-accepted reads key metric_type t value m refl refl (omega arith)
                      (omega (arith, c.twenty)) (ground (arith, key_of-name r.name c.letters)) typed
                      (value_of-lt intn metric_type p q))),
        )

    generated-All :
        (choices : List Choice) (store : List TestMetric)
        → IsAdmitted auth token
        → All IsChoice choices
        → intn 100 < 100
        → intn 1000 < 1000
        → All (IsAcceptedBy F auth intn) store
        → (all : List TestMetric) × (generate_metric_names flags choices store
              (metric_token_of token)
            ≡ done all)
          × (length all ≡ length store + length choices)
          × All (IsAcceptedBy F auth intn) all
    unfolding generate_metric_names
    generated-All [] store a c p q h = (store, refl, omega arith, h)
    generated-All (r ∷ choices) store a (here, c) p q h =
        let (metric_type, t, e, typed) = metric_type-IsTypeOf (r.intn 4) here.intn_lt in
        let m : TestMetric = record {
          key = metric_token_of token ++ test_prefix ++ r.name;
          metric_type = metric_type;
          metric_value = pos 0;
          connection_type = chosen_connection_type flags r;
        } in
        let (all, e', count, are) = generated-All choices (store ++ m ∷ []) a c p q (
          All-append _ store (m ∷ []) h
            (generated-IsAcceptedBy r metric_type t a here typed p q, tt)) in
        (
          all,
          rw (e, generate_metric_names) e',
          omega (arith, count, length-append store (m ∷ [])),
          are,
        )

    -- If the token of the load test is valid for the service, or there is none and none is asked for,
    -- and the sources of random choices and strconv.ParseFloat (below 1000) do what they promise:
    -- `generateMetricNames` makes as many metrics as there are rounds, and the service takes the message
    -- of each of them, for which it pushes one metric, with the type and the value of the message.
    pub generate_metric_names-AreAccepted :
        (choices : List Choice)
        → IsAdmitted auth token
        → All IsChoice choices
        → intn 100 < 100
        → intn 1000 < 1000
        → (store : List TestMetric) × (generate_metric_names flags choices []
              (metric_token_of token)
            ≡ done store)
          × (length store ≡ length choices)
          × All (IsAcceptedBy F auth intn) store
    generate_metric_names-AreAccepted choices a c p q =
        let (all, e, count, are) = generated-All choices [] a c p q tt in
        (all, e, omega (arith, count), are)
