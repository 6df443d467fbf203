-- ===== src/Auth/Tokens.antt =====
-- Who passes `AuthConfigToken`, and with what metric string.
use statsgod.Prelude.Dict.{lookup, Dict}
use statsgod.Auth.{auth_config_token, authenticate, split_dot}
use statsgod.Prelude.{
  ◌↔◌, false, true, [], arith, Bool, some, none, ◌∷◌, ◌≢◌, ◌≡◌, ◌++◌, All, Bytes, refl,
}

-- No dot.
abbrev pub Undotted : Bytes → Type 0
Undotted = All λ c. c ≢ b'.'

pub split_dot-dot :
    (token rest : Bytes) → Undotted token → split_dot (token ++ b'.' ∷ rest) ≡ (token, some rest)
unfolding split_dot
split_dot-dot [] rest u = refl
split_dot-dot (c ∷ token) rest u = ground (arith, split_dot-dot token rest u.1)

split_dot-none : (s : Bytes) → Undotted s → split_dot s ≡ (s, none)
unfolding split_dot
split_dot-none [] u = refl
split_dot-none (c ∷ s) u = ground (arith, split_dot-none s u.1)

pub split_dot-some :
    (s rest : Bytes)
    → (split_dot s).1 ≡ some rest
    → (s ≡ (split_dot s).0 ++ b'.' ∷ rest) × Undotted (split_dot s).0
unfolding split_dot
split_dot-some [] rest e = absurd (ground arith)
split_dot-some (c ∷ s) rest e = ground (arith, split_dot-some s rest)

-- `AuthConfigToken` lets a metric string through exactly when it is a token without a dot, a dot and
-- a rest, and the map says that the token is valid; the metric string is then that rest.
pub authenticate-token_iff :
    (tokens : Dict Bool) (metric rest : Bytes)
    → (authenticate (auth_config_token tokens) metric
        ≡ record { metric = rest; ok = true; error = none })
      ↔ ((token : Bytes) × (metric ≡ token ++ b'.' ∷ rest)
          × Undotted token
          × (lookup token tokens ≡ some true))
unfolding authenticate
authenticate-token_iff tokens metric rest = (
  λ e.
      let (shape, u) = split_dot-some metric rest (ground arith) in
      ((split_dot metric).0, shape, u, ground arith),
  λ (token, shape, u, valid). ground (arith, split_dot-dot token rest u),
)

-- A metric string that `AuthConfigToken` refuses is left as it was, with an error.
pub authenticate-refused :
    (tokens : Dict Bool) (metric : Bytes)
    → (authenticate (auth_config_token tokens) metric).ok ≡ false
    → ((authenticate (auth_config_token tokens) metric).metric ≡ metric)
      × ((authenticate (auth_config_token tokens) metric).error ≢ none)
unfolding authenticate
authenticate-refused tokens metric h = ground arith
