-- ===== src/Auth.antt =====
-- statsgod/auth.go: how a metric string is authenticated before it is parsed. The string that
-- `Authenticate` changes through its pointer is returned beside the result.
pub mod Tokens
use statsgod.Prelude.Dict.{lookup, Dict}
use statsgod.Prelude.{
  [], ◌==◌, bytes_eq, some, false, ◌∷◌, if◌then◌else◌, true, none, Bool, codes, Option, Bytes, ℕ,
}

abbrev pub auth_type_none : Bytes
auth_type_none = codes "none"

abbrev pub auth_type_config_token : Bytes
auth_type_config_token = codes "token"

-- The implementations of the interface `Auth`.
pub data Auth : Type 0 where
  auth_none : Auth
  auth_config_token : Dict Bool → Auth

pub data AuthError : Type 0 where
  invalid_token missing_token : AuthError

-- `service.auth` and `service.tokens` of the configuration.
unfoldable pub create_auth : Bytes → Dict Bool → Auth
create_auth auth tokens =
    if bytes_eq auth auth_type_config_token then auth_config_token tokens else auth_none

-- strings.SplitN(s, ".", 2): the text before the first dot and the text behind it, or the text alone.
unfoldable pub split_dot : Bytes → Bytes × Option Bytes
split_dot [] = ([], none)
split_dot (c ∷ s) =
    let (first, second) = split_dot s in if c == b'.' then ([], some s) else (c ∷ first, second)

-- What `Authenticate` returns, and the metric string that it leaves.
pub record Authenticated : Type 0 where
  pub metric : Bytes
  pub ok : Bool
  pub error : Option AuthError

-- A key that the map lacks reads as `false`.
abbrev pub is_valid : Option Bool → Bool
is_valid none = false
is_valid (some token) = token

unfoldable pub authenticate : Auth → Bytes → Authenticated
authenticate auth_none metric = record { metric = metric; ok = true; error = none }
authenticate (auth_config_token tokens) metric =
    let (token, second) = split_dot metric in
    elim second [
      | some rest ↦
          if is_valid (lookup token tokens)
          then record { metric = rest; ok = true; error = none }
          else record { metric = metric; ok = false; error = some invalid_token }
      | none ↦ record { metric = metric; ok = false; error = some missing_token }
    ]
