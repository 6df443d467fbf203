-- ===== src/Tests/Tokens.antt =====
-- Authentication and the parse loop.
use statsgod.Channels.Accounted.{fresh}
use statsgod.Metric.Aggregate.{combine, aggregate_metric}
use statsgod.Utf8.{string_of, runes}
use statsgod.Metric.Parse.{
  sample_rate_of, get_metric_type, build_metric, unless_full, scan_rune, scan, parse_metric_string,
}
use statsgod.Tests.Running.{parsed}
use statsgod.Channels.Authorised.{run_fresh-AreAuthorised, AreAuthorised}
use statsgod.Channels.{
  update_at, receive_metric, push_metric, parse_message, take_from, receives, send_on, pushes,
  send_message, parses, act, sends, run_schedule, Channels, Action,
}
use statsgod.Float.Fixed.{fixed}
use statsgod.Metric.Parse.Results.{IsParsed}
use statsgod.Ingest.Delivered.{parse_metrics-IsParsed, handle_message-token}
use statsgod.Prelude.Outcome.{done}
use statsgod.Metric.{Metric}
use statsgod.Float.Fixed.{Fixed}
use statsgod.Prelude.{
  refl, ◌++◌, All, bytes_eq, Bytes, ◌↔◌, [], false, if◌then◌else◌, none, ◌∷◌, some, ◌≡◌, arith,
  true, codes, Bool, List,
}
use statsgod.Ingest.{parse_metrics, Round, handle_message}
use statsgod.Auth.{split_dot, is_valid, auth_none, auth_config_token, authenticate}
use statsgod.Auth.Tokens.{authenticate-token_iff, Undotted}
use statsgod.Prelude.Dict.{insert, lookup, Dict}

abbrev tokens : Dict Bool
tokens = (codes "t1", true) ∷ (codes "t2", false) ∷ []

t1-Undotted : Undotted (codes "t1")
t1-Undotted = (ground arith, (ground arith, tt))

authenticate-token_iff_example :
    (authenticate (auth_config_token tokens) (codes "t1.a.b")
      ≡ record { metric = codes "a.b"; ok = true; error = none })
    ↔ ((token : Bytes) × (codes "t1.a.b" ≡ token ++ b'.' ∷ codes "a.b")
        × Undotted token
        × (lookup token tokens ≡ some true))
authenticate-token_iff_example = authenticate-token_iff tokens (codes "t1.a.b") (codes "a.b")

passes :
    authenticate (auth_config_token tokens) (codes "t1.a.b")
    ≡ record { metric = codes "a.b"; ok = true; error = none }
passes =
    authenticate-token_iff_example.1 (codes "t1", refl, t1-Undotted, unfold lookup bytes_eq in refl)

token_message : handle_message {F = Fixed} (auth_config_token tokens) (codes "t1.a:1|c") ≡ (
    if is_valid (lookup (codes "t1") tokens)
    then handle_message auth_none (codes "a:1|c")
    else done [])
token_message = handle_message-token tokens (codes "t1") (codes "a:1|c") t1-Undotted

abbrev rounds : List Round
rounds =
    record { message = some (codes "a:1|c"); quit = false }
    ∷ record { message = none; quit = false }
    ∷ record { message = some (codes "nonsense"); quit = true }
    ∷ []

parse_metrics-IsParsed_example :
    (pushed : List (Metric Fixed)) × (parse_metrics auth_none rounds ≡ done pushed)
    × All IsParsed pushed
parse_metrics-IsParsed_example = parse_metrics-IsParsed auth_none rounds

-- The token of the second connection is not valid.
abbrev two_senders : List (List Bytes)
two_senders = (codes "t1.a:1|c" ∷ codes "t1.a:2|c" ∷ []) ∷ (codes "t2.a:2|c" ∷ []) ∷ []

abbrev both_parsed : List Action
both_parsed =
    sends 1 ∷ sends 0 ∷ parses ∷ parses ∷ pushes ∷ receives 0 ∷ sends 0 ∷ parses ∷ pushes ∷ []

abbrev one_waits : Channels Fixed
one_waits = record {
  clients = [] ∷ [] ∷ [];
  parse_channel = [];
  parsing = [];
  relay_channel = parsed 2 ∷ [];
  relays = record { metrics = (codes "a", parsed 1) ∷ []; relayed = [] } ∷ [];
}

both_parsed-run :
    run_schedule
      (auth_config_token tokens)
      both_parsed
      (fresh (auth_config_token tokens) two_senders 1)
    ≡ some one_waits
unfolding run_schedule act send_message send_on take_from parse_message push_metric receive_metric
    update_at fixed handle_message authenticate split_dot parse_metric_string scan runes scan_rune
    unless_full build_metric string_of get_metric_type bytes_eq sample_rate_of aggregate_metric
    lookup insert combine
both_parsed-run = refl

run_fresh-AreAuthorised_example : AreAuthorised Fixed tokens two_senders one_waits
run_fresh-AreAuthorised_example =
    run_fresh-AreAuthorised Fixed tokens two_senders 1 both_parsed one_waits both_parsed-run
