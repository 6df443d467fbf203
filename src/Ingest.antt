-- ===== src/Ingest.antt =====
-- statsgod/metric.go: `ParseMetrics`, the loop from the parse channel to the relay channel. Each round
-- takes a message or waits a second in vain, and then reads the shared `quit`. What is pushed onto the
-- relay channel is a list, oldest first; a push waits while that channel is full.
pub mod Delivered
use statsgod.Metric.Parse.{parse_metric_string}
use statsgod.Metric.{Metric}
use statsgod.Prelude.Outcome.{◌>>=◌, done, Outcome}
use statsgod.Auth.{authenticate, Auth}
use statsgod.Float.{Float64}
use statsgod.Prelude.{
  false, ◌++◌, true, not, none, if◌then◌else◌, ◌∷◌, [], some, List, Bool, Bytes, Option, ℕ,
}

pub record Round : Type 0 where
  pub message : Option Bytes
  pub quit : Bool

module _ {F : Type 0} ⦃f : Float64 F⦄ where
  -- What a message makes the loop push.
  unfoldable pub handle_message : Auth → Bytes → Outcome (List (Metric F))
  handle_message auth metric_string =
      let a = authenticate auth metric_string in
      elim a.error [
        | some e ↦ done []
        | none ↦ if not a.ok then done [] else do
          (metric, failure) ← parse_metric_string a.metric
          elim failure [ some e ↦ done [] | none ↦ done (metric ∷ []) ]
      ]

  handle_round : Auth → Option Bytes → Outcome (List (Metric F))
  handle_round auth none = done []
  handle_round auth (some s) = handle_message auth s

  unfoldable pub parse_metrics : Auth → List Round → Outcome (List (Metric F))
  unfolding handle_round
  parse_metrics auth [] = done []
  parse_metrics auth (r ∷ rounds) = do
    pushed ← handle_round auth r.message
    elim r.quit [
      | true ↦ done pushed
      | false ↦ do later ← parse_metrics auth rounds; done (pushed ++ later)
    ]
