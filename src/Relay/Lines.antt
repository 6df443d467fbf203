-- ===== src/Relay/Lines.antt =====
-- The lines that the entries of a map stand for.
use statsgod.Carbon.Lines.{lines_of}
use statsgod.Metric.Process.{process_metric}
use statsgod.Metric.{Metric}
use statsgod.Prelude.Dict.{Dict}
use statsgod.Prelude.Int.{ℤ}
use statsgod.Prelude.{◌++◌, List, Bytes}
use statsgod.Carbon.{CarbonRelay}
use statsgod.Float.{Float64}
use statsgod.Prelude.{[], ◌∷◌}
use statsgod.Prelude.Outcome.{◌>>=◌, done, Outcome}

module _ {F : Type 0} ⦃f : Float64 F⦄ where
  -- Each entry is processed with the time at which it is relayed.
  unfoldable pub relayed_lines : CarbonRelay → (Bytes → ℤ) → Dict (Metric F) → Outcome (List Bytes)
  relayed_lines c now [] = done []
  relayed_lines c now ((key, m) ∷ entries) = do
    processed ← process_metric c.flush_interval c.percentile (record m { flush_time = now key })
    rest ← relayed_lines c now entries
    done (lines_of c processed ++ rest)
