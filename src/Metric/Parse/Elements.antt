-- ===== src/Metric/Parse/Elements.antt =====
-- `ParseMetricString` on strings whose elements are known.
use statsgod.Prelude.Outcome.{done}
use statsgod.Metric.Parse.Fields.{scan_sample, scan_type, scan_value, scan_name, stage, IsElement}
use statsgod.Metric.{rune_at, rune_pipe, rune_colon}
use statsgod.Utf8.{runes}
use statsgod.Metric.Parse.{initial_scan, scan, build_metric, parse_metric_string}
use statsgod.Float.{Float64}
use statsgod.Prelude.{refl, append-nil, sym, ap, ◌∙◌, [], ◌∷◌, ◌++◌, ◌≡◌, List, Bytes, ℕ}

module _ {F : Type 0} ⦃f : Float64 F⦄ where
  -- If the runes of a string are `name:value|type`, and each element is shorter than its array and has
  -- no space, no null rune and not the delimiter that ends it, the string is taken apart into just
  -- these elements, with no sample rate.
  pub parse-simple :
      (s : Bytes) (name value type : List ℕ)
      → runes s ≡ name ++ rune_colon ∷ (value ++ rune_pipe ∷ type)
      → IsElement 0 name
      → IsElement 1 value
      → IsElement 2 type
      → parse_metric_string {F = F} s ≡ done (build_metric name value type [])
  unfolding parse_metric_string
  parse-simple s name value type e n v t =
      let scanned : scan initial_scan (runes s) ≡ done (stage 2 name value type [] []) = rw e (
        scan_name name (value ++ rune_pipe ∷ type) n
        ∙ scan_value name value type v
        ∙ ap (λ u. scan (stage 2 name value [] [] []) u) (sym (append-nil type))
        ∙ scan_type name value type [] t
        ∙ unfold scan in refl) in
      rw scanned

  -- If the runes of a string are `name:value|type|extra@sample`, and each element is shorter than its
  -- array and has no space, no null rune and not the delimiter that ends it, the string is taken apart
  -- into the name, the value, the type and the sample rate, and the extra is dropped.
  pub parse-sampled :
      (s : Bytes) (name value type extra sample : List ℕ)
      → runes s
        ≡ name
          ++ rune_colon ∷ (value ++ rune_pipe ∷ (type ++ rune_pipe ∷ (extra ++ rune_at ∷ sample)))
      → IsElement 0 name
      → IsElement 1 value
      → IsElement 2 type
      → IsElement 3 extra
      → IsElement 4 sample
      → parse_metric_string {F = F} s ≡ done (build_metric name value type sample)
  unfolding parse_metric_string
  parse-sampled s name value type extra sample e n v t x r =
      let tail : List ℕ = rune_pipe ∷ (extra ++ rune_at ∷ sample) in
      let scanned : scan initial_scan (runes s) ≡ done (stage 4 name value type extra sample) =
        rw e (
          scan_name name (value ++ rune_pipe ∷ (type ++ tail)) n
          ∙ scan_value name value (type ++ tail) v
          ∙ scan_type name value type tail t
          ∙ scan_sample name value type extra sample x r) in
      rw scanned
