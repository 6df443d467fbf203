-- ===== src/Metric/Parse.antt =====
-- statsgod/metric.go: `ParseMetricString` and `getMetricType`. The rows of `metricStrings`, each cut at
-- its `metricRuneCount`, are lists; an index out of range is a panic.
pub mod Bounds
pub mod Fields
pub mod Elements
pub mod Results
use statsgod.Prelude.{
  ℕ, ◌+◌, List, [], ◌∷◌, ◌++◌, Bool, true, false, ◌&&◌, ◌||◌, Option, none, some, ltb, ◌==◌,
  if◌then◌else◌, Bytes, codes, bytes_eq, length, get_elem?, set,
}
use statsgod.Prelude.Outcome.{out_of_range, at_index, Outcome, done, panics, ◌>>=◌}
use statsgod.Float.{nought, one, Float64, le}
use statsgod.Utf8.{runes, string_of}
use statsgod.Metric.{
  metric_type_unknown, Metric, rune_colon, rune_pipe, rune_at, rune_space, rune_null,
  maximum_metric_length, metric_type_counter, metric_type_gauge, metric_type_set, metric_type_timer,
  new_metric,
}

-- `delimeters`
abbrev pub delimeters : List ℕ
delimeters = rune_colon ∷ rune_pipe ∷ rune_pipe ∷ rune_at ∷ []

-- The variables of the loop.
pub record Scan : Type 0 where
  pub metric_strings : List (List ℕ)
  pub delimeter_count : ℕ
  pub metric_count : ℕ

abbrev pub initial_scan : Scan
initial_scan = record {
  metric_strings = [] ∷ [] ∷ [] ∷ [] ∷ [] ∷ [];
  delimeter_count = 0;
  metric_count = 0;
}

-- `ch == RuneSpace || ch == RuneNull`
abbrev pub is_skipped : ℕ → Bool
is_skipped ch = ch == rune_space || ch == rune_null

unfoldable pub is_delimeter : Scan → ℕ → Outcome Bool
is_delimeter s ch =
    if ltb s.delimeter_count (length delimeters)
      && ltb (s.metric_count + 1) (length s.metric_strings)
    then at_index delimeters s.delimeter_count >>= (λ d. done (ch == d))
    else done false

-- metricStrings[metricCount][metricRuneCount[metricCount]] = ch
unfoldable pub store : Scan → ℕ → Outcome Scan
store s ch = do
  row ← at_index s.metric_strings s.metric_count
  if ltb (length row) maximum_metric_length
      then done (record s { metric_strings = set s.metric_strings s.metric_count (row ++ ch ∷ []) })
      else out_of_range

unfoldable pub scan_rune : Scan → ℕ → Outcome Scan
unfolding is_delimeter store
scan_rune s ch = do
  found ← is_delimeter s ch
  if found
      then done
          (record s { delimeter_count = s.delimeter_count + 1; metric_count = s.metric_count + 1 })
      else store s ch

-- `if metricRuneCount[metricCount] == MaximumMetricLength { break }`
unfoldable pub unless_full : (Scan → Outcome Scan) → Scan → Outcome Scan
unless_full next t = do
  row ← at_index t.metric_strings t.metric_count
  elim (length row == maximum_metric_length) [ true ↦ done t | false ↦ next t ]

-- The loop over the runes.
unfoldable pub scan : Scan → List ℕ → Outcome Scan
scan s [] = done s
scan s (ch ∷ rest) = elim (is_skipped ch) [
  | true ↦ scan s rest
  | false ↦ scan_rune s ch >>= unless_full (λ t. scan t rest)
]

-- The type with its error, if there is one.
unfoldable pub get_metric_type : Bytes → ℕ × Option Bytes
get_metric_type short =
    if bytes_eq (codes "c") short
    then (metric_type_counter, none)
    else if bytes_eq (codes "g") short
    then (metric_type_gauge, none)
    else if bytes_eq (codes "s") short
    then (metric_type_set, none)
    else if bytes_eq (codes "ms") short
    then (metric_type_timer, none)
    else (metric_type_unknown, some (codes "unknown metric type"))

pub data ParseError : Type 0 where
  missing_elements bad_value bad_type : ParseError

abbrev is_empty {ℓ} : {A : Type ℓ} → List A → Bool
is_empty xs = length xs == 0

module _ {F : Type 0} ⦃f : Float64 F⦄ where
  unfoldable pub sample_rate_of : Bytes → F
  sample_rate_of text = elim (f.parse_float text) [
    | none ↦ one
    | some sample ↦ if f.lt nought sample && le sample one then sample else one
  ]

  unfoldable pub total_hits_of : F → F
  total_hits_of sample_rate = if f.lt sample_rate one then f.div one sample_rate else one

  -- What is done with the elements: the name, the value, the type and the sample rate.
  unfoldable pub build_metric : List ℕ → List ℕ → List ℕ → List ℕ → Metric F × Option ParseError
  unfolding total_hits_of
  build_metric name value type sample =
      if is_empty name || is_empty value || is_empty type
      then (new_metric, some missing_elements)
      else elim (f.parse_float (string_of value)) [
        | none ↦ (new_metric, some bad_value)
        | some v ↦
            let (t, failure) = get_metric_type (string_of type) in
            let sample_rate = sample_rate_of (string_of sample) in
            elim failure [
              | some e ↦ (new_metric, some bad_type)
              | none ↦ (
                record new_metric {
                  total_hits = total_hits_of sample_rate;
                  key = string_of name;
                  metric_type = t;
                  last_value = v;
                  all_values = v ∷ [];
                  sample_rate = sample_rate;
                },
                none,
              )
            ]
      ]

  unfoldable pub parse_metric_string : Bytes → Outcome (Metric F × Option ParseError)
  parse_metric_string metric_string = do
    s ← scan initial_scan (runes metric_string)
    name ← at_index s.metric_strings 0
    value ← at_index s.metric_strings 1
    type ← at_index s.metric_strings 2
    sample ← at_index s.metric_strings 4
    done (build_metric name value type sample)
