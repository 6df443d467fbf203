-- ===== src/Metric/Parse/Results.antt =====
-- What `ParseMetricString` returns, for every string.
use statsgod.Metric.Parse.Fields.{scan_long, IsPlain}
use statsgod.Metric.Parse.Bounds.{initial-IsReady, scan-IsSafe}
use statsgod.Prelude.Outcome.{Outcome, ◌>>=◌, done}
use statsgod.Metric.{maximum_metric_length, new_metric, Metric}
use statsgod.Float.{nought, one, le, Float64}
use statsgod.Utf8.{runes, string_of}
use statsgod.Metric.Parse.{
  scan_rune, unless_full, missing_elements, initial_scan, is_skipped, ParseError, Scan, scan,
  parse_metric_string, build_metric, sample_rate_of, get_metric_type,
}
use mathlib.Core.Path.{fun_ext}
use statsgod.Prelude.{
  Option-cases, ap, inr, inl, Bool-cases, refl, All, ◌++◌, if◌then◌else◌, length, true, not, some,
  ◌∷◌, select, ◌⊎◌, [], ◌<◌, arith, Option, ◌≢◌, none, ◌≡◌, List, Bytes, ℕ,
}

get_metric_type-lt :
    (short : Bytes) → (get_metric_type short).1 ≡ none → (get_metric_type short).0 < 4
unfolding get_metric_type
get_metric_type-lt short h = ground arith

encode_rune-ne-nil : (name : List ℕ) → name ≢ [] → string_of name ≢ []
unfolding string_of
encode_rune-ne-nil [] h = h
encode_rune-ne-nil (r ∷ name) h = ground arith

five_rows :
    (rows : List (List ℕ))
    → length rows ≡ 5
    → (a b c d e : List ℕ) × (rows ≡ a ∷ b ∷ c ∷ d ∷ e ∷ [])
five_rows (a ∷ b ∷ c ∷ d ∷ e ∷ []) h = (a, b, c, d, e, refl)
five_rows (a ∷ b ∷ c ∷ d ∷ e ∷ g ∷ rows) h = absurd (omega arith)
five_rows (a ∷ b ∷ c ∷ d ∷ []) h = absurd (omega arith)
five_rows (a ∷ b ∷ c ∷ []) h = absurd (omega arith)
five_rows (a ∷ b ∷ []) h = absurd (omega arith)
five_rows (a ∷ []) h = absurd (omega arith)
five_rows [] h = absurd (omega arith)

abbrev pub without_blanks : List ℕ → List ℕ
without_blanks = select λ ch. not (is_skipped ch)

-- A step of the loop on a rune that is not skipped, in a form that `rw` can use.
scan-without_blanks : (s : Scan) (rs : List ℕ) → scan s rs ≡ scan s (without_blanks rs)
unfolding scan unless_full
scan-without_blanks s [] = refl
scan-without_blanks s (ch ∷ rest) =
    let same : (t : Scan) → scan t rest ≡ scan t (without_blanks rest) =
      λ t. scan-without_blanks t rest in
    elim (Bool-cases (is_skipped ch)) [
      | inl skip ↦ ground (arith, same s)
      | inr keep ↦ ground (arith, ap (λ k. scan_rune s ch >>= unless_full k) (fun_ext same))
    ]

module _ {F : Type 0} ⦃f : Float64 F⦄ where
  -- The sample rate is 1, or lies above 0 and not above 1.
  abbrev IsRate : F → Type 0
  IsRate rate = (rate ≡ one) ⊎ ((f.lt nought rate ≡ true) × (le rate one ≡ true))

  pub record IsParsed (m : Metric F) : Type 0 where
    pub has_key : m.key ≢ []
    pub known_type : m.metric_type < 4
    pub one_value : m.all_values ≡ m.last_value ∷ []
    pub rate : IsRate m.sample_rate
    pub hits : m.total_hits ≡ (if f.lt m.sample_rate one then f.div one m.sample_rate else one)

  -- What a call returns: a metric and no error, or the empty metric and an error.
  abbrev pub IsResult : Outcome (Metric F × Option ParseError) → Type 0
  IsResult r =
      ((m : Metric F) × (r ≡ done (m, none)) × IsParsed m)
      ⊎ ((e : ParseError) × (r ≡ done (new_metric, some e)))

  sample_rate_of-IsRate : (text : Bytes) → IsRate (sample_rate_of text)
  unfolding sample_rate_of
  sample_rate_of-IsRate text = ground arith

  module _ (name value type sample : List ℕ) where
    abbrev built : Metric F × Option ParseError
    built = build_metric name value type sample

    built-IsParsed : built.1 ≡ none → IsParsed built.0
    unfolding build_metric
    built-IsParsed h = ground (
      arith,
      get_metric_type-lt (string_of type),
      encode_rune-ne-nil name,
      sample_rate_of-IsRate (string_of sample),
    )

    built-new_metric : (e : ParseError) → built.1 ≡ some e → built ≡ (new_metric, some e)
    unfolding build_metric
    built-new_metric e h = ground arith

  -- Parsing always returns: either a metric without an error, which has a name, one of the four types,
  -- its value as the only one, a sample rate that is 1 or lies above 0 and not above 1, and the hits
  -- that this rate stands for; or the empty metric with an error.
  pub parse_metric_string-IsResult : (s : Bytes) → IsResult (parse_metric_string s)
  unfolding parse_metric_string
  parse_metric_string-IsResult s =
      let (t, e, safe) = scan-IsSafe initial_scan (runes s) initial-IsReady in
      let (a, b, c, d, x, rows) = five_rows t.metric_strings safe.rows_five in
      elim (Option-cases (built a b c x).1) [
        | inl fine ↦ inl ((built a b c x).0, ground (arith, e, rows), built-IsParsed a b c x fine)
        | inr (failure, h) ↦
            inr (failure, ground (arith, e, rows, built-new_metric a b c x failure h))
      ]

  -- Two strings whose runes are the same but for spaces and null runes, wherever they stand, are parsed
  -- alike.
  pub parse_metric_string_blanks :
      (s t : Bytes)
      → without_blanks (runes s) ≡ without_blanks (runes t)
      → parse_metric_string {F = F} s ≡ parse_metric_string t
  unfolding parse_metric_string
  parse_metric_string_blanks s t h =
      rw (
        scan-without_blanks initial_scan (runes s),
        h,
        ← scan-without_blanks initial_scan (runes t),
      )

  -- A string that begins with as many runes as the array of the name holds, none of them a space, a
  -- null rune or a `:`, is refused, however it goes on.
  pub parse_metric_string_long :
      (s : Bytes) (name rest : List ℕ)
      → runes s ≡ name ++ rest
      → All (IsPlain 0) name
      → length name ≡ maximum_metric_length
      → parse_metric_string {F = F} s ≡ done (new_metric, some missing_elements)
  unfolding parse_metric_string build_metric
  parse_metric_string_long s name rest e plain long =
      rw e (rw (scan_long name rest plain long) (ground arith))
