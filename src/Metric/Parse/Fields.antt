-- ===== src/Metric/Parse/Fields.antt =====
-- The elements that the loop of `ParseMetricString` finds.
use statsgod.Metric.Parse.Bounds.{delimeter_at}
use statsgod.Prelude.Outcome.{done}
use statsgod.Metric.{rune_at, rune_colon, rune_pipe, maximum_metric_length}
use statsgod.Metric.Parse.{
  unless_full, initial_scan, scan, store, is_delimeter, delimeters, scan_rune, is_skipped, Scan,
}
use statsgod.Prelude.{
  refl, sym, ap, inr, ◌∙◌, set-get_elem?, append_assoc, All, append-nil, set-set, inl, ltb,
  length-append, true, Bool-cases, ◌+◌, [], ◌∷◌, ◌<◌, get_elem?-lt, get_elem?-set_self, ◌≢◌,
  length-set, some, arith, get_elem?, ◌++◌, set, false, length, ◌≡◌, List, ℕ,
}

-- The loop stands in a row and has passed as many delimiters.
record IsAt (s : Scan) (row : List ℕ) : Type 0 where
  rows_five : length s.metric_strings ≡ 5
  in_step : s.delimeter_count ≡ s.metric_count
  current : get_elem? s.metric_strings s.metric_count ≡ some row

-- A rune that belongs to the current row.
abbrev pub IsPlain : ℕ → ℕ → Type 0
IsPlain i ch = (is_skipped ch ≡ false) × (get_elem? delimeters i ≢ some ch)

is_delimeter-plain :
    (s : Scan) (row : List ℕ) (ch : ℕ)
    → IsAt s row
    → get_elem? delimeters s.metric_count ≢ some ch
    → is_delimeter s ch ≡ done false
unfolding is_delimeter
is_delimeter-plain s row ch at h = elim (Bool-cases (ltb s.metric_count 4)) [
  | inl low ↦
      let (d, e) = delimeter_at s.metric_count (ground arith) in
      ground (arith, at.rows_five, at.in_step)
  | inr high ↦ ground (arith, at.rows_five, at.in_step)
]

is_delimeter-delimeter :
    (s : Scan) (row : List ℕ) (ch : ℕ)
    → IsAt s row
    → get_elem? delimeters s.metric_count ≡ some ch
    → is_delimeter s ch ≡ done true
unfolding is_delimeter
is_delimeter-delimeter s row ch at h =
    ground (arith, at.rows_five, at.in_step, get_elem?-lt delimeters s.metric_count ch h)

store_here : Scan → List ℕ → List ℕ → Scan
store_here s row w = record s { metric_strings = set s.metric_strings s.metric_count (row ++ w) }

next_row : Scan → Scan
next_row s = record s { delimeter_count = s.delimeter_count + 1; metric_count = s.metric_count + 1 }

module _ (s : Scan) (row : List ℕ) (at : IsAt s row) where
  here-lt : s.metric_count < length s.metric_strings
  here-lt = get_elem?-lt s.metric_strings s.metric_count row at.current

  store_here-IsAt : (w : List ℕ) → IsAt (store_here s row w) (row ++ w)
  unfolding store_here
  store_here-IsAt w = record {
    rows_five = omega (arith, at.rows_five, length-set s.metric_strings s.metric_count (row ++ w));
    in_step = at.in_step;
    current = get_elem?-set_self s.metric_strings s.metric_count (row ++ w) here-lt;
  }

  scan_rune_plain :
      (ch : ℕ)
      → get_elem? delimeters s.metric_count ≢ some ch
      → length row < maximum_metric_length
      → scan_rune s ch ≡ done (store_here s row (ch ∷ []))
  unfolding scan_rune store store_here
  scan_rune_plain ch h short =
      rw (is_delimeter-plain s row ch at h, scan_rune) (ground (arith, at.current))

  -- A rune that is no delimiter here goes to the current row, which is not full yet.
  scan_plain :
      (ch : ℕ) (rest : List ℕ)
      → IsPlain s.metric_count ch
      → length row + 1 < maximum_metric_length
      → scan s (ch ∷ rest) ≡ scan (store_here s row (ch ∷ [])) rest
  unfolding scan unless_full
  scan_plain ch rest (keep, ne) short = ground (
    arith,
    scan_rune_plain ch ne (omega arith),
    (store_here-IsAt (ch ∷ [])).current,
    length-append row (ch ∷ []),
  )

  -- The delimiter of this row starts the next one.
  scan_delimeter :
      (ch : ℕ) (next rest : List ℕ)
      → is_skipped ch ≡ false
      → get_elem? delimeters s.metric_count ≡ some ch
      → get_elem? s.metric_strings (s.metric_count + 1) ≡ some next
      → length next < maximum_metric_length
      → scan s (ch ∷ rest) ≡ scan (next_row s) rest
  unfolding scan unless_full scan_rune next_row
  scan_delimeter ch next rest keep d e short = ground (arith, is_delimeter-delimeter s row ch at d)

store_here-store_here :
    (s : Scan) (row v w : List ℕ)
    → store_here (store_here s row v) (row ++ v) w ≡ store_here s row (v ++ w)
unfolding store_here
store_here-store_here s row v w =
    rw (set-set s.metric_strings s.metric_count (row ++ v) ((row ++ v) ++ w)) (rw append_assoc)

store_here-nil : (s : Scan) (row : List ℕ) → IsAt s row → store_here s row [] ≡ s
unfolding store_here
store_here-nil s row at =
    rw (append-nil row) (rw (set-get_elem? s.metric_strings s.metric_count row at.current))

-- A word without a delimiter or a skipped rune goes to the current row, if there is room.
scan_word :
    (w : List ℕ) (s : Scan) (row rest : List ℕ)
    → IsAt s row
    → All (IsPlain s.metric_count) w
    → length row + length w < maximum_metric_length
    → scan s (w ++ rest) ≡ scan (store_here s row w) rest
scan_word [] s row rest at plain short = rw (store_here-nil s row at)
scan_word (ch ∷ w) s row rest at plain short =
    scan_plain s row at ch (w ++ rest) plain.0 (omega arith)
    ∙ scan_word w (store_here s row (ch ∷ [])) (row ++ ch ∷ []) rest
        (store_here-IsAt s row at (ch ∷ [])) (unfold store_here in plain.1)
        (omega (arith, length-append row (ch ∷ [])))
    ∙ ap (λ t. scan t rest) (store_here-store_here s row (ch ∷ []) w)

-- What an element may hold: no delimiter that ends it, nothing that is skipped, and fewer runes than
-- its array.
abbrev pub IsElement : ℕ → List ℕ → Type 0
IsElement i w = All (IsPlain i) w × (length w < maximum_metric_length)

abbrev pub stage : ℕ → List ℕ → List ℕ → List ℕ → List ℕ → List ℕ → Scan
stage i a b c d e = record {
  metric_strings = a ∷ b ∷ c ∷ d ∷ e ∷ [];
  delimeter_count = i;
  metric_count = i;
}

pub scan_name :
    (name rest : List ℕ)
    → IsElement 0 name
    → scan initial_scan (name ++ rune_colon ∷ rest) ≡ scan (stage 1 name [] [] [] []) rest
unfolding store_here next_row
scan_name name rest (plain, short) =
    scan_word name initial_scan [] (rune_colon ∷ rest) (ground arith) plain (omega arith)
    ∙ scan_delimeter (stage 0 name [] [] [] []) name (ground arith) rune_colon [] rest refl refl
        refl (omega arith)

pub scan_value :
    (a value rest : List ℕ)
    → IsElement 1 value
    → scan (stage 1 a [] [] [] []) (value ++ rune_pipe ∷ rest)
      ≡ scan (stage 2 a value [] [] []) rest
unfolding store_here next_row
scan_value a value rest (plain, short) =
    scan_word value (stage 1 a [] [] [] []) [] (rune_pipe ∷ rest) (ground arith) plain (omega arith)
    ∙ scan_delimeter (stage 1 a value [] [] []) value (ground arith) rune_pipe [] rest refl refl
        refl (omega arith)

pub scan_type :
    (a b type rest : List ℕ)
    → IsElement 2 type
    → scan (stage 2 a b [] [] []) (type ++ rest) ≡ scan (stage 2 a b type [] []) rest
unfolding store_here
scan_type a b type rest (plain, short) =
    scan_word type (stage 2 a b [] [] []) [] rest (ground arith) plain (omega arith)

pub scan_sample :
    (a b c extra sample : List ℕ)
    → IsElement 3 extra
    → IsElement 4 sample
    → scan (stage 2 a b c [] []) (rune_pipe ∷ (extra ++ rune_at ∷ sample))
      ≡ done (stage 4 a b c extra sample)
unfolding store_here next_row
scan_sample a b c extra sample (plain, short) (plain', short') =
    scan_delimeter (stage 2 a b c [] []) c (ground arith) rune_pipe [] (extra ++ rune_at ∷ sample)
      refl refl refl (omega arith)
    ∙ scan_word extra (stage 3 a b c [] []) [] (rune_at ∷ sample) (ground arith) plain (omega arith)
    ∙ scan_delimeter (stage 3 a b c extra []) extra (ground arith) rune_at [] sample refl refl refl
        (omega arith)
    ∙ ap (scan (stage 4 a b c extra [])) (sym (append-nil sample))
    ∙ scan_word sample (stage 4 a b c extra []) [] [] (ground arith) plain' (omega arith)
    ∙ unfold scan in refl

-- The rune that fills the array of the row ends the loop.
scan_full :
    (w : List ℕ) (s : Scan) (row rest : List ℕ)
    → IsAt s row
    → All (IsPlain s.metric_count) w
    → length row + length w ≡ maximum_metric_length
    → w ≢ []
    → scan s (w ++ rest) ≡ done (store_here s row w)
unfolding scan unless_full
scan_full [] s row rest at plain long ne = absurd (ne refl)
scan_full (ch ∷ []) s row rest at plain long ne = ground (
  arith,
  scan_rune_plain s row at ch plain.0.1,
  (store_here-IsAt s row at (ch ∷ [])).current,
  length-append row (ch ∷ []),
)
scan_full (ch ∷ c ∷ w) s row rest at plain long ne =
    scan_plain s row at ch (c ∷ w ++ rest) plain.0 (omega arith)
    ∙ scan_full (c ∷ w) (store_here s row (ch ∷ [])) (row ++ ch ∷ []) rest
        (store_here-IsAt s row at (ch ∷ [])) (unfold store_here in plain.1)
        (omega (arith, length-append row (ch ∷ []))) (λ e. cc)
    ∙ ap done (store_here-store_here s row (ch ∷ []) (c ∷ w))

pub scan_long :
    (name rest : List ℕ)
    → All (IsPlain 0) name
    → length name ≡ maximum_metric_length
    → scan initial_scan (name ++ rest) ≡ done (stage 0 name [] [] [] [])
unfolding store_here
scan_long name rest plain long =
    scan_full name initial_scan [] rest (ground arith) plain (omega arith) (ground arith)
