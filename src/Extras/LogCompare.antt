-- ===== src/Extras/LogCompare.antt =====
-- extras/log_compare.go: the messages that the load test has logged against the metrics that the
-- service has logged. The two regular expressions are parameters: whether the first one, with the token
-- in front, matches a line, and the three groups of the first match of the second one.
use statsgod.Socket.{split}
use statsgod.Prelude.Outcome.{done, panics, Outcome}
use statsgod.Prelude.Dict.{delete, insert, lookup, Dict}
use statsgod.Prelude.{
  ◌+◌, codes, false, [], none, some, ◌==◌, bytes_eq, ◌++◌, true, List, Option, if◌then◌else◌, ◌∷◌,
  ℕ, Bool, Bytes,
}
pub mod Counted

pub record Patterns : Type 0 where
  pub input_matches : Bytes → Bytes → Bool
  pub output_groups : Bytes → Option (Bytes × Bytes × Bytes)

-- A key that the map lacks reads as 0.
abbrev pub entry_count : Option ℕ → ℕ
entry_count none = 0
entry_count (some n) = n

unfoldable pub count_of : Bytes → Dict ℕ → ℕ
count_of k m = entry_count (lookup k m)

-- What stands behind the pattern.
after_pattern : Bytes → Bytes → Option Bytes
after_pattern [] s = some s
after_pattern (c ∷ pattern) [] = none
after_pattern (c ∷ pattern) (d ∷ s) =
    let rest = after_pattern pattern s in if c == d then rest else none

-- strings.Replace(s, pattern, "", 1)
unfoldable pub remove_first : Bytes → Bytes → Bytes
unfolding after_pattern
remove_first pattern [] = []
remove_first pattern (c ∷ s) =
    let rest = remove_first pattern s in
    elim (after_pattern pattern (c ∷ s)) [ none ↦ c ∷ rest | some others ↦ others ]

-- `*token + "\\."`
abbrev escaped_token : Bytes → Bytes
escaped_token [] = []
escaped_token (c ∷ token) = c ∷ (token ++ codes "\\.")

-- `metricType`
abbrev type_letter : Bytes → Bytes
type_letter number =
    if bytes_eq number (codes "0")
    then codes "c"
    else if bytes_eq number (codes "1")
    then codes "g"
    else if bytes_eq number (codes "2")
    then codes "s"
    else if bytes_eq number (codes "3")
    then codes "ms"
    else []

-- The strings counted so far, and how many there were.
pub record Tally : Type 0 where
  pub strings : Dict ℕ
  pub len : ℕ

unfoldable pub tally : Bytes → Tally → Tally
unfolding count_of
tally k t = record {
  strings =
      if count_of k t.strings == 0
      then insert k 1 t.strings
      else insert k (count_of k t.strings + 1) t.strings;
  len = t.len + 1;
}

unfoldable pub output_key : Patterns → Bytes → Option Bytes
output_key p line = elim (p.output_groups line) [
  | none ↦ none
  | some (key, number, value) ↦ some (key ++ b':' ∷ (value ++ b'|' ∷ type_letter number))
]

tally_line : (Bytes → Option Bytes) → Bytes → Tally → Tally
tally_line key line t = elim (key line) [ none ↦ t | some k ↦ tally k t ]

module _ (p : Patterns) (token : Bytes) where
  -- The string that is counted for a line of the input, if any.
  unfoldable pub input_key : Bytes → Option Bytes
  input_key line =
      if p.input_matches (escaped_token token) line
      then some (elim token [ [] ↦ line | c ∷ rest ↦ remove_first (c ∷ (rest ++ b'.' ∷ [])) line ])
      else none

  -- The loop over the lines, as long as there are some in one of the files.
  unfoldable pub tally_lines : List Bytes → List Bytes → Tally × Tally → Tally × Tally
  unfolding tally_line
  tally_lines [] [] t = t
  tally_lines (x ∷ xs) [] t = tally_lines xs [] (tally_line input_key x t.0, t.1)
  tally_lines [] (y ∷ ys) t = tally_lines [] ys (t.0, tally_line (output_key p) y t.1)
  tally_lines (x ∷ xs) (y ∷ ys) t =
      tally_lines xs ys (tally_line input_key x t.0, tally_line (output_key p) y t.1)

-- What the second loop changes.
pub record Comparison : Type 0 where
  pub input_strings : Dict ℕ
  pub output_strings : Dict ℕ
  pub match_count : ℕ
  pub error_count : ℕ

-- The second loop, over the entries of the map as they stand at its start.
unfoldable pub compare_entries : Dict ℕ → Comparison → Comparison
compare_entries [] c = c
compare_entries ((k, n) ∷ entries) c = compare_entries entries (
    if n == count_of k c.output_strings
    then record {
      input_strings = delete k c.input_strings;
      output_strings = delete k c.output_strings;
      match_count = c.match_count + 1;
      error_count = c.error_count;
    }
    else record c { error_count = c.error_count + 1 })

-- What `main` makes of the lines of both files and prints at its end.
unfoldable pub log_compare : Patterns → Bytes → List Bytes → List Bytes → (ℕ × ℕ) × Comparison
log_compare p token input_lines output_lines =
    let start : Tally = record { strings = []; len = 0 } in
    let (input, output) = tally_lines p token input_lines output_lines (start, start) in
    (
      (input.len, output.len),
      compare_entries input.strings (record {
        input_strings = input.strings;
        output_strings = output.strings;
        match_count = 0;
        error_count = 0;
      }),
    )

-- `main` on the contents of both files, if they can be read.
unfoldable pub compare_files :
    Patterns → Bytes → Option Bytes → Option Bytes → Outcome ((ℕ × ℕ) × Comparison)
compare_files p token none output = panics (codes "Could not open input file.")
compare_files p token (some input) none = panics (codes "Could not open output file.")
compare_files p token (some input) (some output) =
    let (pieces, last) = split input in
    let (others, end) = split output in
    done (log_compare p token (pieces ++ last ∷ []) (others ++ end ∷ []))
