-- ===== src/Extras/LogCompare/Counted.antt =====
-- What the comparison of the logs finds, by how often each string occurs in them.
use mathlib.Core.Path.{subst}
use statsgod.Extras.LogCompare.{
  entry_count, log_compare, Comparison, compare_entries, output_key, input_key, Tally, tally_lines,
  tally_line, tally, count_of, Patterns,
}
use statsgod.Prelude.{
  ap, false, ◌∙◌, true, refl, ◌==◌, Bool-cases, inr, inl, bytes_eq_iff, Option-cases, arith, [],
  ◌+◌, bytes_eq, some, if◌then◌else◌, none, ◌≡◌, ◌∷◌, ℕ, List, Option, Bytes,
}
use statsgod.Prelude.Dict.{
  delete, lookup, insert, Dict, IsMap, insert-IsMap, lookup-insert, lookup-delete,
}

-- How many of the lines have this key.
unfoldable pub occurrences : (Bytes → Option Bytes) → Bytes → List Bytes → ℕ
occurrences key k [] = 0
occurrences key k (line ∷ lines) =
    (elim (key line) [ none ↦ 0 | some j ↦ if bytes_eq j k then 1 else 0 ])
    + occurrences key k lines

count_of-insert :
    (k j : Bytes) (n : ℕ) (m : Dict ℕ)
    → count_of j (insert k n m) ≡ (if bytes_eq k j then n else count_of j m)
unfolding count_of
count_of-insert k j n m = ground (arith, lookup-insert k j n m)

count_of-tally :
    (k j : Bytes) (t : Tally)
    → count_of j (tally k t).strings ≡ (if bytes_eq k j then 1 else 0) + count_of j t.strings
unfolding tally
count_of-tally k j t = ground (
  arith,
  bytes_eq_iff k j,
  count_of-insert k j 1 t.strings,
  count_of-insert k j (count_of k t.strings + 1) t.strings,
)

-- Whether the line has this key.
abbrev occurs : (Bytes → Option Bytes) → Bytes → Bytes → ℕ
occurs key k line = elim (key line) [ none ↦ 0 | some j ↦ if bytes_eq j k then 1 else 0 ]

count_of-tally_line :
    (key : Bytes → Option Bytes) (line k : Bytes) (t : Tally)
    → count_of k (tally_line key line t).strings ≡ occurs key k line + count_of k t.strings
unfolding tally_line
count_of-tally_line key line k t = elim (Option-cases (key line)) [
  | inl e ↦ rw (e, tally_line, occurs) (omega arith)
  | inr (j, e) ↦ rw (e, tally_line, occurs) (count_of-tally j k t)
]

tally_line-IsMap :
    (key : Bytes → Option Bytes) (line : Bytes) (t : Tally)
    → IsMap t.strings
    → IsMap (tally_line key line t).strings
unfolding tally_line tally
tally_line-IsMap key line t h = elim (Option-cases (key line)) [
  | inl e ↦ rw (e, tally_line) h
  | inr (j, e) ↦
      rw (e, tally_line)
        (elim (Bool-cases (count_of j t.strings == 0)) [
          | inl zero_yet ↦ rw (zero_yet, tally) (insert-IsMap j 1 t.strings h)
          | inr more ↦ rw (more, tally) (insert-IsMap j (count_of j t.strings + 1) t.strings h)
        ])
]

module _ (p : Patterns) (token : Bytes) where
  -- A string is counted as often as it is the key of a line, with those counted before.
  count_of-tally_lines :
      (k : Bytes) (xs ys : List Bytes) (t : Tally × Tally)
      → (count_of k (tally_lines p token xs ys t).0.strings
          ≡ occurrences (input_key p token) k xs + count_of k t.0.strings)
        × (count_of k (tally_lines p token xs ys t).1.strings
            ≡ occurrences (output_key p) k ys + count_of k t.1.strings)
  unfolding tally_lines occurrences
  count_of-tally_lines k [] [] t = (omega arith, omega arith)
  count_of-tally_lines k (x ∷ xs) [] t =
      let (e, f) = count_of-tally_lines k xs [] (tally_line (input_key p token) x t.0, t.1) in
      (omega (arith, e, count_of-tally_line (input_key p token) x k t.0), f)
  count_of-tally_lines k [] (y ∷ ys) t =
      let (e, f) = count_of-tally_lines k [] ys (t.0, tally_line (output_key p) y t.1) in
      (e, omega (arith, f, count_of-tally_line (output_key p) y k t.1))
  count_of-tally_lines k (x ∷ xs) (y ∷ ys) t =
      let (e, f) =
        count_of-tally_lines k xs ys
          (tally_line (input_key p token) x t.0, tally_line (output_key p) y t.1) in
      (
        omega (arith, e, count_of-tally_line (input_key p token) x k t.0),
        omega (arith, f, count_of-tally_line (output_key p) y k t.1),
      )

  tally_lines-IsMap :
      (xs ys : List Bytes) (t : Tally × Tally)
      → IsMap t.0.strings
      → IsMap (tally_lines p token xs ys t).0.strings
  unfolding tally_lines
  tally_lines-IsMap [] [] t h = h
  tally_lines-IsMap (x ∷ xs) [] t h =
      tally_lines-IsMap xs [] _ (tally_line-IsMap (input_key p token) x t.0 h)
  tally_lines-IsMap [] (y ∷ ys) t h = tally_lines-IsMap [] ys _ h
  tally_lines-IsMap (x ∷ xs) (y ∷ ys) t h =
      tally_lines-IsMap xs ys _ (tally_line-IsMap (input_key p token) x t.0 h)

-- A string that occurs equally often in both is left out; the others keep their count.
abbrev left_over : ℕ → ℕ → ℕ
left_over n m = if n == m then 0 else n

lookup-deleted : (k j : Bytes) (m : Dict ℕ) → bytes_eq k j ≡ true → lookup j (delete k m) ≡ none
lookup-deleted k j m h = lookup-delete k j m ∙ rw h refl

lookup-kept : (k j : Bytes) (m : Dict ℕ) → bytes_eq k j ≡ false → lookup j (delete k m) ≡ lookup j m
lookup-kept k j m h = lookup-delete k j m ∙ rw h refl

count_of-kept :
    (k j : Bytes) (m : Dict ℕ) → bytes_eq k j ≡ false → count_of j (delete k m) ≡ count_of j m
unfolding count_of
count_of-kept k j m h = rw (lookup-kept k j m h, count_of) refl

-- What the second loop makes of a string that has an entry with this count left, if any.
unfoldable after_entry : Option ℕ → ℕ → Option ℕ → Option ℕ
after_entry none m others = others
after_entry (some n) m others = if n == m then none else others

-- What the second loop makes of one string.
module _ (k : Bytes) where
  lookup-compare_entries :
      (entries : Dict ℕ) (c : Comparison)
      → IsMap entries
      → (lookup k (compare_entries entries c).input_strings
          ≡ after_entry (lookup k entries) (count_of k c.output_strings) (lookup k c.input_strings))
        × (lookup k (compare_entries entries c).output_strings
            ≡ after_entry
                (lookup k entries)
                (count_of k c.output_strings)
                (lookup k c.output_strings))
  unfolding compare_entries lookup after_entry
  lookup-compare_entries [] c h = (refl, refl)
  lookup-compare_entries ((j, n) ∷ entries) c (new, h) =
      elim (Bool-cases (n == count_of j c.output_strings)) [
        | inl same ↦
            let d : Comparison = record {
              input_strings = delete j c.input_strings;
              output_strings = delete j c.output_strings;
              match_count = c.match_count + 1;
              error_count = c.error_count;
            } in
            let (e, f) = lookup-compare_entries entries d h in
            elim (Bool-cases (bytes_eq j k)) [
              | inl equal ↦
                  let is : j ≡ k = (bytes_eq_iff j k).0 equal in
                  let gone : lookup k entries ≡ none =
                    subst (λ i. lookup i entries ≡ none) is new in
                  let matched : (n == count_of k c.output_strings) ≡ true =
                    subst (λ i. (n == count_of i c.output_strings) ≡ true) is same in
                  rw (same, equal, compare_entries)
                    (rw (matched) (
                      e ∙ rw gone (lookup-deleted j k c.input_strings equal),
                      f ∙ rw gone (lookup-deleted j k c.output_strings equal),
                    ))
              | inr differs ↦
                  rw (same, differs, compare_entries)
                    (
                      e
                          ∙ rw
                              (
                                lookup-kept j k c.input_strings differs,
                                count_of-kept j k c.output_strings differs,
                              )
                              refl,
                      f
                          ∙ rw
                              (
                                lookup-kept j k c.output_strings differs,
                                count_of-kept j k c.output_strings differs,
                              )
                              refl,
                    )
            ]
        | inr other ↦
            let (e, f) =
              lookup-compare_entries entries (record c { error_count = c.error_count + 1 }) h in
            elim (Bool-cases (bytes_eq j k)) [
              | inl equal ↦
                  let is : j ≡ k = (bytes_eq_iff j k).0 equal in
                  let gone : lookup k entries ≡ none =
                    subst (λ i. lookup i entries ≡ none) is new in
                  let unmatched : (n == count_of k c.output_strings) ≡ false =
                    subst (λ i. (n == count_of i c.output_strings) ≡ false) is other in
                  rw (other, equal, compare_entries)
                    (rw (unmatched) (e ∙ rw gone refl, f ∙ rw gone refl))
              | inr differs ↦ rw (other, differs, compare_entries) (e, f)
            ]
      ]

after_entry-input :
    (r : Option ℕ) (m : ℕ) → entry_count (after_entry r m r) ≡ left_over (entry_count r) m
unfolding after_entry
after_entry-input none m = ground arith
after_entry-input (some n) m = ground arith

after_entry-output :
    (r s : Option ℕ)
    → entry_count (after_entry r (entry_count s) s) ≡ left_over (entry_count s) (entry_count r)
unfolding after_entry
after_entry-output none none = ground arith
after_entry-output none (some n) = ground arith
after_entry-output (some n) none = ground arith
after_entry-output (some n) (some m) = ground arith

-- Of each string, the comparison leaves what there is in the input unless there is as much in the
-- output, and the other way round: the counts are those of the lines of both files whose key it is.
pub log_compare-left_over :
    (p : Patterns) (token : Bytes) (xs ys : List Bytes) (k : Bytes)
    → (count_of k (log_compare p token xs ys).1.input_strings
        ≡ left_over (occurrences (input_key p token) k xs) (occurrences (output_key p) k ys))
      × (count_of k (log_compare p token xs ys).1.output_strings
          ≡ left_over (occurrences (output_key p) k ys) (occurrences (input_key p token) k xs))
unfolding log_compare count_of lookup
log_compare-left_over p token xs ys k =
    let start : Tally = record { strings = []; len = 0 } in
    let t : Tally × Tally = tally_lines p token xs ys (start, start) in
    let (e, f) = count_of-tally_lines p token k xs ys (start, start) in
    let (i, o) =
      lookup-compare_entries k t.0.strings
        (record {
          input_strings = t.0.strings;
          output_strings = t.1.strings;
          match_count = 0;
          error_count = 0;
        })
        (tally_lines-IsMap p token xs ys (start, start) tt) in
    let n : count_of k t.0.strings ≡ occurrences (input_key p token) k xs = omega (arith, e) in
    let m : count_of k t.1.strings ≡ occurrences (output_key p) k ys = omega (arith, f) in
    (
      ap entry_count i
          ∙ after_entry-input (lookup k t.0.strings) (count_of k t.1.strings)
          ∙ ap (λ a. left_over a (count_of k t.1.strings)) n
          ∙ ap (left_over _) m,
      ap entry_count o
          ∙ after_entry-output (lookup k t.0.strings) (lookup k t.1.strings)
          ∙ ap (λ a. left_over a (count_of k t.0.strings)) m
          ∙ ap (left_over _) n,
    )
