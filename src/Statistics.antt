-- ===== src/Statistics.antt =====
-- statsgod/statistics.go: `ValueSlice`, a list of values. Where an empty slice makes `(length-1)/2`
-- the quotient of -1, both languages give 0.
pub mod Order
pub mod Extremes
pub mod Unique
pub mod Bounds
pub mod Central
use statsgod.Prelude.Int.{◌+ℤ◌, eqb_ℤ, ◌-ℤ◌, negsuc, pos, ℤ}
use statsgod.Prelude.Outcome.{out_of_range, at_index, done, ◌>>=◌, Outcome}
use statsgod.Float.{one, nought, Float64}
use statsgod.Prelude.{
  [], ◌==◌, ◌/◌, false, ◌-◌, length, ◌+◌, true, ◌∷◌, if◌then◌else◌, Bool, List, ℕ,
}

-- What `Minmax` returns; the error is `found_nan`.
pub record MinMax (F : Type 0) : Type 0 where
  pub min : F
  pub max : F
  pub found_nan : Bool

module _ {F : Type 0} ⦃f : Float64 F⦄ where
  -- `sort.Sort` by `Less`.
  sort_insert : F → List F → List F
  sort_insert x [] = x ∷ []
  sort_insert x (y ∷ ys) = if f.lt y x then y ∷ sort_insert x ys else x ∷ y ∷ ys

  unfoldable pub sort : List F → List F
  unfolding sort_insert
  sort [] = []
  sort (x ∷ xs) = sort_insert x (sort xs)

  -- `values[i]`
  abbrev pub get : List F → ℕ → Outcome F
  get = at_index

  -- The loop of `UniqueCount` after its first round; `p` is the value before.
  count_changes : F → List F → ℕ → ℕ
  count_changes p [] count = count
  count_changes p (v ∷ values) count =
      count_changes v values (if f.eq p v then count else count + 1)

  count_runs : List F → ℕ
  unfolding count_changes
  count_runs [] = 0
  count_runs (v ∷ values) = count_changes v values 1

  unfoldable pub unique_count : List F → ℕ
  unfolding count_runs
  unique_count values = count_runs (sort values)

  minmax_step : MinMax F → F → MinMax F
  minmax_step m xi =
      if f.is_nan xi
      then record m { found_nan = true }
      else if f.lt xi m.min
      then record m { min = xi }
      else if f.lt m.max xi
      then record m { max = xi }
      else m

  minmax_loop : MinMax F → List F → MinMax F
  unfolding minmax_step
  minmax_loop m [] = m
  minmax_loop m (xi ∷ values) = minmax_loop (minmax_step m xi) values

  unfoldable pub minmax : List F → Outcome (MinMax F)
  unfolding minmax_loop
  minmax values = do
    first ← get values 0
    done (minmax_loop (record { min = first; max = first; found_nan = false }) values)

  unfoldable pub median : List F → Outcome F
  median values =
      let n = length values in
      let left_boundary = (n - 1) / 2 in
      let right_boundary = n / 2 in
      if n == 0
      then done nought
      else if left_boundary == right_boundary
      then get values left_boundary
      else do
        left ← get values left_boundary
        right ← get values right_boundary
        done (f.div (f.add left right) (f.of_int (pos 2)))

  -- `i` rounds are done.
  mean_loop : F → ℕ → List F → F
  mean_loop m i [] = m
  mean_loop m i (x ∷ values) =
      mean_loop (f.add m (f.div (f.sub x m) (f.of_int (pos (i + 1))))) (i + 1) values

  unfoldable pub mean : List F → F
  unfolding mean_loop
  mean values = mean_loop nought 0 values

  unfoldable pub sum_loop : F → List F → F
  sum_loop acc [] = acc
  sum_loop acc (x ∷ values) = sum_loop (f.add acc x) values

  unfoldable pub sum : List F → F
  unfolding sum_loop
  sum values = sum_loop nought values

  -- `values[boundary]` at an `int`, which may be negative.
  get_int : List F → ℤ → Outcome F
  get_int values (pos i) = get values i
  get_int values (negsuc i) = out_of_range

  unfoldable pub quantile : List F → F → Outcome F
  unfolding get_int
  quantile values q =
      let last = pos (length values) -ℤ pos 1 in
      let index = f.mul q (f.of_int last) in
      let boundary = f.trunc index in
      let delta = f.sub index (f.of_int boundary) in
      if length values == 0
      then done nought
      else if eqb_ℤ boundary last
      then get_int values boundary
      else do
        low ← get_int values boundary
        high ← get_int values (boundary +ℤ pos 1)
        done (f.add (f.mul (f.sub one delta) low) (f.mul delta high))
