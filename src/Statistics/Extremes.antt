-- ===== src/Statistics/Extremes.antt =====
-- `Minmax` and `UniqueCount` against what they stand for.
use statsgod.Prelude.Outcome.{done}
use statsgod.Statistics.Order.{IsIn}
use statsgod.Statistics.{minmax, minmax_loop, minmax_step, MinMax}
use statsgod.Float.{IsIeee, Float64}
use statsgod.Prelude.{refl, arith, [], inr, inl, ◌||◌, ◌∷◌, ◌≡◌, All, false, Bool, List}

module _ {F : Type 0} ⦃f : Float64 F⦄ where
  abbrev pub any_nan : List F → Bool
  any_nan [] = false
  any_nan (x ∷ xs) = f.is_nan x || any_nan xs

  -- The loop has seen these values.
  pub record Covers (m : MinMax F) (seen : List F) : Type 0 where
    pub min_in : IsIn m.min seen
    pub max_in : IsIn m.max seen
    pub min_le : All (λ v. f.lt v m.min ≡ false) seen
    pub max_ge : All (λ v. f.lt m.max v ≡ false) seen
    pub nan_iff : m.found_nan ≡ any_nan seen

  module _ (laws : IsIeee F) where
    open laws use {lt_irrefl, lt_trans, lt_nan_left, lt_nan_right}

    module _ (m : MinMax F) (x : F) where
      step-ordered :
          f.lt m.max m.min ≡ false → f.lt (minmax_step m x).max (minmax_step m x).min ≡ false
      unfolding minmax_step
      step-ordered h = ground (arith, lt_trans m.max x m.min)

      step-min_le : f.lt x (minmax_step m x).min ≡ false
      unfolding minmax_step
      step-min_le = ground (arith, lt_irrefl x, lt_nan_left x m.min)

      step-max_ge : f.lt m.max m.min ≡ false → f.lt (minmax_step m x).max x ≡ false
      unfolding minmax_step
      step-max_ge h = ground (arith, lt_irrefl x, lt_nan_right m.max x, lt_trans m.max x m.min)

      step-keeps_min : (v : F) → f.lt v m.min ≡ false → f.lt v (minmax_step m x).min ≡ false
      unfolding minmax_step
      step-keeps_min v h = ground (arith, lt_trans v x m.min)

      step-keeps_max : (v : F) → f.lt m.max v ≡ false → f.lt (minmax_step m x).max v ≡ false
      unfolding minmax_step
      step-keeps_max v h = ground (arith, lt_trans m.max x v)

      step-found : (minmax_step m x).found_nan ≡ (m.found_nan || f.is_nan x)
      unfolding minmax_step
      step-found = ground arith

    module _ (whole : List F) where
      loop-min-IsIn :
          (rest : List F) (m : MinMax F)
          → ((v : F) → IsIn v rest → IsIn v whole)
          → IsIn m.min whole
          → IsIn (minmax_loop m rest).min whole
      unfolding minmax_loop minmax_step
      loop-min-IsIn [] m sub h = h
      loop-min-IsIn (x ∷ rest) m sub h =
          loop-min-IsIn rest (minmax_step m x) (λ v i. sub v (inr i))
            (ground (arith, sub x (inl refl)))

      loop-max-IsIn :
          (rest : List F) (m : MinMax F)
          → ((v : F) → IsIn v rest → IsIn v whole)
          → IsIn m.max whole
          → IsIn (minmax_loop m rest).max whole
      unfolding minmax_loop minmax_step
      loop-max-IsIn [] m sub h = h
      loop-max-IsIn (x ∷ rest) m sub h =
          loop-max-IsIn rest (minmax_step m x) (λ v i. sub v (inr i))
            (ground (arith, sub x (inl refl)))

    loop-keeps_min :
        (rest : List F) (m : MinMax F) (v : F)
        → f.lt v m.min ≡ false
        → f.lt v (minmax_loop m rest).min ≡ false
    unfolding minmax_loop
    loop-keeps_min [] m v h = h
    loop-keeps_min (x ∷ rest) m v h =
        loop-keeps_min rest (minmax_step m x) v (step-keeps_min m x v h)

    loop-keeps_max :
        (rest : List F) (m : MinMax F) (v : F)
        → f.lt m.max v ≡ false
        → f.lt (minmax_loop m rest).max v ≡ false
    unfolding minmax_loop
    loop-keeps_max [] m v h = h
    loop-keeps_max (x ∷ rest) m v h =
        loop-keeps_max rest (minmax_step m x) v (step-keeps_max m x v h)

    loop-min_le :
        (rest : List F) (m : MinMax F) → All (λ v. f.lt v (minmax_loop m rest).min ≡ false) rest
    unfolding minmax_loop
    loop-min_le [] m = tt
    loop-min_le (x ∷ rest) m = (
      loop-keeps_min rest (minmax_step m x) x (step-min_le m x),
      loop-min_le rest (minmax_step m x),
    )

    loop-max_ge :
        (rest : List F) (m : MinMax F)
        → f.lt m.max m.min ≡ false
        → All (λ v. f.lt (minmax_loop m rest).max v ≡ false) rest
    unfolding minmax_loop
    loop-max_ge [] m h = tt
    loop-max_ge (x ∷ rest) m h = (
      loop-keeps_max rest (minmax_step m x) x (step-max_ge m x h),
      loop-max_ge rest (minmax_step m x) (step-ordered m x h),
    )

    loop-found :
        (rest : List F) (m : MinMax F)
        → (minmax_loop m rest).found_nan ≡ (m.found_nan || any_nan rest)
    unfolding minmax_loop
    loop-found [] m = ground arith
    loop-found (x ∷ rest) m = ground (arith, loop-found rest (minmax_step m x), step-found m x)

    -- With IEEE comparisons, on a slice that is not empty `Minmax` returns a least and a greatest value of the slice, and an
    -- error exactly when the slice holds a NaN.
    pub minmax-Covers :
        (x : F) (xs : List F) → (m : MinMax F) × (minmax (x ∷ xs) ≡ done m) × Covers m (x ∷ xs)
    unfolding minmax
    minmax-Covers x xs =
        let start : MinMax F = record { min = x; max = x; found_nan = false } in
        let values : List F = x ∷ xs in
        (
          minmax_loop start values,
          refl,
          record {
            min_in = loop-min-IsIn values values start (λ v i. i) (inl refl);
            max_in = loop-max-IsIn values values start (λ v i. i) (inl refl);
            min_le = loop-min_le values start;
            max_ge = loop-max_ge values start (lt_irrefl x);
            nan_iff = loop-found values start;
          },
        )
