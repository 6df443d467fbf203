-- ===== src/Statistics/Central.antt =====
-- `Sum`, `Mean` and `Median` against descriptions of them that do not follow the loops.
use statsgod.Prelude.Outcome.{done, at_index}
use mathlib.Core.Path.{subst}
use statsgod.Prelude.Int.{pos}
use statsgod.Prelude.Outcome.{done-injective}
use statsgod.Statistics.Bounds.{at_index-lt}
use statsgod.Statistics.{mean_loop, sum_loop, sum, mean, median}
use statsgod.Float.{nought, Float64}
use statsgod.Prelude.{
  inr, ==_iff, inl, ◌==◌, Bool-cases, ◌/◌, ◌-◌, ◌≢◌, ap, refl, length-append, append_assoc, arith,
  append-nil, sym, ◌+◌, ◌≡◌, ℕ, length, ◌++◌, List, zero, suc, [], ◌∷◌,
}

module _ {F : Type 0} ⦃f : Float64 F⦄ where
  -- The values added up from 0, one after the other.
  pub data IsSum : List F → F → Type 0 where
    no_value : IsSum [] nought
    value_more : {xs : List F} {s : F} (x : F) → IsSum xs s → IsSum (xs ++ x ∷ []) (f.add s x)

  -- The mean of values and one more is their mean, moved by the share of the new one in the difference.
  pub data IsMean : List F → F → Type 0 where
    no_value : IsMean [] nought
    value_more :
        {xs : List F} {m : F} (x : F)
        → IsMean xs m
        → IsMean (xs ++ x ∷ []) (f.add m (f.div (f.sub x m) (f.of_int (pos (length xs + 1)))))

  -- The value in the middle, or the half of the sum of the two in the middle.
  pub data IsMedian : List F → F → Type 0 where
    middle :
        (left right : List F) (m : F) → length left ≡ length right → IsMedian (left ++ m ∷ right) m
    between :
        (left right : List F) (a b : F)
        → length left ≡ length right
        → IsMedian (left ++ a ∷ b ∷ right) (f.div (f.add a b) (f.of_int (pos 2)))

  sum_loop-IsSum :
      (before xs : List F) (s : F) → IsSum before s → IsSum (before ++ xs) (sum_loop s xs)
  unfolding sum_loop
  sum_loop-IsSum before [] s i = subst (λ ys. IsSum ys s) (sym (append-nil before)) i
  sum_loop-IsSum before (x ∷ xs) s i =
      subst (λ ys. IsSum ys (sum_loop (f.add s x) xs)) (append_assoc before (x ∷ []) xs)
        (sum_loop-IsSum (before ++ x ∷ []) xs (f.add s x) (IsSum.value_more x i))

  pub sum-IsSum : (values : List F) → IsSum values (sum values)
  unfolding sum
  sum-IsSum values = sum_loop-IsSum [] values nought IsSum.no_value

  mean_loop-IsMean :
      (before xs : List F) (m : F) (i : ℕ)
      → i ≡ length before
      → IsMean before m
      → IsMean (before ++ xs) (mean_loop m i xs)
  unfolding mean_loop
  mean_loop-IsMean before [] m i e p = subst (λ ys. IsMean ys m) (sym (append-nil before)) p
  mean_loop-IsMean before (x ∷ xs) m i e p =
      let next : F = f.add m (f.div (f.sub x m) (f.of_int (pos (i + 1)))) in
      let more : IsMean (before ++ x ∷ []) next = rw e (IsMean.value_more x p) in
      subst (λ ys. IsMean ys (mean_loop next (i + 1) xs)) (append_assoc before (x ∷ []) xs)
        (mean_loop-IsMean (before ++ x ∷ []) xs next (i + 1)
          (omega (arith, length-append before (x ∷ []), e)) more)

  pub mean-IsMean : (values : List F) → IsMean values (mean values)
  unfolding mean
  mean-IsMean values = mean_loop-IsMean [] values nought 0 refl IsMean.no_value

  at_index-split :
      (xs : List F) (i : ℕ) (x : F)
      → at_index xs i ≡ done x
      → (left right : List F) × (xs ≡ left ++ x ∷ right) × (length left ≡ i)
  at_index-split [] i x e = absurd (ground arith)
  at_index-split (y ∷ xs) zero x e =
      let same : y ≡ x = done-injective e in ([], xs, ap (λ z. z ∷ xs) same, refl)
  at_index-split (y ∷ xs) (suc i) x e =
      let (left, right, s, l) = at_index-split xs i x e in
      (y ∷ left, right, ap (λ zs. y ∷ zs) s, ap suc l)

  at_index-pair :
      (xs : List F) (i : ℕ) (a b : F)
      → at_index xs i ≡ done a
      → at_index xs (suc i) ≡ done b
      → (left right : List F) × (xs ≡ left ++ a ∷ b ∷ right) × (length left ≡ i)
  at_index-pair [] i a b e e' = absurd (ground arith)
  at_index-pair (y ∷ xs) (suc i) a b e e' =
      let (left, right, s, l) = at_index-pair xs i a b e e' in
      (y ∷ left, right, ap (λ zs. y ∷ zs) s, ap suc l)
  at_index-pair (y ∷ []) zero a b e e' = absurd (ground arith)
  at_index-pair (y ∷ z ∷ xs) zero a b e e' =
      let first : y ≡ a = done-injective e in
      let second : z ≡ b = done-injective e' in ([], xs, rw (first, second) refl, refl)

  -- `Median` of values returns.
  pub median-IsMedian :
      (values : List F) → values ≢ [] → (m : F) × (median values ≡ done m) × IsMedian values m
  unfolding median
  median-IsMedian [] ne = absurd (ne refl)
  median-IsMedian (x ∷ xs) ne =
      let values : List F = x ∷ xs in
      let n : ℕ = length values in
      let (a, e) = at_index-lt values ((n - 1) / 2) (omega arith) in
      elim (Bool-cases ((n - 1) / 2 == n / 2)) [
        | inl odd ↦
            let (left, right, s, l) = at_index-split values ((n - 1) / 2) a e in
            let whole = ap length s in
            let count = length-append left (a ∷ right) in
            let half : (n - 1) / 2 ≡ n / 2 = (==_iff _ _).0 odd in
            (
              a,
              ground arith,
              subst (λ vs. IsMedian vs a) (sym s) (IsMedian.middle left right a (omega arith)),
            )
        | inr even ↦
            let other : ¬ ((n - 1) / 2 ≡ n / 2) = λ h. ground (arith, (==_iff _ _).1 h) in
            let after : n / 2 ≡ suc ((n - 1) / 2) = omega arith in
            let (b, e') = at_index-lt values (n / 2) (omega arith) in
            let (left, right, s, l) =
              at_index-pair values ((n - 1) / 2) a b e
                (subst (λ i. at_index values i ≡ done b) after e') in
            let whole = ap length s in
            let count = length-append left (a ∷ b ∷ right) in
            (
              f.div (f.add a b) (f.of_int (pos 2)),
              ground arith,
              subst (λ vs. IsMedian vs (f.div (f.add a b) (f.of_int (pos 2)))) (sym s)
                  (IsMedian.between left right a b (omega arith)),
            )
      ]
