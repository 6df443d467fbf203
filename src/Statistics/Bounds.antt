-- ===== src/Statistics/Bounds.antt =====
-- Which indices `Median` and `Quantile` read.
use statsgod.Prelude.Outcome.{out_of_range, done, at_index}
use statsgod.Prelude.Int.{negsuc, ◌-ℤ◌, pos, ℤ}
use statsgod.Statistics.{quantile, median}
use statsgod.Float.{one, nought, Float64}
use statsgod.Prelude.{
  ◌+◌, leb, inr, inl, ◌==◌, Bool-cases, zero, ◌/◌, [], ◌-◌, suc, ◌⊎◌, arith, ◌∷◌, ◌≡◌, ◌≤◌, length,
  ◌<◌, List, ℕ, refl,
}

pub at_index-lt {ℓ} :
    {A : Type ℓ} (xs : List A) (i : ℕ) → i < length xs → (x : A) × (at_index xs i ≡ done x)
at_index-lt [] i h = absurd (omega arith)
at_index-lt (x ∷ xs) zero h = (x, refl)
at_index-lt (x ∷ xs) (suc i) h = at_index-lt xs i (omega arith)

at_index-ge {ℓ} : {A : Type ℓ} (xs : List A) (i : ℕ) → length xs ≤ i → at_index xs i ≡ out_of_range
at_index-ge [] i h = refl
at_index-ge (x ∷ xs) zero h = absurd (omega arith)
at_index-ge (x ∷ xs) (suc i) h = at_index-ge xs i (omega arith)

module _ {F : Type 0} ⦃f : Float64 F⦄ where
  -- `Median` reads no index out of range.
  pub median-returns : (values : List F) → (m : F) × (median values ≡ done m)
  unfolding median
  median-returns [] = (nought, refl)
  median-returns (x ∷ xs) =
      let values : List F = x ∷ xs in
      let n : ℕ = length values in
      let (left, l) = at_index-lt values ((n - 1) / 2) (omega arith) in
      let (right, r) = at_index-lt values (n / 2) (omega arith) in
      elim (Bool-cases ((n - 1) / 2 == n / 2)) [
        | inl odd ↦ (left, ground arith)
        | inr even ↦ (f.div (f.add left right) (f.of_int (pos 2)), ground arith)
      ]

  -- int(quantile * float64(length-1))
  abbrev pub boundary_index : List F → F → ℤ
  boundary_index values q = f.trunc (f.mul q (f.of_int (pos (length values) -ℤ pos 1)))

  abbrev pub IsRead : List F → F → Type 0
  IsRead values q =
      (i : ℕ) × (r : F) × (boundary_index values q ≡ pos i)
      × (i < length values)
      × (quantile values q ≡ done r)

  abbrev pub IsOutside : List F → F → Type 0
  IsOutside values q =
      (((i : ℕ) × (boundary_index values q ≡ pos i) × (length values ≤ i))
        ⊎ ((i : ℕ) × (boundary_index values q ≡ negsuc i)))
      × (quantile values q ≡ out_of_range)

  -- `Quantile` on a slice that is not empty returns, and its index lies in the slice; or it panics, and
  -- its index is negative or not below the length.
  pub quantile-index : (x : F) (xs : List F) (q : F) → IsRead (x ∷ xs) q ⊎ IsOutside (x ∷ xs) q
  unfolding quantile
  quantile-index x xs q = by_index (boundary_index values q) refl
    where
      values : List F
      values = x ∷ xs

      by_index : (z : ℤ) → boundary_index values q ≡ z → IsRead values q ⊎ IsOutside values q
      by_index (negsuc k) e = inr (inr (k, e), ground arith)
      by_index (pos i) e = elim (Bool-cases (leb (length values) i)) [
        | inl beyond ↦ inr (inl (i, e, ground arith), ground (arith, at_index-ge values i))
        | inr low ↦
            let (left, l) = at_index-lt values i (ground arith) in
            elim (Bool-cases (i == length xs)) [
              | inl last ↦ inl (i, left, e, ground arith, ground arith)
              | inr before ↦
                  let (right, r) = at_index-lt values (i + 1) (ground arith) in
                  let index : F = f.mul q (f.of_int (pos (length values) -ℤ pos 1)) in
                  let delta : F = f.sub index (f.of_int (pos i)) in
                  inl (
                    i,
                    f.add (f.mul (f.sub one delta) left) (f.mul delta right),
                    e,
                    ground arith,
                    ground arith,
                  )
            ]
      ]
