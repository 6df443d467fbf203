-- ===== src/Statistics/Order.antt =====
-- `sort.Sort` and `Minmax` against the order of the values.
use statsgod.Statistics.{sort_insert, sort}
use statsgod.Float.{IsIeee, Float64}
use mathlib.Core.List.{Perm}
use mathlib.Core.List.Perm
use statsgod.Prelude.{
  ◌≢◌, [], inr, inl, arith, All-map, Bool-cases, true, false, ◌⊎◌, ◌≡◌, All, ◌∷◌, List,
}

module _ {F : Type 0} ⦃f : Float64 F⦄ where
  -- The value stands in the list.
  abbrev pub IsIn : F → List F → Type 0
  IsIn x [] = ⊥
  IsIn x (y ∷ ys) = (x ≡ y) ⊎ IsIn x ys

  abbrev pub AllNumbers : List F → Type 0
  AllNumbers = All λ x. f.is_nan x ≡ false

  -- No value lies below one that stands before it.
  abbrev pub IsAscending : List F → Type 0
  IsAscending [] = Unit
  IsAscending (x ∷ xs) = All (λ y. f.lt y x ≡ false) xs × IsAscending xs

  abbrev IsBelow : F → List F → Type 0
  IsBelow x = All λ y. f.lt y x ≡ false

  sort_insert-perm : (x : F) (xs : List F) → Perm (sort_insert x xs) (x ∷ xs)
  unfolding sort_insert
  sort_insert-perm x [] = Perm.rfl
  sort_insert-perm x (y ∷ ys) = elim (Bool-cases (f.lt y x)) [
    | inl h ↦
        rw (h, sort_insert) (Perm.trans (Perm.cons y (sort_insert-perm x ys)) (Perm.swap x y ys))
    | inr h ↦ rw (h, sort_insert) Perm.rfl
  ]

  -- Sorting rearranges the values.
  pub sort-perm : (values : List F) → Perm (sort values) values
  unfolding sort
  sort-perm [] = Perm.nil
  sort-perm (x ∷ xs) = Perm.trans (sort_insert-perm x (sort xs)) (Perm.cons x (sort-perm xs))

  All-sort_insert {κ} :
      (P : F → Type κ) (x : F) (xs : List F) → P x → All P xs → All P (sort_insert x xs)
  unfolding sort_insert
  All-sort_insert P x [] p ps = (p, tt)
  All-sort_insert P x (y ∷ ys) p ps = ground (arith, All-sort_insert P x ys p ps.1)

  pub All-sort {κ} : (P : F → Type κ) (xs : List F) → All P xs → All P (sort xs)
  unfolding sort
  All-sort P [] ps = tt
  All-sort P (x ∷ xs) ps = All-sort_insert P x (sort xs) ps.0 (All-sort P xs ps.1)

  sort_insert-ne-nil : (x : F) (xs : List F) → sort_insert x xs ≢ []
  unfolding sort_insert
  sort_insert-ne-nil x [] = λ e. cc
  sort_insert-ne-nil x (y ∷ ys) = ground arith

  pub sort-ne-nil : (xs : List F) → xs ≢ [] → sort xs ≢ []
  unfolding sort
  sort-ne-nil [] ne = ne
  sort-ne-nil (x ∷ xs) ne = sort_insert-ne-nil x (sort xs)

  module _ (laws : IsIeee F) where
    open laws use {lt_irrefl, lt_trans, lt_split, lt_nan_left, lt_nan_right}

    not-lt_trans :
        (x y z : F) → f.is_nan y ≡ false → f.lt y x ≡ false → f.lt z y ≡ false → f.lt z x ≡ false
    not-lt_trans x y z n a b = elim (Bool-cases (f.lt z x)) [
      | inl h ↦ elim (lt_split z y x n h) [ inl p ↦ ground arith | inr p ↦ ground arith ]
      | inr h ↦ h
    ]

    IsBelow-IsBelow :
        (x y : F) (ys : List F)
        → f.is_nan y ≡ false
        → f.lt y x ≡ false
        → IsBelow y ys
        → IsBelow x ys
    IsBelow-IsBelow x y ys n h b = All-map _ _ ys (λ z. not-lt_trans x y z n h) b

    lt_asym : (x y : F) → f.lt x y ≡ true → f.lt y x ≡ false
    lt_asym x y h = ground (arith, lt_trans x y x h, lt_irrefl x)

    sort_insert-IsAscending :
        (x : F) (xs : List F) → AllNumbers xs → IsAscending xs → IsAscending (sort_insert x xs)
    unfolding sort_insert
    sort_insert-IsAscending x [] n s = (tt, tt)
    sort_insert-IsAscending x (y ∷ ys) n s = elim (Bool-cases (f.lt y x)) [
      | inl h ↦
          rw (h, sort_insert)
            (
              All-sort_insert (λ z. f.lt z y ≡ false) x ys (lt_asym y x h) s.0,
              sort_insert-IsAscending x ys n.1 s.1,
            )
      | inr h ↦ rw (h, sort_insert) ((h, IsBelow-IsBelow x y ys n.0 h s.0), s)
    ]

    -- With IEEE comparisons, sorting puts values other than NaN into ascending order.
    pub sort-IsAscending : (values : List F) → AllNumbers values → IsAscending (sort values)
    unfolding sort
    sort-IsAscending [] n = tt
    sort-IsAscending (x ∷ xs) n =
        sort_insert-IsAscending x (sort xs) (All-sort _ xs n.1) (sort-IsAscending xs n.1)
