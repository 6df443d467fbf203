-- ===== src/Statistics/Unique.antt =====
-- `UniqueCount` against a list of representatives.
use mathlib.Core.Path.{subst}
use statsgod.Statistics.Order.{sort-IsAscending, IsAscending, All-sort, AllNumbers, IsIn}
use statsgod.Statistics.{unique_count, count_runs, sort, sort_insert, count_changes}
use statsgod.Float.{IsIeee, Float64}
use statsgod.Prelude.{
  refl, sym, All-map, inr, length, ◌⊎◌, false, inl, [], Bool-cases, arith, ◌+◌, if◌then◌else◌, true,
  ◌≡◌, All, ◌∷◌, List, ℕ,
}

module _ {F : Type 0} ⦃f : Float64 F⦄ where
  -- One of the representatives equals the value.
  abbrev pub IsEqualIn : F → List F → Type 0
  IsEqualIn v [] = ⊥
  IsEqualIn v (r ∷ reps) = (f.eq r v ≡ true) ⊎ IsEqualIn v reps

  abbrev pub IsStrict : List F → Type 0
  IsStrict [] = Unit
  IsStrict (r ∷ reps) = All (λ s. f.lt r s ≡ true) reps × IsStrict reps

  -- The list holds each value of the slice once: its entries are values of the slice, they rise
  -- strictly, and every value of the slice equals one of them.
  pub record Represents (reps : List F) (values : List F) : Type 0 where
    pub strict : IsStrict reps
    pub present : All (λ r. IsIn r values) reps
    pub covers : All (λ v. IsEqualIn v reps) values

  -- The values at which a run starts, after `p`.
  changes : F → List F → List F
  changes p [] = []
  changes p (v ∷ values) = if f.eq p v then changes v values else v ∷ changes v values

  count_changes-length :
      (p : F) (values : List F) (count : ℕ)
      → count_changes p values count ≡ count + length (changes p values)
  unfolding count_changes changes
  count_changes-length p [] count = omega arith
  count_changes-length p (v ∷ values) count =
      ground (arith, count_changes-length v values count, count_changes-length v values (count + 1))

  changes-IsIn :
      (p : F) (values whole : List F)
      → ((v : F) → IsIn v values → IsIn v whole)
      → All (λ r. IsIn r whole) (changes p values)
  unfolding changes
  changes-IsIn p [] whole sub = tt
  changes-IsIn p (v ∷ values) whole sub =
      ground (arith, sub v (inl refl), changes-IsIn v values whole (λ w i. sub w (inr i)))

  All-sort_insert_back {κ} :
      (P : F → Type κ) (x : F) (xs : List F) → All P (sort_insert x xs) → P x × All P xs
  unfolding sort_insert
  All-sort_insert_back P x [] ps = ps
  All-sort_insert_back P x (y ∷ ys) ps = elim (Bool-cases (f.lt y x)) [
    | inl h ↦
        let qs : P y × All P (sort_insert x ys) = rw (h, sort_insert) at ps in
        let (p, rest) = All-sort_insert_back P x ys qs.1 in (p, (qs.0, rest))
    | inr h ↦ rw (h, sort_insert) at ps
  ]

  All-sort_back {κ} : (P : F → Type κ) (xs : List F) → All P (sort xs) → All P xs
  unfolding sort
  All-sort_back P [] ps = tt
  All-sort_back P (x ∷ xs) ps =
      let (p, rest) = All-sort_insert_back P x (sort xs) ps in (p, All-sort_back P xs rest)

  IsIn-All : (xs : List F) → All (λ x. IsIn x xs) xs
  IsIn-All [] = tt
  IsIn-All (x ∷ xs) = (inl refl, All-map _ _ xs (λ y i. inr i) (IsIn-All xs))

  All-IsIn {κ} : (P : F → Type κ) (x : F) (xs : List F) → All P xs → IsIn x xs → P x
  All-IsIn P x [] ps i = absurd i
  All-IsIn P x (y ∷ ys) ps (inl e) = subst P (sym e) ps.0
  All-IsIn P x (y ∷ ys) ps (inr i) = All-IsIn P x ys ps.1 i

  IsIn-sort : (x : F) (xs : List F) → IsIn x (sort xs) → IsIn x xs
  IsIn-sort x xs = All-IsIn (λ y. IsIn y xs) x (sort xs) (All-sort _ xs (IsIn-All xs))

  module _ (laws : IsIeee F) where
    open laws use {lt_irrefl, lt_trans, lt_split, eq_sym, eq_not_lt, eq_of_not_lt}

    eq_trans :
        (x y z : F)
        → f.is_nan x ≡ false
        → f.is_nan y ≡ false
        → f.is_nan z ≡ false
        → f.eq x y ≡ true
        → f.eq y z ≡ true
        → f.eq x z ≡ true
    eq_trans x y z nx ny nz p q =
        eq_of_not_lt x z nx nz (ground (arith, lt_split x y z ny, eq_not_lt x y p, eq_not_lt y z q))
          (ground (arith, lt_split z y x ny, eq_sym x y, eq_sym y z, eq_not_lt y x, eq_not_lt z y))

    changes-IsStrict :
        (p : F) (values : List F)
        → AllNumbers (p ∷ values)
        → IsAscending (p ∷ values)
        → All (λ r. f.lt p r ≡ true) (changes p values) × IsStrict (changes p values)
    unfolding changes
    changes-IsStrict p [] n a = (tt, tt)
    changes-IsStrict p (v ∷ values) n a =
        let (above, strict) = changes-IsStrict v values n.1 a.1 in
        elim (Bool-cases (f.eq p v)) [
          | inl same ↦
              rw (same, changes)
                (
                  All-map _ _ (changes v values)
                      (λ r h. ground (arith, lt_split v p r n.0 h, eq_sym p v, eq_not_lt v p))
                      above,
                  strict,
                )
          | inr new ↦
              let up : f.lt p v ≡ true = ground (arith, eq_of_not_lt p v n.0 n.1.0, a.0.0) in
              rw (new, changes)
                (
                  (up, All-map _ _ (changes v values) (λ r h. lt_trans p v r up h) above),
                  (above, strict),
                )
        ]

    changes-covers :
        (p : F) (values : List F)
        → AllNumbers (p ∷ values)
        → All (λ v. (f.is_nan v ≡ false) × IsEqualIn v (p ∷ changes p values)) values
    unfolding changes
    changes-covers p [] n = tt
    changes-covers p (v ∷ values) n =
        let rest = changes-covers v values n.1 in
        elim (Bool-cases (f.eq p v)) [
          | inl same ↦
              subst Covered {x = changes v values} {y = changes p (v ∷ values)} (sym (rw same)) (
                (n.1.0, inl same),
                All-map _ _ values (λ w (number, i). (number, covers_same w number same i)) rest,
              )
          | inr new ↦
              subst Covered {x = v ∷ changes v values} {y = changes p (v ∷ values)} (sym (rw new)) (
                (n.1.0, inr (inl (eq_of_not_lt v v n.1.0 n.1.0 (lt_irrefl v) (lt_irrefl v)))),
                All-map _ _ values (λ w (number, i). (number, inr i)) rest,
              )
        ]
      where
        Covered : List F → Type 0
        Covered reps = All (λ w. (f.is_nan w ≡ false) × IsEqualIn w (p ∷ reps)) (v ∷ values)

        covers_same :
            (w : F)
            → f.is_nan w ≡ false
            → f.eq p v ≡ true
            → IsEqualIn w (v ∷ changes v values)
            → IsEqualIn w (p ∷ changes v values)
        covers_same w number same (inl e) = inl (eq_trans p v w n.0 n.1.0 number same e)
        covers_same w number same (inr i) = inr i

    count_runs-Represents :
        (values : List F)
        → AllNumbers values
        → IsAscending values
        → (reps : List F) × Represents reps values × (length reps ≡ count_runs values)
    unfolding count_runs
    count_runs-Represents [] n a = ([], record { strict = tt; present = tt; covers = tt }, refl)
    count_runs-Represents (v ∷ values) n a = (
      v ∷ changes v values,
      record {
        strict = changes-IsStrict v values n a;
        present = (inl refl, changes-IsIn v values (v ∷ values) (λ w i. inr i));
        covers = (
          inl (eq_of_not_lt v v n.0 n.0 (lt_irrefl v) (lt_irrefl v)),
          All-map _ _ values (λ w both. both.1) (changes-covers v values n),
        );
      },
      omega (arith, count_changes-length v values 1),
    )

    -- With IEEE comparisons and without NaN, `UniqueCount` is the number of different values: as many as the entries of a
    -- strictly rising list of values of the slice, one of which equals each value of the slice.
    pub unique_count-Represents :
        (values : List F)
        → AllNumbers values
        → (reps : List F) × Represents reps values × (length reps ≡ unique_count values)
    unfolding unique_count
    unique_count-Represents values n =
        let (reps, r, e) =
          count_runs-Represents (sort values) (All-sort _ values n)
            (sort-IsAscending laws values n) in
        (
          reps,
          record {
            strict = r.strict;
            present = All-map _ _ reps (λ x. IsIn-sort x values) r.present;
            covers = All-sort_back _ values r.covers;
          },
          e,
        )
