-- ===== src/Float.antt =====
-- What the program does with `float64`: the type and its operations are a parameter of the model,
-- with the laws of IEEE 754 comparisons that the theorems rely on.
pub mod Fixed
use statsgod.Prelude.{ℕ, Bool, true, false, ◌||◌, Option, ◌≡◌, ◌⊎◌, Bytes}
use statsgod.Prelude.Int.{ℤ, pos}

pub record Float64 (F : Type 0) : Type 0 where
  -- float64(i) of an integer
  pub of_int : ℤ → F
  pub add : F → F → F
  pub sub : F → F → F
  pub mul : F → F → F
  pub div : F → F → F
  -- `<` and `==`
  pub lt : F → F → Bool
  pub eq : F → F → Bool
  -- math.IsNaN
  pub is_nan : F → Bool
  -- int(x), which cuts the fraction off
  pub trunc : F → ℤ
  -- strconv.ParseFloat(s, 32), `none` for an error
  pub parse_float : Bytes → Option F
  -- strconv.FormatFloat(x, 'f', 6, 32)
  pub format_float : F → Bytes

-- `<=`
abbrev pub le : {F : Type 0} ⦃f : Float64 F⦄ → F → F → Bool
le ⦃f⦄ x y = f.lt x y || f.eq x y

-- IEEE 754: `<` is a strict weak order of the values other than NaN, `==` is its indifference, and
-- every comparison with NaN is false.
pub record IsIeee (F : Type 0) ⦃f : Float64 F⦄ : Type 0 where
  pub lt_irrefl : (x : F) → f.lt x x ≡ false
  pub lt_trans : (x y z : F) → f.lt x y ≡ true → f.lt y z ≡ true → f.lt x z ≡ true
  pub lt_split :
      (x y z : F) → f.is_nan y ≡ false → f.lt x z ≡ true → (f.lt x y ≡ true) ⊎ (f.lt y z ≡ true)
  pub lt_nan_left : (x y : F) → f.is_nan x ≡ true → f.lt x y ≡ false
  pub lt_nan_right : (x y : F) → f.is_nan y ≡ true → f.lt x y ≡ false
  pub eq_nan : (x y : F) → f.is_nan x ≡ true → f.eq x y ≡ false
  pub eq_sym : (x y : F) → f.eq x y ≡ f.eq y x
  pub eq_not_lt : (x y : F) → f.eq x y ≡ true → f.lt x y ≡ false
  pub eq_of_not_lt :
      (x y : F)
      → f.is_nan x ≡ false
      → f.is_nan y ≡ false
      → f.lt x y ≡ false
      → f.lt y x ≡ false
      → f.eq x y ≡ true

module _ {F : Type 0} ⦃f : Float64 F⦄ where
  abbrev pub nought : F
  nought = f.of_int (pos 0)

  abbrev pub one : F
  one = f.of_int (pos 1)
