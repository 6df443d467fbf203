-- ===== src/Float/Fixed.antt =====
-- A concrete `Float64` for tests and witnesses: thousandths in an integer, with `none` for NaN.
-- It reads decimal digits with a fraction of up to three digits, and prints six.
use statsgod.Prelude.{
  ap, ◌∙◌, length, ◌<◌, All, ℕ, suc, ◌+◌, ◌-◌, ◌*◌, ◌/◌, ◌%◌, Bool, true, false, Option, none, some,
  [], ◌∷◌, ◌++◌, ◌&&◌, ◌≡◌, refl, leb, ◌==◌, if◌then◌else◌, Bytes, codes, arith,
}
use statsgod.Prelude.Int.{
  ℤ, pos, negsuc, pos_part, neg_part, ◌+ℤ◌, ◌-ℤ◌, ◌*ℤ◌, ltb_ℤ, sub_ℕ, eq_of_parts,
}
use statsgod.Decimal.{decimal}
use statsgod.Decimal.Digits.{value_from, IsDigit, decimal-value, decimal-IsDigit, length-decimal}
use statsgod.Float.{Float64, IsIeee}

abbrev pub Fixed : Type 0
Fixed = Option ℤ

abbrev on_numbers {ℓ} : {A : Type ℓ} → A → (ℤ → ℤ → A) → Fixed → Fixed → A
on_numbers d g none y = d
on_numbers d g (some a) none = d
on_numbers d g (some a) (some b) = g a b

-- Quotients by 1000 and by `b`, cut off towards 0.
div_ℤ : ℤ → ℕ → ℤ
div_ℤ a b = sub_ℕ (pos_part a / b) (neg_part a / b)

ratio : ℤ → ℤ → Fixed
unfolding div_ℤ
ratio a (pos b) = if b == 0 then none else some (div_ℤ (a *ℤ pos 1000) b)
ratio a (negsuc b) = some (pos 0 -ℤ div_ℤ (a *ℤ pos 1000) (suc b))

is_digit : ℕ → Bool
is_digit c = leb b'0' c && leb c b'9'

read_fraction : ℕ → ℕ → Bytes → Fixed
unfolding is_digit
read_fraction acc unit [] = some (pos acc)
read_fraction acc unit (c ∷ s) =
    if is_digit c then read_fraction (acc + (c - b'0') * unit) (unit / 10) s else none

read_whole : ℕ → Bytes → Fixed
unfolding is_digit read_fraction
read_whole acc [] = some (pos (acc * 1000))
read_whole acc (c ∷ s) =
    let rest = read_whole (acc * 10 + (c - b'0')) s in
    if c == b'.' then read_fraction (acc * 1000) 100 s else if is_digit c then rest else none

read : Bytes → Option Fixed
unfolding read_whole
read [] = none
read (c ∷ s) = elim (read_whole 0 (c ∷ s)) [ none ↦ none | some z ↦ some (some z) ]

thousandths : ℕ → Bytes
thousandths n = (b'0' + n / 100) ∷ (b'0' + n / 10 % 10) ∷ (b'0' + n % 10) ∷ codes "000"

print : Fixed → Bytes
unfolding decimal thousandths
print none = codes "NaN"
print (some (pos n)) = decimal (n / 1000) ++ b'.' ∷ thousandths (n % 1000)
print (some (negsuc n)) = b'-' ∷ (decimal (suc n / 1000) ++ b'.' ∷ thousandths (suc n % 1000))

fixed_trunc : Fixed → ℤ
unfolding div_ℤ
fixed_trunc none = pos 0
fixed_trunc (some a) = div_ℤ a 1000

fixed_is_nan : Fixed → Bool
fixed_is_nan none = true
fixed_is_nan (some a) = false

fixed_lt : Fixed → Fixed → Bool
fixed_lt = on_numbers false ltb_ℤ

fixed_eq : Fixed → Fixed → Bool
fixed_eq = on_numbers false λ a b. pos_part a + neg_part b == pos_part b + neg_part a

-- To compute with the instance, unfold this.
instance unfoldable pub fixed : Float64 Fixed
unfolding ratio div_ℤ read print fixed_trunc fixed_is_nan fixed_lt fixed_eq
fixed = record {
  of_int = λ a. some (a *ℤ pos 1000);
  add = on_numbers none λ a b. some (a +ℤ b);
  sub = on_numbers none λ a b. some (a -ℤ b);
  mul = on_numbers none λ a b. some (div_ℤ (a *ℤ b) 1000);
  div = on_numbers none ratio;
  lt = fixed_lt;
  eq = fixed_eq;
  is_nan = fixed_is_nan;
  trunc = fixed_trunc;
  parse_float = read;
  format_float = print;
}

pub fixed-IsIeee : IsIeee Fixed ⦃f = fixed⦄
unfolding fixed
fixed-IsIeee = ground arith

read_whole-value :
    (acc : ℕ) (s : Bytes) → All IsDigit s → read_whole acc s ≡ some (pos (value_from acc s * 1000))
unfolding read_whole is_digit
read_whole-value acc [] d = refl
read_whole-value acc (c ∷ s) ((lo, hi), d) =
    ground (arith, read_whole-value (acc * 10 + (c - b'0')) s d)

read-value :
    (s : Bytes) → All IsDigit s → 0 < length s → read s ≡ some (some (pos (value_from 0 s * 1000)))
unfolding read
read-value [] d h = absurd (omega arith)
read-value (c ∷ s) d h = rw (read_whole-value 0 (c ∷ s) d, read)

-- The digits that `strconv.Itoa` writes are read back.
pub fixed-decimal : (n : ℕ) → n < 1000 → fixed.parse_float (decimal n) ≡ some (fixed.of_int (pos n))
unfolding fixed
fixed-decimal n h =
    read-value (decimal n) (decimal-IsDigit n) (length-decimal n).0
    ∙ ap (λ v. some (some (pos (v * 1000)))) (decimal-value n (omega arith))
    ∙ ap some (ap some (eq_of_parts _ _ (ground arith)))

half : fixed.parse_float (codes "12.5") ≡ some (some (pos 12500))
unfolding fixed
half = refl

inverse : fixed.div (fixed.of_int (pos 1)) (some (pos 250)) ≡ fixed.of_int (pos 4)
unfolding fixed
inverse = refl

six_places : fixed.format_float (some (negsuc 12344)) ≡ codes "-12.345000"
unfolding fixed
six_places = refl
