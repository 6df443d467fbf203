-- ===== src/Decimal/Digits.antt =====
-- The digits that `strconv.Itoa` writes.
use statsgod.Decimal.{decimal, decimal_loop}
use statsgod.Prelude.{
  ◌∙◌, ◌%◌, ◌/◌, inr, inl, ltb, ◌-◌, Bool-cases, ap, ◌+◌, zero, length, [], arith, ◌≡◌, ◌∷◌, ◌*◌,
  All, ◌≤◌, ◌<◌, Bytes, suc, ℕ,
}

-- The least number that `decimal_loop` has no place for with this fuel.
limit : ℕ → ℕ
limit zero = 10
limit (suc fuel) = 10 * limit fuel

-- The number that decimal digits stand for, behind digits that stand for `v`.
abbrev pub value_from : ℕ → Bytes → ℕ
value_from v [] = v
value_from v (c ∷ s) = value_from (v * 10 + (c - b'0')) s

decimal_loop-value :
    (fuel n : ℕ) (acc : Bytes)
    → n < limit fuel
    → value_from 0 (decimal_loop fuel n acc) ≡ value_from n acc
unfolding decimal_loop limit
decimal_loop-value zero n acc h = ap (λ v. value_from v acc) (omega arith)
decimal_loop-value (suc fuel) n acc h = elim (Bool-cases (ltb n 10)) [
  | inl small ↦ rw small (ap (λ v. value_from v acc) (omega arith))
  | inr large ↦ rw large (
      decimal_loop-value fuel (n / 10) ((b'0' + n % 10) ∷ acc) (omega arith)
      ∙ ap (λ v. value_from v acc) (omega arith))
]

-- A number below 10²⁰, such as any 64-bit integer, is read back from its digits.
pub decimal-value : (n : ℕ) → n < 100_000_000_000_000_000_000 → value_from 0 (decimal n) ≡ n
unfolding decimal limit
decimal-value n h = decimal_loop-value 19 n [] h

abbrev pub IsDigit : ℕ → Type 0
IsDigit c = (b'0' ≤ c) × (c ≤ b'9')

decimal_loop-IsDigit :
    (fuel n : ℕ) (acc : Bytes) → All IsDigit acc → All IsDigit (decimal_loop fuel n acc)
unfolding decimal_loop
decimal_loop-IsDigit zero n acc a = (omega arith, a)
decimal_loop-IsDigit (suc fuel) n acc a = elim (Bool-cases (ltb n 10)) [
  | inl small ↦ rw small (ground arith, a)
  | inr large ↦ rw large (decimal_loop-IsDigit fuel (n / 10) _ (omega arith, a))
]

pub decimal-IsDigit : (n : ℕ) → All IsDigit (decimal n)
unfolding decimal
decimal-IsDigit n = decimal_loop-IsDigit 19 n [] tt

length-decimal_loop :
    (fuel n : ℕ) (acc : Bytes)
    → (length acc < length (decimal_loop fuel n acc))
      × (length (decimal_loop fuel n acc) ≤ fuel + 1 + length acc)
unfolding decimal_loop
length-decimal_loop zero n acc = omega arith
length-decimal_loop (suc fuel) n acc = elim (Bool-cases (ltb n 10)) [
  | inl small ↦ rw small (omega arith)
  | inr large ↦ rw large (omega (arith, length-decimal_loop fuel (n / 10) ((b'0' + n % 10) ∷ acc)))
]

-- One digit at least, and twenty at most.
pub length-decimal : (n : ℕ) → (0 < length (decimal n)) × (length (decimal n) ≤ 20)
unfolding decimal
length-decimal n = length-decimal_loop 19 n []
