-- ===== src/Decimal.antt =====
-- strconv.Itoa and strconv.FormatInt(i, 10), which relay.go uses for times and percentiles.
pub mod Digits
use statsgod.Prelude.{ℕ, zero, suc, ◌+◌, ◌/◌, ◌%◌, [], ◌∷◌, Bytes, ltb, if◌then◌else◌}
use statsgod.Prelude.Int.{ℤ, pos, negsuc}

-- The digits of `n` in front of `acc`; one unit of fuel for each digit but the last.
unfoldable pub decimal_loop : ℕ → ℕ → Bytes → Bytes
decimal_loop zero n acc = (b'0' + n % 10) ∷ acc
decimal_loop (suc fuel) n acc =
    let rest = decimal_loop fuel (n / 10) ((b'0' + n % 10) ∷ acc) in
    if ltb n 10 then (b'0' + n) ∷ acc else rest

-- A 64-bit integer has at most nineteen digits.
unfoldable pub decimal : ℕ → Bytes
unfolding decimal_loop
decimal n = decimal_loop 19 n []

unfoldable pub itoa : ℤ → Bytes
unfolding decimal
itoa (pos n) = decimal n
itoa (negsuc n) = b'-' ∷ decimal (suc n)
