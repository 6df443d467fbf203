-- ===== src/Utf8.antt =====
-- Go's `range` over a string and `string(runes)`: UTF-8, with U+FFFD for what is not valid.
use statsgod.Prelude.{
  ℕ, zero, suc, ◌+◌, ◌*◌, ◌/◌, ◌%◌, ◌<◌, ◌≡◌, refl, List, [], ◌∷◌, ◌++◌, Bool, ◌&&◌, ◌||◌, arith,
  leb, ltb, ◌==◌, if◌then◌else◌, Bytes, All,
}

abbrev pub rune_error : ℕ
rune_error = 0xfffd

within : ℕ → ℕ → ℕ → Bool
within lo hi b = leb lo b && leb b hi

is_continuation : ℕ → Bool
unfolding within
is_continuation b = within 0x80 0xbf b

-- A rune and the number of bytes that it takes beyond the first.
abbrev Decoded : Type 0
Decoded = ℕ × ℕ

decode_two : ℕ → Bytes → Decoded
decode_two b (b1 ∷ s) =
    if is_continuation b1 then (b % 0x20 * 0x40 + b1 % 0x40, 1) else (rune_error, 0)
decode_two b s = (rune_error, 0)

-- The second byte of the least and of the greatest lead byte has a smaller range.
second_of_three : ℕ → ℕ → Bool
second_of_three b b1 =
    within (if b == 0xe0 then 0xa0 else 0x80) (if b == 0xed then 0x9f else 0xbf) b1

decode_three : ℕ → Bytes → Decoded
decode_three b (b1 ∷ b2 ∷ s) =
    if second_of_three b b1 && is_continuation b2
    then (b % 0x10 * 0x1000 + b1 % 0x40 * 0x40 + b2 % 0x40, 2)
    else (rune_error, 0)
decode_three b s = (rune_error, 0)

second_of_four : ℕ → ℕ → Bool
second_of_four b b1 =
    within (if b == 0xf0 then 0x90 else 0x80) (if b == 0xf4 then 0x8f else 0xbf) b1

decode_four : ℕ → Bytes → Decoded
decode_four b (b1 ∷ b2 ∷ b3 ∷ s) =
    if second_of_four b b1 && is_continuation b2 && is_continuation b3
    then (b % 0x08 * 0x40000 + b1 % 0x40 * 0x1000 + b2 % 0x40 * 0x40 + b3 % 0x40, 3)
    else (rune_error, 0)
decode_four b s = (rune_error, 0)

decode_rune : ℕ → Bytes → Decoded
decode_rune b s =
    if ltb b 0x80
    then (b, 0)
    else if within 0xc2 0xdf b
    then decode_two b s
    else if within 0xe0 0xef b
    then decode_three b s
    else if within 0xf0 0xf4 b
    then decode_four b s
    else (rune_error, 0)

-- The runes of a string whose first bytes belong to a rune that is already read.
runes_after : ℕ → Bytes → List ℕ
runes_after skip [] = []
runes_after (suc skip) (b ∷ s) = runes_after skip s
runes_after zero (b ∷ s) = let d = decode_rune b s in d.0 ∷ runes_after d.1 s

unfoldable pub runes : Bytes → List ℕ
unfolding runes_after decode_rune decode_two decode_three decode_four second_of_three second_of_four
    is_continuation within
runes s = runes_after 0 s

encode_rune : ℕ → Bytes
encode_rune r =
    if ltb r 0x80
    then r ∷ []
    else if ltb r 0x800
    then (0xc0 + r / 0x40) ∷ (0x80 + r % 0x40) ∷ []
    else if within 0xd800 0xdfff r || ltb 0x10ffff r
    then 0xef ∷ 0xbf ∷ 0xbd ∷ []
    else if ltb r 0x10000
    then (0xe0 + r / 0x1000) ∷ (0x80 + r / 0x40 % 0x40) ∷ (0x80 + r % 0x40) ∷ []
    else (0xf0 + r / 0x40000)
      ∷ (0x80 + r / 0x1000 % 0x40)
      ∷ (0x80 + r / 0x40 % 0x40)
      ∷ (0x80 + r % 0x40)
      ∷ []

unfoldable pub string_of : List ℕ → Bytes
unfolding encode_rune within
string_of [] = []
string_of (r ∷ rs) = encode_rune r ++ string_of rs

abbrev pub IsAscii : Bytes → Type 0
IsAscii = All λ b. b < 0x80

decode_rune-ascii : (b : ℕ) (s : Bytes) → b < 0x80 → decode_rune b s ≡ (b, 0)
unfolding decode_rune
decode_rune-ascii b s h = ground arith

pub runes-ascii : (s : Bytes) → IsAscii s → runes s ≡ s
unfolding runes
runes-ascii [] h = refl
runes-ascii (b ∷ s) h = rw (decode_rune-ascii b s h.0) (rw (runes-ascii s h.1))

pub string_of-ascii : (s : List ℕ) → IsAscii s → string_of s ≡ s
unfolding string_of
string_of-ascii [] h = refl
string_of-ascii (b ∷ s) h = ground (arith, string_of-ascii s h.1)

euro : runes (0x61 ∷ 0xe2 ∷ 0x82 ∷ 0xac ∷ 0xff ∷ 0x62 ∷ []) ≡ 0x61 ∷ 0x20ac ∷ rune_error ∷ 0x62 ∷ []
unfolding runes
euro = refl

euro_back :
    string_of (0x61 ∷ 0x20ac ∷ 0x1f600 ∷ [])
    ≡ 0x61 ∷ 0xe2 ∷ 0x82 ∷ 0xac ∷ 0xf0 ∷ 0x9f ∷ 0x98 ∷ 0x80 ∷ []
unfolding string_of
euro_back = refl
