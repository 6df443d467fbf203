-- ===== src/Extras/Loadtest/Accepted.antt =====
-- The messages of the load test, read by the service.
use statsgod.Metric.Parse.Elements.{parse-simple}
use statsgod.Prelude.Outcome.{done}
use statsgod.Prelude.Int.{pos}
use statsgod.Decimal.{decimal}
use statsgod.Float.{one, Float64}
use statsgod.Extras.Loadtest.{TestMetric, string_value, value_of}
use statsgod.Metric.{
  new_metric, Metric, metric_type_set, metric_type_timer, metric_type_gauge, metric_type_counter,
}
use statsgod.Decimal.Digits.{decimal-IsDigit, length-decimal, IsDigit}
use statsgod.Utf8.{runes-ascii, string_of-ascii, string_of, IsAscii}
use statsgod.Metric.Parse.Fields.{IsPlain, IsElement}
use statsgod.Metric.Parse.{parse_metric_string, sample_rate_of, build_metric, get_metric_type}
use statsgod.Prelude.{
  ap, ◌∙◌, All-append, ◌++◌, false, some, length, ◌<◌, [], inr, arith, inl, ◌∷◌, none, codes, ◌⊎◌,
  bytes_eq, All, ◌≡◌, ◌≤◌, Bytes, ℕ,
}

-- A letter, a digit or a dot.
abbrev pub IsKeyByte : ℕ → Type 0
IsKeyByte c =
    ((b'a' ≤ c) × (c ≤ b'z')) ⊎ ((b'A' ≤ c) × (c ≤ b'Z')) ⊎ ((b'0' ≤ c) × (c ≤ b'9')) ⊎ (c ≡ b'.')

-- One of the four metric types, with its number in the service.
abbrev pub IsTypeOf : Bytes → ℕ → Type 0
IsTypeOf metric_type t =
    ((metric_type ≡ codes "c") × (t ≡ metric_type_counter))
    ⊎ ((metric_type ≡ codes "g") × (t ≡ metric_type_gauge))
    ⊎ ((metric_type ≡ codes "ms") × (t ≡ metric_type_timer))
    ⊎ ((metric_type ≡ codes "s") × (t ≡ metric_type_set))

key-IsPlain : (key : Bytes) → All IsKeyByte key → All (IsPlain 0) key
key-IsPlain [] k = tt
key-IsPlain (c ∷ key) (h, k) = (ground arith, key-IsPlain key k)

IsAscii-key : (key : Bytes) → All IsKeyByte key → IsAscii key
IsAscii-key [] k = tt
IsAscii-key (c ∷ key) (h, k) = (ground arith, IsAscii-key key k)

digits-IsPlain : (s : Bytes) → All IsDigit s → All (IsPlain 1) s
digits-IsPlain [] k = tt
digits-IsPlain (c ∷ s) (h, k) = (ground arith, digits-IsPlain s k)

IsAscii-digits : (s : Bytes) → All IsDigit s → IsAscii s
IsAscii-digits [] k = tt
IsAscii-digits (c ∷ s) (h, k) = (ground arith, IsAscii-digits s k)

type-IsElement :
    (metric_type : Bytes) (t : ℕ)
    → IsTypeOf metric_type t
    → IsElement 2 metric_type × IsAscii metric_type
type-IsElement metric_type t (inl (e, n)) = rw e (ground arith)
type-IsElement metric_type t (inr (inl (e, n))) = rw e (ground arith)
type-IsElement metric_type t (inr (inr (inl (e, n)))) = rw e (ground arith)
type-IsElement metric_type t (inr (inr (inr (e, n)))) = rw e (ground arith)

get_metric_type-type :
    (metric_type : Bytes) (t : ℕ) → IsTypeOf metric_type t → get_metric_type metric_type ≡ (t, none)
unfolding get_metric_type bytes_eq
get_metric_type-type metric_type t (inl (e, n)) = rw (e, n)
get_metric_type-type metric_type t (inr (inl (e, n))) = rw (e, n)
get_metric_type-type metric_type t (inr (inr (inl (e, n)))) = rw (e, n)
get_metric_type-type metric_type t (inr (inr (inr (e, n)))) = rw (e, n)

length-type : (metric_type : Bytes) (t : ℕ) → IsTypeOf metric_type t → 0 < length metric_type
length-type metric_type t typed = ground arith

pub value_of-lt :
    (intn : ℕ → ℕ) (metric_type : Bytes)
    → intn 100 < 100
    → intn 1000 < 1000
    → value_of intn metric_type < 1000
unfolding value_of
value_of-lt intn metric_type a b = ground arith

-- strconv.ParseFloat reads the digits of a number below 1000, and fails on the empty string; 1 is not
-- below 1.
pub record ReadsDigits (F : Type 0) ⦃f : Float64 F⦄ : Type 0 where
  pub digits : (n : ℕ) → n < 1000 → f.parse_float (decimal n) ≡ some (f.of_int (pos n))
  pub empty : f.parse_float [] ≡ none
  pub one_one : f.lt one one ≡ false

module _ {F : Type 0} ⦃f : Float64 F⦄ where
  -- What the service makes of a message of the load test.
  abbrev pub accepted : Bytes → ℕ → ℕ → Metric F
  accepted key t value = record new_metric {
    key = key;
    metric_type = t;
    total_hits = one;
    last_value = f.of_int (pos value);
    all_values = f.of_int (pos value) ∷ [];
    sample_rate = one;
  }

  module _ (reads : ReadsDigits F) (key metric_type : Bytes) (t value : ℕ) where
    build_metric-accepted :
        0 < length key
        → All IsKeyByte key
        → IsTypeOf metric_type t
        → value < 1000
        → build_metric key (decimal value) metric_type [] ≡ (accepted key t value, none)
    unfolding build_metric sample_rate_of string_of
    build_metric-accepted ne k typed small =
        let (is_element, ascii) = type-IsElement metric_type t typed in
        let (some_digit, few) = length-decimal value in
        ground (
          arith,
          string_of-ascii key (IsAscii-key key k),
          string_of-ascii (decimal value) (IsAscii-digits (decimal value) (decimal-IsDigit value)),
          string_of-ascii metric_type ascii,
          get_metric_type-type metric_type t typed,
          reads.digits value small,
          reads.empty,
          reads.one_one,
          length-type metric_type t typed,
        )

    pub string_value-accepted :
        (metric : TestMetric)
        → metric.key ≡ key
        → metric.metric_type ≡ metric_type
        → 0 < length key
        → length key < 512
        → All IsKeyByte key
        → IsTypeOf metric_type t
        → value < 1000
        → parse_metric_string (string_value metric value) ≡ done (accepted key t value, none)
    unfolding string_value
    string_value-accepted metric e e' ne short k typed small =
        let (is_element, ascii) = type-IsElement metric_type t typed in
        let (some_digit, few) = length-decimal value in
        let digits : All IsDigit (decimal value) = decimal-IsDigit value in
        rw (e, e')
          (parse-simple (key ++ b':' ∷ (decimal value ++ b'|' ∷ metric_type)) key (decimal value)
              metric_type
              (runes-ascii _ (
                All-append _ key (b':' ∷ (decimal value ++ b'|' ∷ metric_type)) (IsAscii-key key k)
                  (
                    omega arith,
                    All-append _ (decimal value) (b'|' ∷ metric_type)
                        (IsAscii-digits (decimal value) digits) (omega arith, ascii),
                  )))
              (key-IsPlain key k, short) (digits-IsPlain (decimal value) digits, omega arith)
              is_element
            ∙ ap done (build_metric-accepted ne k typed small))
