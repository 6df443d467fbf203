-- ===== src/Extras/Generator/Read.antt =====
-- The sample generator against the service: what becomes of its payloads.
use statsgod.Metric.{metric_type_timer, metric_type_gauge, metric_type_counter}
use statsgod.Extras.Generator.{generator_types, generate_metric_names, payload_of, GeneratorMetric}
use statsgod.Prelude.Int.{pos}
use statsgod.Auth.{auth_none}
use statsgod.Ingest.{handle_message}
use statsgod.Decimal.{decimal}
use statsgod.Prelude.Outcome.{at_index, done}
use statsgod.Socket.{read_input_udp, read_input}
use statsgod.Float.{Float64}
use statsgod.Extras.Loadtest.{value_of, TestMetric, string_value}
use statsgod.Extras.Loadtest.Run.{Choice}
use statsgod.Extras.Loadtest.Accepted.{
  IsTypeOf, IsKeyByte, ReadsDigits, accepted, string_value-accepted,
}
use statsgod.Extras.Loadtest.Generated.{IsLetter, key_of-name, handle_message-parsed, test_prefix}
use statsgod.Socket.Reassembly.{IsLine, read_input-line, read_input_udp-line}
use statsgod.Decimal.Digits.{IsDigit, decimal-IsDigit, length-decimal}
use statsgod.Prelude.{
  zero, suc, codes, bytes_eq, List, refl, length-append, ◌+◌, inr, inl, some, ◌++◌, arith, [], ◌<◌,
  ◌∷◌, ◌≤◌, All, ℕ, ◌≡◌, Bytes, length, All-append,
}

-- What randutil.String(20, randutil.Alphabet), randutil.IntRange and `r.Intn` promise.
pub record IsDrawn (r : Choice) : Type 0 where
  pub twenty : length r.name ≡ 20
  pub letters : All IsLetter r.name
  pub range_from : 1 ≤ r.range 1 4
  pub range_to : r.range 1 4 < 4
  pub intn_lt : r.intn 3 < 3

-- A payload that is read whole, as one message, from a connection or a packet, for which the service
-- without authentication pushes one metric.
pub record IsReadAs (F : Type 0) ⦃f : Float64 F⦄ (payload key : Bytes) (t value : ℕ) : Type 0 where
  pub stream : read_input F [] (payload ∷ []) ≡ done (payload ∷ [])
  pub packet : read_input_udp (some payload) ≡ payload ∷ []
  pub pushed : handle_message {F = F} auth_none payload ≡ done (accepted key t value ∷ [])

digits-IsLine : (s : Bytes) → All IsDigit s → IsLine s
digits-IsLine [] d = tt
digits-IsLine (c ∷ s) (h, d) = (ground arith, digits-IsLine s d)

key-IsLine : (s : Bytes) → All IsKeyByte s → IsLine s
key-IsLine [] k = tt
key-IsLine (c ∷ s) (h, k) = (ground arith, key-IsLine s k)

type-IsLine :
    (metric_type : Bytes) (t : ℕ)
    → IsTypeOf metric_type t
    → IsLine metric_type × (length metric_type ≤ 2)
type-IsLine metric_type t (inl (e, n)) = rw e (ground arith)
type-IsLine metric_type t (inr (inl (e, n))) = rw e (ground arith)
type-IsLine metric_type t (inr (inr (inl (e, n)))) = rw e (ground arith)
type-IsLine metric_type t (inr (inr (inr (e, n)))) = rw e (ground arith)

module _ {F : Type 0} ⦃f : Float64 F⦄ (reads : ReadsDigits F) (name : Bytes) where
  payload-IsReadAs :
      (metric_type : Bytes) (t value : ℕ)
      → IsTypeOf metric_type t
      → length name ≡ 20
      → All IsLetter name
      → value < 1000
      → IsReadAs F
          (test_prefix ++ name ++ b':' ∷ (decimal value ++ b'|' ∷ metric_type))
          (test_prefix ++ name)
          t
          value
  unfolding string_value
  payload-IsReadAs metric_type t value typed twenty letters small =
      let key : Bytes = test_prefix ++ name in
      let tail : Bytes = decimal value ++ b'|' ∷ metric_type in
      let m : TestMetric = record {
        key = key;
        metric_type = metric_type;
        metric_value = pos 0;
        connection_type = 0;
      } in
      let k : All IsKeyByte key = ground (arith, key_of-name name letters) in
      let (type_line, two) = type-IsLine metric_type t typed in
      let (some_digit, few) = length-decimal value in
      let line : IsLine (key ++ b':' ∷ tail) = All-append _ key (b':' ∷ tail) (key-IsLine key k) (
        ground arith,
        All-append _ (decimal value) (b'|' ∷ metric_type)
            (digits-IsLine (decimal value) (decimal-IsDigit value)) (ground arith, type_line),
      ) in
      let size : length (key ++ b':' ∷ tail)
          ≡ length name + 14 + (1 + (length (decimal value) + (1 + length metric_type))) =
        omega (
          arith,
          length-append key (b':' ∷ tail),
          length-append (decimal value) (b'|' ∷ metric_type),
        ) in
      record {
        stream = read_input-line F (key ++ b':' ∷ tail) line (omega arith) (omega arith);
        packet = read_input_udp-line (key ++ b':' ∷ tail) line (omega arith);
        pushed = handle_message-parsed _ _ (
            string_value-accepted reads key metric_type t value m refl refl (omega arith)
              (omega arith) k typed small);
      }

-- The metric has a connection that is dialed, and its payload is read.
abbrev pub IsRead : (F : Type 0) ⦃f : Float64 F⦄ → (ℕ → ℕ) → GeneratorMetric → Type 0
IsRead F intn m =
    (t : ℕ) × (IsTypeOf m.metric_type t)
    × (1 ≤ m.connection_type)
    × (m.connection_type < 4)
    × IsReadAs F (payload_of intn m) m.key t (value_of intn m.metric_type)

module _ {F : Type 0} ⦃f : Float64 F⦄ (reads : ReadsDigits F) (intn : ℕ → ℕ)
    (below_100 : intn 100 < 100) (below_1000 : intn 1000 < 1000) where
  drawn-IsRead :
      (r : Choice)
      → IsDrawn r
      → (i : ℕ) → i < 3
      → (metric_type : Bytes) × (at_index generator_types i ≡ done metric_type)
        × IsRead F intn (record {
          key = test_prefix ++ r.name;
          metric_type = metric_type;
          connection_type = r.range 1 4;
        })
  unfolding payload_of value_of bytes_eq decimal
  drawn-IsRead r d zero h = (
    codes "c",
    refl,
    (
      metric_type_counter,
      inl (refl, refl),
      d.range_from,
      d.range_to,
      payload-IsReadAs reads r.name (codes "c") metric_type_counter 1 (inl (refl, refl)) d.twenty
          d.letters (omega arith),
    ),
  )
  drawn-IsRead r d (suc zero) h = (
    codes "g",
    refl,
    (
      metric_type_gauge,
      inr (inl (refl, refl)),
      d.range_from,
      d.range_to,
      payload-IsReadAs reads r.name (codes "g") metric_type_gauge (intn 100)
          (inr (inl (refl, refl))) d.twenty d.letters (omega arith),
    ),
  )
  drawn-IsRead r d (suc (suc zero)) h = (
    codes "ms",
    refl,
    (
      metric_type_timer,
      inr (inr (inl (refl, refl))),
      d.range_from,
      d.range_to,
      payload-IsReadAs reads r.name (codes "ms") metric_type_timer (intn 1000)
          (inr (inr (inl (refl, refl)))) d.twenty d.letters below_1000,
    ),
  )
  drawn-IsRead r d (suc (suc (suc i))) h = absurd (omega arith)

  generated-All :
      (choices : List Choice) (store : List GeneratorMetric)
      → All IsDrawn choices
      → All (IsRead F intn) store
      → (all : List GeneratorMetric) × (generate_metric_names choices store ≡ done all)
        × (length all ≡ length store + length choices)
        × All (IsRead F intn) all
  unfolding generate_metric_names
  generated-All [] store d h = (store, refl, omega arith, h)
  generated-All (r ∷ choices) store (here, d) h =
      let (metric_type, e, is_read) = drawn-IsRead r here (r.intn 3) here.intn_lt in
      let m : GeneratorMetric = record {
        key = test_prefix ++ r.name;
        metric_type = metric_type;
        connection_type = r.range 1 4;
      } in
      let (all, e', count, are) =
        generated-All choices (store ++ m ∷ []) d (All-append _ store (m ∷ []) h (is_read, tt)) in
      (
        all,
        rw (e, generate_metric_names) e',
        omega (arith, count, length-append store (m ∷ [])),
        are,
      )

  -- If the sources of random choices and strconv.ParseFloat (below 1000) do what they promise, the
  -- generator makes as many metrics as there are rounds, each for one of its three kinds of
  -- connection; and its payload, which has no newline, is read as one message from a stream as from a
  -- packet, for which a service without authentication pushes one metric, of its key, type and value.
  pub generate_metric_names-AreRead :
      (choices : List Choice)
      → All IsDrawn choices
      → (all : List GeneratorMetric) × (generate_metric_names choices [] ≡ done all)
        × (length all ≡ length choices)
        × All (IsRead F intn) all
  generate_metric_names-AreRead choices d =
      let (all, e, count, are) = generated-All choices [] d tt in
      (all, e, omega (arith, count), are)
