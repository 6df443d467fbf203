-- ===== src/Metric/Aggregate/Totals.antt =====
-- The totals that the entry of a key stands for.
use statsgod.Prelude.Dict.{lookup}
use statsgod.Metric.Aggregate.{aggregate_all, combine}
use statsgod.Metric.Aggregate.Keys.{lookup-aggregate_all, of_key, received}
use statsgod.Metric.{metric_type_counter, Metric}
use statsgod.Float.{Float64}
use mathlib.Core.List.{foldl}
use mathlib.Core.Option.{some-injective}
use statsgod.Prelude.{
  append_assoc, append-nil, ap, arith, sym, ◌∙◌, some, ◌<◌, [], ◌++◌, ◌∷◌, All, ◌≡◌, map, Bytes,
  List, refl, ℕ,
}

-- A gauge, a set or a timer.
abbrev pub IsLatest : ℕ → Type 0
IsLatest t = (0 < t) × (t < 4)

module _ {F : Type 0} ⦃f : Float64 F⦄ where
  abbrev pub last_values : List (Metric F) → List F
  last_values = map λ m. m.last_value

  abbrev pub hits : List (Metric F) → List F
  hits = map λ m. m.total_hits

  -- An entry after metrics of its key.
  pub record Accumulates (e : Metric F) (ms : List (Metric F)) (after : Metric F) : Type 0 where
    pub same_key : after.key ≡ e.key
    pub same_type : after.metric_type ≡ e.metric_type
    pub values : after.all_values ≡ e.all_values ++ last_values ms
    pub total : after.total_hits ≡ foldl f.add e.total_hits (hits ms)

  received-Accumulates :
      (e : Metric F) (ms : List (Metric F))
      → (after : Metric F) × (received (some e) ms ≡ some after) × Accumulates e ms after
  unfolding received combine
  received-Accumulates e [] = (
    e,
    refl,
    record {
      same_key = refl;
      same_type = refl;
      values = sym (append-nil e.all_values);
      total = refl;
    },
  )
  received-Accumulates e (m ∷ ms) =
      let (after, eq, a) = received-Accumulates (combine e m) ms in
      (
        after,
        eq,
        record {
          same_key = a.same_key;
          same_type = a.same_type;
          values = a.values ∙ append_assoc e.all_values (m.last_value ∷ []) (last_values ms);
          total = a.total;
        },
      )

  abbrev pub AllOfType : ℕ → List (Metric F) → Type 0
  AllOfType t = All λ m. m.metric_type ≡ t

  abbrev pub inflated : List (Metric F) → List F
  inflated = map λ m. f.mul m.last_value m.total_hits

  value-counter :
      (e m : Metric F)
      → m.metric_type ≡ metric_type_counter
      → (combine e m).last_value ≡ f.add e.last_value (f.mul m.last_value m.total_hits)
  unfolding combine
  value-counter e m h = ground arith

  received-counter :
      (e after : Metric F) (ms : List (Metric F))
      → AllOfType metric_type_counter ms
      → received (some e) ms ≡ some after
      → after.last_value ≡ foldl f.add e.last_value (inflated ms)
  unfolding received
  received-counter e after [] c h = ap (λ m. m.last_value) (sym (some-injective _ _ h))
  received-counter e after (m ∷ ms) c h =
      received-counter (combine e m) after ms c.1 h
      ∙ ap (λ x. foldl f.add x (inflated ms)) (value-counter e m c.0)

  value-latest : (e m : Metric F) → IsLatest m.metric_type → (combine e m).last_value ≡ m.last_value
  unfolding combine
  value-latest e m h = ground arith

  -- The last value of a list, or another value if there is none.
  abbrev pub last_or : F → List F → F
  last_or x [] = x
  last_or x (y ∷ ys) = last_or y ys

  received-latest :
      (e after : Metric F) (ms : List (Metric F))
      → All (λ c. IsLatest c.metric_type) ms
      → received (some e) ms ≡ some after
      → after.last_value ≡ last_or e.last_value (last_values ms)
  unfolding received
  received-latest e after [] c h = ap (λ m. m.last_value) (sym (some-injective _ _ h))
  received-latest e after (m ∷ ms) c h =
      received-latest (combine e m) after ms c.1 h
      ∙ ap (λ x. last_or x (last_values ms)) (value-latest e m c.0)

  received-first :
      (k : Bytes) (m : Metric F) (ms rest : List (Metric F))
      → of_key k ms ≡ m ∷ rest
      → lookup k (aggregate_all [] ms) ≡ received (some m) rest
  received-first k m ms rest h = lookup-aggregate_all k [] ms ∙ unfold lookup received in (rw h)

  -- After metrics on an empty map, the entry of a key that came has the key, the type and the values of
  -- the first metric of this key, followed by the later values in their order, and the sum of the hits.
  pub aggregate_all-Accumulates :
      (k : Bytes) (m : Metric F) (ms rest : List (Metric F))
      → of_key k ms ≡ m ∷ rest
      → (after : Metric F) × (lookup k (aggregate_all [] ms) ≡ some after)
        × Accumulates m rest after
  aggregate_all-Accumulates k m ms rest h =
      let (after, e, a) = received-Accumulates m rest in
      (after, received-first k m ms rest h ∙ e, a)

  -- If the metrics of a key after its first are counters, its entry holds the first value as it was sent, plus each
  -- later value times its hits.
  pub aggregate_all-counter :
      (k : Bytes) (m after : Metric F) (ms rest : List (Metric F))
      → of_key k ms ≡ m ∷ rest
      → AllOfType metric_type_counter rest
      → lookup k (aggregate_all [] ms) ≡ some after
      → after.last_value ≡ foldl f.add m.last_value (inflated rest)
  aggregate_all-counter k m after ms rest h c e =
      received-counter m after rest c (sym (received-first k m ms rest h) ∙ e)

  -- If the metrics of a key after its first are gauges, sets or timers, its entry holds the value that
  -- was sent last.
  pub aggregate_all-last :
      (k : Bytes) (m after : Metric F) (ms rest : List (Metric F))
      → of_key k ms ≡ m ∷ rest
      → All (λ c. IsLatest c.metric_type) rest
      → lookup k (aggregate_all [] ms) ≡ some after
      → after.last_value ≡ last_or m.last_value (last_values rest)
  aggregate_all-last k m after ms rest h c e =
      received-latest m after rest c (sym (received-first k m ms rest h) ∙ e)
