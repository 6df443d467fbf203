-- ===== src/Carbon/Lines.antt =====
-- The lines that a flushed metric stands for, and that `Relay` delivers them on a network that works.
use statsgod.Metric.Process.{process_metric}
use statsgod.Carbon.Retry.{kept_after}
use statsgod.Carbon.Send.{try_send-written, after_write}
use statsgod.Decimal.{itoa}
use statsgod.Prelude.Outcome.{done}
use statsgod.Pool.Accounts.{Balances}
use statsgod.Carbon.{
  carbon_relay, relay_timer, relay_set, relay_counter, relay_gauge, send, relay_processed,
  relay_quantiles, send_carbon_metric, namespace_type_set, namespace_type_counter,
  namespace_type_rate, namespace_type_gauge, namespace_type_timer, apply_prefix_and_suffix,
  carbon_payload, send_payload, CarbonRelay,
}
use statsgod.Metric.{
  metric_type_timer, metric_type_set, metric_type_counter, metric_type_gauge, MetricQuantile,
  Metric,
}
use statsgod.Pool.{◌>>=◌, return, M, World, Network}
use statsgod.Float.{Float64}
use statsgod.Prelude.{
  false, length-append, arith, append_assoc, ap, ◌∙◌, append-nil, length, sym, ◌<◌, ◌==◌, ◌++◌, ◌∷◌,
  [], Bool, map, if◌then◌else◌, codes, ◌≡◌, List, String, Bytes, ℕ, true, refl,
}

-- A line: what is appended to the name of the metric, the kind of namespace, and the value.
record Line (F : Type 0) : Type 0 where
  name : Bytes
  kind : ℕ
  value : F

module _ {F : Type 0} ⦃f : Float64 F⦄ where
  abbrev line : String → ℕ → F → Line F
  line name kind value = record { name = codes name; kind = kind; value = value }

  abbrev quantile_line : String → MetricQuantile F → F → Line F
  quantile_line name q value = record {
    name = codes name ++ itoa q.quantile;
    kind = namespace_type_timer;
    value = value;
  }

  quantile_lines : List (MetricQuantile F) → List (Line F)
  quantile_lines [] = []
  quantile_lines (q ∷ quantiles) =
      quantile_line ".mean_" q q.mean
      ∷ quantile_line ".median_" q q.median
      ∷ quantile_line ".upper_" q q.max
      ∷ quantile_line ".sum_" q q.sum
      ∷ quantile_lines quantiles

  -- By the type of the metric.
  metric_lines : Metric F → List (Line F)
  unfolding quantile_lines
  metric_lines m =
      if m.metric_type == metric_type_gauge
      then line "" namespace_type_gauge m.last_value ∷ []
      else if m.metric_type == metric_type_counter
      then line "" namespace_type_rate m.values_per_second
        ∷ line "" namespace_type_counter m.last_value
        ∷ []
      else if m.metric_type == metric_type_set
      then line "" namespace_type_set m.last_value ∷ []
      else if m.metric_type == metric_type_timer
      then line "" namespace_type_rate m.values_per_second
        ∷ line ".mean_value" namespace_type_timer m.mean_value
        ∷ line ".median_value" namespace_type_timer m.median_value
        ∷ line ".max_value" namespace_type_timer m.max_value
        ∷ line ".min_value" namespace_type_timer m.min_value
        ∷ quantile_lines m.quantiles
      else []

  -- The bytes of a line, in carbon's plaintext format: "name value time\n".
  abbrev line_bytes : CarbonRelay → Metric F → Line F → Bytes
  line_bytes c m l =
      apply_prefix_and_suffix c (m.key ++ l.name) l.kind
      ++ codes " "
      ++ f.format_float l.value
      ++ codes " "
      ++ itoa m.flush_time
      ++ codes "\n"

  unfoldable pub lines_of : CarbonRelay → Metric F → List Bytes
  unfolding metric_lines
  lines_of c m = map (line_bytes c m) (metric_lines m)

-- Every write succeeds.
abbrev pub AllWritten : Network → Type 0
AllWritten net = (k : ℕ) → net.write_ok k ≡ true

module _ (net : Network) (size conn_type : ℕ) where
  -- A pool that keeps account of its connections and is not empty.
  pub record IsHealthy (w : World) : Type 0 where
    pub balanced : Balances 0 size conn_type w
    pub filled : 0 < length w.connections

  -- On a healthy pool the code returns `true`, has delivered just these payloads, in this order, and
  -- leaves the pool healthy.
  abbrev pub Delivers : M Bool → List Bytes → Type 0
  Delivers m payloads =
      (w : World)
      → IsHealthy w
      → (v : World) × (m w ≡ done (true, v)) × (v.delivered ≡ w.delivered ++ payloads) × IsHealthy v

  Delivers-return : Delivers (return true) []
  Delivers-return w h = (w, refl, sym (append-nil w.delivered), h)

  Delivers-then :
      (m n : M Bool) (first rest : List Bytes)
      → Delivers m first
      → Delivers n rest
      → Delivers (m >>= λ _. n) (first ++ rest)
  Delivers-then m n first rest p q w h =
      let (v, e, d, h') = p w h in
      let (u, e', d', h'') = q v h' in
      (u, rw (e, ◌>>=◌) e', d' ∙ ap (λ xs. xs ++ rest) d ∙ append_assoc w.delivered first rest, h'')

  module _ (written : AllWritten net) where
    send_payload-Delivers :
        (payload : Bytes) → Delivers (send_payload net payload true) (payload ∷ [])
    unfolding send_payload
    send_payload-Delivers payload w h = go w.connections refl
      where
        go :
            (xs : List ℕ)
            → w.connections ≡ xs
            → (v : World) × (send_payload net payload true w ≡ done (true, v))
              × (v.delivered ≡ w.delivered ++ payload ∷ [])
              × IsHealthy v
        go [] e = absurd (ground arith)
        go (c ∷ rest) e = (
          after_write net payload w c rest,
          rw (
            try_send-written net payload w c rest e
                (omega (arith, h.balanced.places, h.balanced.size_is)) (written w.writes),
            ◌>>=◌,
          ),
          unfold after_write in refl,
          record {
            balanced = kept_after net size conn_type payload w c rest e h.balanced;
            filled = unfold after_write in omega (arith, length-append rest (c ∷ []));
          },
        )

    module _ {F : Type 0} ⦃f : Float64 F⦄ (c : CarbonRelay) (m : Metric F) where
      send-Delivers :
          (name : Bytes) (kind : ℕ) (value : F)
          → Delivers
              (send net c m name kind value)
              (line_bytes c m (record { name = name; kind = kind; value = value }) ∷ [])
      unfolding send_carbon_metric carbon_payload
      send-Delivers name kind value = send_payload-Delivers _

      relay_quantiles-Delivers :
          (qs : List (MetricQuantile F))
          → Delivers (relay_quantiles net c m qs) (map (line_bytes c m) (quantile_lines qs))
      unfolding relay_quantiles quantile_lines
      relay_quantiles-Delivers [] = Delivers-return
      relay_quantiles-Delivers (q ∷ qs) = Delivers-then _ _ _ _ (send-Delivers _ _ _) (
          Delivers-then _ _ _ _ (send-Delivers _ _ _) (
            Delivers-then _ _ _ _ (send-Delivers _ _ _)
              (Delivers-then _ _ _ _ (send-Delivers _ _ _) (relay_quantiles-Delivers qs))))

      abbrev Sends : M Bool → List (Line F) → Type 0
      Sends code lines = Delivers code (map (line_bytes c m) lines)

      Sends-if :
          (b : Bool) (code other : M Bool) (lines rest : List (Line F))
          → Sends code lines
          → Sends other rest
          → Sends (if b then code else other) (if b then lines else rest)
      Sends-if true code other lines rest p q = p
      Sends-if false code other lines rest p q = q

      relay_one-Delivers :
          (kind : ℕ) (value : F)
          → Sends (send net c m [] kind value >>= λ _. return true) (line "" kind value ∷ [])
      relay_one-Delivers kind value = Delivers-then _ _ _ _ (send-Delivers _ _ _) Delivers-return

      relay_counter-Delivers : Sends (relay_counter net c m) (
          line "" namespace_type_rate m.values_per_second
          ∷ line "" namespace_type_counter m.last_value
          ∷ [])
      unfolding relay_counter
      relay_counter-Delivers = Delivers-then _ _ _ _ (send-Delivers _ _ _) (relay_one-Delivers _ _)

      relay_timer-Delivers : Sends (relay_timer net c m) (
          line "" namespace_type_rate m.values_per_second
          ∷ line ".mean_value" namespace_type_timer m.mean_value
          ∷ line ".median_value" namespace_type_timer m.median_value
          ∷ line ".max_value" namespace_type_timer m.max_value
          ∷ line ".min_value" namespace_type_timer m.min_value
          ∷ quantile_lines m.quantiles)
      unfolding relay_timer
      relay_timer-Delivers = Delivers-then _ _ _ _ (send-Delivers _ _ _) (
          Delivers-then _ _ _ _ (send-Delivers _ _ _) (
            Delivers-then _ _ _ _ (send-Delivers _ _ _) (
              Delivers-then _ _ _ _ (send-Delivers _ _ _) (
                Delivers-then _ _ _ _ (send-Delivers _ _ _)
                  (relay_quantiles-Delivers m.quantiles)))))

      relay_processed-Delivers : Delivers (relay_processed net c m) (lines_of c m)
      unfolding relay_processed relay_gauge relay_set lines_of metric_lines
      relay_processed-Delivers =
          Sends-if (m.metric_type == metric_type_gauge) _ _ _ _ (relay_one-Delivers _ _) (
            Sends-if (m.metric_type == metric_type_counter) _ _ _ _ relay_counter-Delivers (
              Sends-if (m.metric_type == metric_type_set) _ _ _ _ (relay_one-Delivers _ _) (
                Sends-if (m.metric_type == metric_type_timer) _ _ _ _ relay_timer-Delivers
                  Delivers-return)))

    -- On a network that takes every write, and from a pool that keeps account of its connections and is
    -- not empty, relaying a metric that can be processed delivers the lines of the processed metric, in
    -- their order, and nothing else, and leaves the pool so. A line is the name with its prefixes and suffixes, a
    -- space, the value, a space, the Unix time, and a newline.
    pub carbon_relay-lines_of :
        {F : Type 0} ⦃f : Float64 F⦄ (c : CarbonRelay) (m processed : Metric F) (w : World)
        → process_metric c.flush_interval c.percentile m ≡ done processed
        → IsHealthy w
        → (v : World) × (carbon_relay net c m w ≡ done (true, v))
          × (v.delivered ≡ w.delivered ++ lines_of c processed)
          × IsHealthy v
    unfolding carbon_relay
    carbon_relay-lines_of c m processed w e h =
        rw (e, carbon_relay) (relay_processed-Delivers c processed w h)
