-- ===== src/Metric.antt =====
-- statsgod/metric.go: the metric types and the data of a metric. A Go `int` that holds a metric type
-- is a number; a rune is its code point.
pub mod Parse
pub mod Aggregate
pub mod Process
use statsgod.Prelude.{ℕ, Bytes, List, [], ◌∷◌}
use statsgod.Prelude.Int.{ℤ, pos}
use statsgod.Float.{one, nought, Float64}

abbrev pub rune_colon : ℕ
rune_colon = 58

abbrev pub rune_pipe : ℕ
rune_pipe = 124

abbrev pub rune_at : ℕ
rune_at = 64

abbrev pub rune_space : ℕ
rune_space = 32

abbrev pub rune_null : ℕ
rune_null = 0

abbrev pub maximum_metric_length : ℕ
maximum_metric_length = 512

abbrev pub metric_type_counter : ℕ
metric_type_counter = 0

abbrev pub metric_type_gauge : ℕ
metric_type_gauge = 1

abbrev pub metric_type_set : ℕ
metric_type_set = 2

abbrev pub metric_type_timer : ℕ
metric_type_timer = 3

abbrev pub metric_type_unknown : ℕ
metric_type_unknown = 4

module _ (F : Type 0) where
  pub record MetricQuantile : Type 0 where
    pub quantile : ℤ
    pub boundary : F
    pub all_values : List F
    pub mean : F
    pub median : F
    pub max : F
    pub sum : F

  pub record Metric : Type 0 where
    pub key : Bytes
    pub metric_type : ℕ
    pub total_hits : F
    pub last_value : F
    pub values_per_second : F
    pub min_value : F
    pub max_value : F
    pub mean_value : F
    pub median_value : F
    pub quantiles : List (MetricQuantile)
    pub all_values : List F
    pub flush_time : ℤ
    pub last_flushed : ℤ
    pub sample_rate : F

module _ {F : Type 0} ⦃f : Float64 F⦄ where
  -- `new(Metric)`
  abbrev pub new_metric : Metric F
  new_metric = record {
    key = [];
    metric_type = 0;
    total_hits = nought;
    last_value = nought;
    values_per_second = nought;
    min_value = nought;
    max_value = nought;
    mean_value = nought;
    median_value = nought;
    quantiles = [];
    all_values = [];
    flush_time = pos 0;
    last_flushed = pos 0;
    sample_rate = nought;
  }

  unfoldable pub create_simple_metric : Bytes → F → ℕ → Metric F
  create_simple_metric key value metric_type = record new_metric {
    key = key;
    metric_type = metric_type;
    last_value = value;
    all_values = value ∷ [];
    total_hits = one;
  }
