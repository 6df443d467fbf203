-- ===== src/Carbon/Namespace.antt =====
-- statsgod/relay.go: `SetPrefixesAndSuffixes`. The order in which `range` visits a map is a parameter.
use statsgod.Carbon.{
  namespace_type_timer, namespace_type_set, namespace_type_rate, CarbonRelay, set_affix,
  namespace_type_gauge, namespace_type_counter, Affixes,
}
use statsgod.Prelude.{◌++◌, [], ℕ, ◌∷◌, Bytes}
use statsgod.Config.{NamespaceValues, NamespaceTexts}
pub mod Dotted

unfoldable pub by_kind : NamespaceTexts → Affixes
by_kind texts =
    (namespace_type_counter, texts.counters)
    ∷ (namespace_type_gauge, texts.gauges)
    ∷ (namespace_type_rate, texts.rates)
    ∷ (namespace_type_set, texts.sets)
    ∷ (namespace_type_timer, texts.timers)
    ∷ []

abbrev pub dot : Bytes
dot = b'.' ∷ []

-- `text + "."`, unless the text is empty.
unfoldable pub global_prefix : Bytes → Bytes
global_prefix [] = []
global_prefix (c ∷ s) = c ∷ s ++ dot

unfoldable pub global_suffix : Bytes → Bytes
global_suffix [] = []
global_suffix (c ∷ s) = dot ++ c ∷ s

-- A round of the first loop, and of the second.
set_prefix : Bytes → ℕ → Bytes → Affixes → Affixes
set_prefix prefix metric_type [] prefixes = set_affix prefixes metric_type prefix
set_prefix prefix metric_type (c ∷ s) prefixes =
    set_affix (set_affix prefixes metric_type prefix) metric_type (prefix ++ (c ∷ s) ++ dot)

set_suffix : Bytes → ℕ → Bytes → Affixes → Affixes
set_suffix suffix metric_type [] suffixes = set_affix suffixes metric_type suffix
set_suffix suffix metric_type (c ∷ s) suffixes =
    set_affix (set_affix suffixes metric_type suffix) metric_type (dot ++ (c ∷ s) ++ suffix)

set_prefixes : Bytes → Affixes → Affixes → Affixes
unfolding set_prefix
set_prefixes prefix [] prefixes = prefixes
set_prefixes prefix ((metric_type, type_prefix) ∷ entries) prefixes =
    set_prefixes prefix entries (set_prefix prefix metric_type type_prefix prefixes)

set_suffixes : Bytes → Affixes → Affixes → Affixes
unfolding set_suffix
set_suffixes suffix [] suffixes = suffixes
set_suffixes suffix ((metric_type, type_suffix) ∷ entries) suffixes =
    set_suffixes suffix entries (set_suffix suffix metric_type type_suffix suffixes)

unfoldable pub set_prefixes_and_suffixes :
    (Affixes → Affixes) → NamespaceValues → CarbonRelay → CarbonRelay
unfolding set_prefixes set_suffixes
set_prefixes_and_suffixes visited namespace c = record c {
  prefixes =
      set_prefixes (global_prefix namespace.prefix) (visited (by_kind namespace.prefixes)) [];
  suffixes =
      set_suffixes (global_suffix namespace.suffix) (visited (by_kind namespace.suffixes)) [];
}
