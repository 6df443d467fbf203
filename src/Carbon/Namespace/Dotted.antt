-- ===== src/Carbon/Namespace/Dotted.antt =====
-- The names under which metrics are relayed.
use statsgod.Config.{NamespaceValues, NamespaceTexts}
use statsgod.Carbon.Namespace.{
  set_prefixes_and_suffixes, by_kind, global_suffix, global_prefix, set_suffixes, set_suffix, dot,
  set_prefixes, set_prefix,
}
use statsgod.Carbon.{
  CarbonRelay, namespace_type_set, namespace_type_timer, namespace_type_rate, namespace_type_gauge,
  apply_prefix_and_suffix, namespace_type_counter, set_affix, Affixes, affix,
}
use statsgod.Prelude.{
  append_assoc, ◌∙◌, append-nil, sym, ◌≤◌, refl, inr, inl, Bool-cases, arith, ◌||◌, ◌⊎◌, [], ◌==◌,
  true, if◌then◌else◌, false, ◌++◌, ◌≡◌, All, Bool, ◌∷◌, Bytes, ℕ,
}

-- The entry of a kind, whatever it is.
has_kind : ℕ → Affixes → Bool
has_kind u [] = false
has_kind u ((t, text) ∷ m) = t == u || has_kind u m

-- Each entry of the kind has the text.
abbrev IsOnly : ℕ → Bytes → Affixes → Type 0
IsOnly u text = All λ e. e.0 ≡ u → e.1 ≡ text

-- The same entries in another order.
pub data Reordered : Affixes → Affixes → Type 0 where
  empty : Reordered [] []
  keep : (x : ℕ × Bytes) {m n : Affixes} → Reordered m n → Reordered (x ∷ m) (x ∷ n)
  swap : (x y : ℕ × Bytes) (m : Affixes) → Reordered (x ∷ y ∷ m) (y ∷ x ∷ m)
  trans : {m n o : Affixes} → Reordered m n → Reordered n o → Reordered m o

IsOnly-Reordered :
    (u : ℕ) (text : Bytes) {m n : Affixes} → Reordered m n → IsOnly u text m → IsOnly u text n
IsOnly-Reordered u text empty h = tt
IsOnly-Reordered u text (keep x p) (h, hs) = (h, IsOnly-Reordered u text p hs)
IsOnly-Reordered u text (swap x y m) (h, (h', hs)) = (h', (h, hs))
IsOnly-Reordered u text (trans p q) h = IsOnly-Reordered u text q (IsOnly-Reordered u text p h)

has_kind-Reordered : (u : ℕ) {m n : Affixes} → Reordered m n → has_kind u m ≡ has_kind u n
unfolding has_kind
has_kind-Reordered u empty = refl
has_kind-Reordered u (keep x p) = ground (arith, has_kind-Reordered u p)
has_kind-Reordered u (swap x y m) = ground arith
has_kind-Reordered u (trans p q) = has_kind-Reordered u p ∙ has_kind-Reordered u q

affix-set_affix :
    (m : Affixes) (t u : ℕ) (text : Bytes)
    → affix (set_affix m t text) u ≡ (if t == u then text else affix m u)
unfolding affix set_affix
affix-set_affix [] t u text = refl
affix-set_affix ((i, old) ∷ m) t u text = ground (arith, affix-set_affix m t u text)

-- What a text of a kind makes of the one for all kinds.
unfoldable pub prefix_of : Bytes → Bytes → Bytes
prefix_of prefix [] = prefix
prefix_of prefix (c ∷ s) = prefix ++ (c ∷ s) ++ dot

set_prefix-affix :
    (prefix text : Bytes) (t u : ℕ) (m : Affixes)
    → affix (set_prefix prefix t text m) u ≡ (if t == u then prefix_of prefix text else affix m u)
unfolding set_prefix prefix_of
set_prefix-affix prefix [] t u m = affix-set_affix m t u prefix
set_prefix-affix prefix (c ∷ s) t u m = ground (
  arith,
  affix-set_affix (set_affix m t prefix) t u (prefix ++ (c ∷ s) ++ dot),
  affix-set_affix m t u prefix,
)

set_prefixes-affix :
    (prefix text : Bytes) (u : ℕ) (entries m : Affixes)
    → IsOnly u text entries
    → (has_kind u entries ≡ true) ⊎ (affix m u ≡ prefix_of prefix text)
    → affix (set_prefixes prefix entries m) u ≡ prefix_of prefix text
unfolding set_prefixes has_kind
set_prefixes-affix prefix text u [] m only h = ground arith
set_prefixes-affix prefix text u ((t, typed) ∷ entries) m (here, only) h =
    set_prefixes-affix prefix text u entries (set_prefix prefix t typed m) only
      (elim (Bool-cases (t == u)) [
        | inl same ↦ inr (ground (arith, set_prefix-affix prefix typed t u m, here (ground arith)))
        | inr other ↦ ground (arith, set_prefix-affix prefix typed t u m)
      ])

suffix_of : Bytes → Bytes → Bytes
suffix_of suffix [] = suffix
suffix_of suffix (c ∷ s) = dot ++ (c ∷ s) ++ suffix

set_suffix-affix :
    (suffix text : Bytes) (t u : ℕ) (m : Affixes)
    → affix (set_suffix suffix t text m) u ≡ (if t == u then suffix_of suffix text else affix m u)
unfolding set_suffix suffix_of
set_suffix-affix suffix [] t u m = affix-set_affix m t u suffix
set_suffix-affix suffix (c ∷ s) t u m = ground (
  arith,
  affix-set_affix (set_affix m t suffix) t u (dot ++ (c ∷ s) ++ suffix),
  affix-set_affix m t u suffix,
)

set_suffixes-affix :
    (suffix text : Bytes) (u : ℕ) (entries m : Affixes)
    → IsOnly u text entries
    → (has_kind u entries ≡ true) ⊎ (affix m u ≡ suffix_of suffix text)
    → affix (set_suffixes suffix entries m) u ≡ suffix_of suffix text
unfolding set_suffixes has_kind
set_suffixes-affix suffix text u [] m only h = ground arith
set_suffixes-affix suffix text u ((t, typed) ∷ entries) m (here, only) h =
    set_suffixes-affix suffix text u entries (set_suffix suffix t typed m) only
      (elim (Bool-cases (t == u)) [
        | inl same ↦ inr (ground (arith, set_suffix-affix suffix typed t u m, here (ground arith)))
        | inr other ↦ ground (arith, set_suffix-affix suffix typed t u m)
      ])

-- The text of a kind of namespace.
abbrev pub text_of : NamespaceTexts → ℕ → Bytes
text_of texts kind =
    if kind == namespace_type_counter
    then texts.counters
    else if kind == namespace_type_gauge
    then texts.gauges
    else if kind == namespace_type_rate
    then texts.rates
    else if kind == namespace_type_set
    then texts.sets
    else texts.timers

-- One of the five kinds.
abbrev pub IsKind : ℕ → Type 0
IsKind kind = (namespace_type_counter ≤ kind) × (kind ≤ namespace_type_timer)

-- A text with a dot behind it, or in front of it; nothing for the empty text.
abbrev pub dotted : Bytes → Bytes
dotted [] = []
dotted (c ∷ s) = (c ∷ s) ++ b'.' ∷ []

abbrev pub behind_dot : Bytes → Bytes
behind_dot [] = []
behind_dot (c ∷ s) = b'.' ∷ c ∷ s

prefix_of-dotted : (g t : Bytes) → prefix_of (global_prefix g) t ≡ dotted g ++ dotted t
unfolding prefix_of global_prefix
prefix_of-dotted [] [] = refl
prefix_of-dotted [] (c ∷ s) = refl
prefix_of-dotted (d ∷ g) [] = sym (append-nil (d ∷ g ++ dot))
prefix_of-dotted (d ∷ g) (c ∷ s) = append_assoc (d ∷ g ++ dot) (c ∷ s) dot

suffix_of-dotted : (g t : Bytes) → suffix_of (global_suffix g) t ≡ behind_dot t ++ behind_dot g
unfolding suffix_of global_suffix
suffix_of-dotted [] [] = refl
suffix_of-dotted [] (c ∷ s) = refl
suffix_of-dotted (d ∷ g) [] = refl
suffix_of-dotted (d ∷ g) (c ∷ s) = refl

module _ (visited : Affixes → Affixes) (kind : ℕ) where
  IsOnly-visited :
      (texts : NamespaceTexts)
      → Reordered (by_kind texts) (visited (by_kind texts))
      → IsKind kind
      → IsOnly kind (text_of texts kind) (visited (by_kind texts))
  unfolding by_kind
  IsOnly-visited texts p h = IsOnly-Reordered kind (text_of texts kind) p (
    (λ e. ground arith),
    ((λ e. ground arith), ((λ e. ground arith), ((λ e. ground arith), ((λ e. ground arith), tt)))),
  )

  has_kind-visited :
      (texts : NamespaceTexts)
      → Reordered (by_kind texts) (visited (by_kind texts))
      → IsKind kind
      → has_kind kind (visited (by_kind texts)) ≡ true
  unfolding by_kind has_kind
  has_kind-visited texts p h = sym (has_kind-Reordered kind p) ∙ ground arith

  -- In whatever order `range` visits the maps, for each of the five kinds the relay puts in front of a
  -- name the prefix for all metrics and the one of the kind, each with a dot behind it, and behind the
  -- name the suffix of the kind and the one for all metrics, each with a dot in front; an empty prefix
  -- or suffix adds nothing.
  pub apply-set_prefixes_and_suffixes :
      (namespace : NamespaceValues) (c : CarbonRelay) (name : Bytes)
      → Reordered (by_kind namespace.prefixes) (visited (by_kind namespace.prefixes))
      → Reordered (by_kind namespace.suffixes) (visited (by_kind namespace.suffixes))
      → IsKind kind
      → apply_prefix_and_suffix (set_prefixes_and_suffixes visited namespace c) name kind
        ≡ (dotted namespace.prefix ++ dotted (text_of namespace.prefixes kind))
          ++ name
          ++ (behind_dot (text_of namespace.suffixes kind) ++ behind_dot namespace.suffix)
  unfolding apply_prefix_and_suffix set_prefixes_and_suffixes
  apply-set_prefixes_and_suffixes namespace c name p q h =
      rw
        (
          set_prefixes-affix _ _ kind _ [] (IsOnly-visited namespace.prefixes p h)
              (inl (has_kind-visited namespace.prefixes p h)),
          set_suffixes-affix _ _ kind _ [] (IsOnly-visited namespace.suffixes q h)
              (inl (has_kind-visited namespace.suffixes q h)),
          prefix_of-dotted namespace.prefix (text_of namespace.prefixes kind),
          suffix_of-dotted namespace.suffix (text_of namespace.suffixes kind),
        )
        refl
