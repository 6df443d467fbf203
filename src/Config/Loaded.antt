-- ===== src/Config/Loaded.antt =====
-- What holds of a configuration after `LoadFile`.
-- A letter, a digit or a dash.
use statsgod.Prelude.Dict.{Dict}
use statsgod.Prelude.Int.{pos, ℤ}
use statsgod.Utf8.{runes-ascii, IsAscii}
use statsgod.Config.{
  set_hostname, set_defaults, read_yaml, fill_lists, load_file, ConfigValues, Environment,
  get_hostname, is_alphanumeric, replace_all,
}
use statsgod.Prelude.{
  false, codes, Bool, refl, ◌∙◌, some, ap, inr, [], arith, Bool-cases, ◌⊎◌, ◌≢◌, inl, ◌∷◌, true,
  Option, List, All, ◌≡◌, Bytes, ℕ,
}

abbrev pub IsHostByte : ℕ → Type 0
IsHostByte c = (is_alphanumeric c ≡ true) ⊎ (c ≡ b'-')

abbrev pub IsHostname : Bytes → Type 0
IsHostname = All IsHostByte

replace_all-IsHostname : (s : List ℕ) → IsHostname (replace_all s)
unfolding replace_all
replace_all-IsHostname [] = tt
replace_all-IsHostname (c ∷ s) = elim (Bool-cases (is_alphanumeric c)) [
  | inl h ↦ (ground arith, replace_all-IsHostname s)
  | inr h ↦ (ground arith, replace_all-IsHostname s)
]

replace_all-hostname : (s : Bytes) → IsHostname s → replace_all s ≡ s
unfolding replace_all
replace_all-hostname [] h = refl
replace_all-hostname (c ∷ s) (inl a, h) = ground (arith, replace_all-hostname s h)
replace_all-hostname (c ∷ s) (inr a, h) =
    unfold is_alphanumeric in ground (arith, replace_all-hostname s h)

IsAscii-hostname : (s : Bytes) → IsHostname s → IsAscii s
unfolding is_alphanumeric
IsAscii-hostname [] h = tt
IsAscii-hostname (c ∷ s) (b, h) = (ground arith, IsAscii-hostname s h)

get_hostname-IsHostname :
    (os_hostname : Option Bytes) (s : Bytes) → IsHostname (get_hostname os_hostname s)
unfolding get_hostname
get_hostname-IsHostname os_hostname s = replace_all-IsHostname _

get_hostname-idempotent :
    (os_hostname : Option Bytes) (s : Bytes)
    → IsHostname s
    → s ≢ []
    → get_hostname os_hostname s ≡ s
unfolding get_hostname
get_hostname-idempotent os_hostname [] h ne = absurd (ne refl)
get_hostname-idempotent os_hostname (c ∷ s) h ne =
    ap replace_all (runes-ascii (c ∷ s) (IsAscii-hostname (c ∷ s) h))
    ∙ replace_all-hostname (c ∷ s) h

-- What a list is if it is not set.
abbrev pub or_else {ℓ} : {A : Type ℓ} → List A → List A → List A
or_else [] default = default
or_else (x ∷ xs) default = x ∷ xs

-- The documented defaults, with these percentiles, tokens and host name.
abbrev pub default_config : List ℤ → Dict Bool → Bytes → ConfigValues
default_config percentile tokens hostname =
    let local : Bytes = codes "127.0.0.1" in
    record {
      service = record {
        name = codes "statsgod";
        debug = false;
        auth = codes "none";
        tokens = tokens;
        hostname = hostname;
      };
      tcp = record { enabled = true; host = local; port = pos 8125 };
      udp = record { enabled = true; host = local; port = pos 8126; maxpacket = 1024 };
      unix = record { enabled = true; file = codes "/var/run/statsgod/statsgod.sock" };
      relay = record {
        type = codes "carbon";
        concurrency = 1;
        timeout = 30_000_000_000;
        flush = 10_000_000_000;
      };
      namespace = record {
        prefix = codes "stats";
        prefixes = record {
          counters = codes "counts";
          gauges = codes "gauges";
          rates = codes "rates";
          sets = codes "sets";
          timers = codes "timers";
        };
        suffix = [];
        suffixes = record { counters = []; gauges = []; rates = []; sets = []; timers = [] };
      };
      carbon = record { host = local; port = pos 2003 };
      percentile = percentile;
      debug = record { verbose = false; receipt = false; profile = false; relay = false };
    }

pub record IsLoaded (config : ConfigValues) : Type 0 where
  pub has_percentile : config.percentile ≢ []
  pub has_token : config.service.tokens ≢ []
  pub host : IsHostname config.service.hostname

module _ {E : Type 0} (env : Environment E) where
  -- Whatever the file, the YAML reader and the configuration before, a loaded configuration has a
  -- percentile and a token, and its host name holds letters, digits and dashes only.
  pub load_file-IsLoaded :
      (path : Bytes) (config : ConfigValues) → IsLoaded (load_file env path config).0
  unfolding load_file fill_lists
  load_file-IsLoaded path config = record {
    has_percentile = fill-percentile (read_yaml env path (set_defaults config)).0;
    has_token = fill-tokens (read_yaml env path (set_defaults config)).0;
    host = get_hostname-IsHostname env.os_hostname _;
  }
    where
      fill-percentile : (read : ConfigValues) → (fill_lists read).percentile ≢ []
      fill-percentile read = ground arith

      fill-tokens : (read : ConfigValues) → (fill_lists read).service.tokens ≢ []
      fill-tokens read = ground arith

  read_yaml-unreadable :
      (path : Bytes) (failure : E) (config : ConfigValues)
      → path ≢ []
      → env.read_file path ≡ inr failure
      → read_yaml env path config ≡ (config, some failure)
  unfolding read_yaml
  read_yaml-unreadable [] failure config ne e = absurd (ne refl)
  read_yaml-unreadable (c ∷ path) failure config ne e = rw (e, read_yaml) refl

  fill_lists-again :
      (config : ConfigValues) (host : Bytes)
      → fill_lists (set_defaults (set_hostname host (fill_lists (set_defaults config))))
        ≡ fill_lists (set_defaults config)
  unfolding fill_lists set_defaults
  fill_lists-again config host = by_lists config.percentile config.service.tokens
    where
      by_lists :
          (qs : List ℤ) (ts : Dict Bool)
          → (let c = fill_lists (
                set_defaults (record config {
                  percentile = qs;
                  service = record config.service { tokens = ts };
                })) in
              fill_lists (set_defaults (set_hostname host c)) ≡ c)
      by_lists [] [] = refl
      by_lists [] (t ∷ ts) = refl
      by_lists (q ∷ qs) [] = refl
      by_lists (q ∷ qs) (t ∷ ts) = refl

  fill_lists-default :
      (config : ConfigValues)
      → set_hostname
          (get_hostname env.os_hostname (fill_lists (set_defaults config)).service.hostname)
          (fill_lists (set_defaults config))
        ≡ default_config
            (or_else config.percentile (pos 80 ∷ []))
            (or_else config.service.tokens ((codes "token-name", false) ∷ []))
            (get_hostname env.os_hostname [])
  unfolding fill_lists set_defaults
  fill_lists-default config = by_lists config.percentile config.service.tokens
    where
      by_lists :
          (qs : List ℤ) (ts : Dict Bool)
          → (let c = fill_lists (
                set_defaults (record config {
                  percentile = qs;
                  service = record config.service { tokens = ts };
                })) in
              set_hostname (get_hostname env.os_hostname c.service.hostname) c
              ≡ default_config
                  (or_else qs (pos 80 ∷ []))
                  (or_else ts ((codes "token-name", false) ∷ []))
                  (get_hostname env.os_hostname []))
      by_lists [] [] = refl
      by_lists [] (t ∷ ts) = refl
      by_lists (q ∷ qs) [] = refl
      by_lists (q ∷ qs) (t ∷ ts) = refl

  -- If the file cannot be read, every setting has its default afterwards but the percentiles and the
  -- tokens, which stay as they were, or have their default if there were none; the host name is that of the
  -- machine. Loading it again changes nothing and fails alike.
  pub load_file-unreadable :
      (path : Bytes) (failure : E) (config : ConfigValues)
      → path ≢ []
      → env.read_file path ≡ inr failure
      → (load_file env path config ≡ (
        default_config
            (or_else config.percentile (pos 80 ∷ []))
            (or_else config.service.tokens ((codes "token-name", false) ∷ []))
            (get_hostname env.os_hostname []),
        some failure,
      ))
        × (load_file env path (load_file env path config).0 ≡ load_file env path config)
  unfolding load_file
  load_file-unreadable path failure config ne e = (
    rw (read_yaml-unreadable path failure (set_defaults config) ne e)
        (ap (λ c. (c, some failure)) (fill_lists-default config)),
    rw
        (
          read_yaml-unreadable path failure (set_defaults (load_file env path config).0) ne e,
          read_yaml-unreadable path failure (set_defaults config) ne e,
        )
        (ap
          (λ filled. (
            set_hostname (get_hostname env.os_hostname filled.service.hostname) filled,
            some failure,
          ))
          (fill_lists-again config _)),
  )
