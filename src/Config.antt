-- ===== src/Config.antt =====
-- statsgod/config.go: `ConfigValues` with its defaults, `LoadFile` and `GetHostname`. The file system,
-- the YAML reader and the operating system's host name are parameters. Durations are numbers of
-- nanoseconds.
use statsgod.Metric.Process.{second}
use statsgod.Utf8.{runes}
use statsgod.Prelude.Int.{pos, ℤ}
use statsgod.Prelude.Dict.{Dict}
use statsgod.Prelude.{
  inr, ◌||◌, ◌*◌, inl, some, if◌then◌else◌, ◌&&◌, true, none, ◌⊎◌, ◌∷◌, leb, false, Option, ℕ, [],
  codes, List, Bool, Bytes,
}
pub mod Loaded

pub record ServiceValues : Type 0 where
  pub name : Bytes
  pub debug : Bool
  pub auth : Bytes
  pub tokens : Dict Bool
  pub hostname : Bytes

pub record TcpValues : Type 0 where
  pub enabled : Bool
  pub host : Bytes
  pub port : ℤ

pub record UdpValues : Type 0 where
  pub enabled : Bool
  pub host : Bytes
  pub port : ℤ
  pub maxpacket : ℕ

pub record UnixValues : Type 0 where
  pub enabled : Bool
  pub file : Bytes

pub record RelayValues : Type 0 where
  pub type : Bytes
  pub concurrency : ℕ
  pub timeout : ℕ
  pub flush : ℕ

-- `Prefixes` and `Suffixes`
pub record NamespaceTexts : Type 0 where
  pub counters : Bytes
  pub gauges : Bytes
  pub rates : Bytes
  pub sets : Bytes
  pub timers : Bytes

pub record NamespaceValues : Type 0 where
  pub prefix : Bytes
  pub prefixes : NamespaceTexts
  pub suffix : Bytes
  pub suffixes : NamespaceTexts

pub record CarbonValues : Type 0 where
  pub host : Bytes
  pub port : ℤ

pub record DebugValues : Type 0 where
  pub verbose : Bool
  pub receipt : Bool
  pub profile : Bool
  pub relay : Bool

pub record ConfigValues : Type 0 where
  pub service : ServiceValues
  pub tcp : TcpValues
  pub udp : UdpValues
  pub unix : UnixValues
  pub relay : RelayValues
  pub namespace : NamespaceValues
  pub carbon : CarbonValues
  pub percentile : List ℤ
  pub debug : DebugValues

-- `new(ConfigValues)`
abbrev pub new_config : ConfigValues
new_config = record {
  service = record { name = []; debug = false; auth = []; tokens = []; hostname = [] };
  tcp = record { enabled = false; host = []; port = pos 0 };
  udp = record { enabled = false; host = []; port = pos 0; maxpacket = 0 };
  unix = record { enabled = false; file = [] };
  relay = record { type = []; concurrency = 0; timeout = 0; flush = 0 };
  namespace = record {
    prefix = [];
    prefixes = record { counters = []; gauges = []; rates = []; sets = []; timers = [] };
    suffix = [];
    suffixes = record { counters = []; gauges = []; rates = []; sets = []; timers = [] };
  };
  carbon = record { host = []; port = pos 0 };
  percentile = [];
  debug = record { verbose = false; receipt = false; profile = false; relay = false };
}

-- The assignments of `LoadFile` before the file is read; the tokens and the percentiles stay.
unfoldable pub set_defaults : ConfigValues → ConfigValues
set_defaults config = record {
  service = record config.service {
    name = codes "statsgod";
    debug = false;
    auth = codes "none";
    hostname = [];
  };
  tcp = record { enabled = true; host = codes "127.0.0.1"; port = pos 8125 };
  udp = record { enabled = true; host = codes "127.0.0.1"; port = pos 8126; maxpacket = 1024 };
  unix = record { enabled = true; file = codes "/var/run/statsgod/statsgod.sock" };
  relay = record {
    type = codes "carbon";
    concurrency = 1;
    timeout = 30 * second;
    flush = 10 * second;
  };
  namespace = record {
    prefix = codes "stats";
    prefixes = record {
      counters = codes "counts";
      gauges = codes "gauges";
      rates = codes "rates";
      sets = codes "sets";
      timers = codes "timers";
    };
    suffix = [];
    suffixes = record { counters = []; gauges = []; rates = []; sets = []; timers = [] };
  };
  carbon = record { host = codes "127.0.0.1"; port = pos 2003 };
  percentile = config.percentile;
  debug = record { verbose = false; receipt = false; profile = false; relay = false };
}

-- What is appended when the YAML gives none.
unfoldable pub fill_lists : ConfigValues → ConfigValues
fill_lists config = record config {
  percentile = elim config.percentile [ [] ↦ pos 80 ∷ [] | q ∷ qs ↦ q ∷ qs ];
  service = record config.service {
    tokens = elim config.service.tokens [ [] ↦ (codes "token-name", false) ∷ [] | t ∷ ts ↦ t ∷ ts ];
  };
}

-- [a-zA-Z0-9]
unfoldable pub is_alphanumeric : ℕ → Bool
is_alphanumeric c =
    (leb b'a' c && leb c b'z') || (leb b'A' c && leb c b'Z') || (leb b'0' c && leb c b'9')

-- re.ReplaceAllString(hostname, "-"), on the runes.
unfoldable pub replace_all : List ℕ → Bytes
unfolding is_alphanumeric
replace_all [] = []
replace_all (c ∷ s) = (if is_alphanumeric c then c else b'-') ∷ replace_all s

-- With what os.Hostname returns, `none` for an error.
unfoldable pub get_hostname : Option Bytes → Bytes → Bytes
unfolding replace_all
get_hostname os_hostname default_value = replace_all (
    runes (elim default_value [
      | [] ↦ elim os_hostname [ none ↦ codes "unknown" | some hn ↦ hn ]
      | c ∷ s ↦ c ∷ s
    ]))

abbrev pub set_hostname : Bytes → ConfigValues → ConfigValues
set_hostname host config = record config { service = record config.service { hostname = host } }

-- ioutil.ReadFile, yaml.Unmarshal and os.Hostname: an error is `inr`, or stands beside what was set.
pub record Environment (E : Type 0) : Type 0 where
  pub read_file : Bytes → Bytes ⊎ E
  pub unmarshal : Bytes → ConfigValues → ConfigValues × Option E
  pub os_hostname : Option Bytes

module _ {E : Type 0} (env : Environment E) where
  read_yaml : Bytes → ConfigValues → ConfigValues × Option E
  read_yaml [] config = (config, none)
  read_yaml (c ∷ path) config = elim (env.read_file (c ∷ path)) [
    | inl contents ↦ env.unmarshal contents config
    | inr failure ↦ (config, some failure)
  ]

  unfoldable pub load_file : Bytes → ConfigValues → ConfigValues × Option E
  unfolding read_yaml
  load_file path config =
      let (read, failure) = read_yaml path (set_defaults config) in
      let filled = fill_lists read in
      (set_hostname (get_hostname env.os_hostname filled.service.hostname) filled, failure)

  unfoldable pub create_config : Bytes → ConfigValues × Option E
  create_config path = load_file path new_config
