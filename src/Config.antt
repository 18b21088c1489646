-- ===== src/Config.antt =====
-- src/config.rs: the configuration, its defaults, and what `init` and `load` make of a file. TOML,
-- the environment and the home directory are parameters; an `f64` is a number of 10^-9.
use cachee_cli.Base.{
  ℕ, Bytes, Str, Bool, true, false, Option, none, some, List, [], ascii, Result, ok, err,
}

pub record Plan : Type 0 where
  pub tier : Str
  pub ops_per_month : ℕ
  pub rate_per_op : ℕ
  pub memory_cap_tb : ℕ
  pub overage_per_tb : ℕ

pub record VerificationConfig : Type 0 where
  pub mode : Str
  pub sample_rate : ℕ
  pub max_age_secs : ℕ
  pub strict_fingerprint : Bool
  pub overrides : List (Bytes × Str)
  pub conflict_policy : Str
  pub read_mode : Str
  pub mode_locked : Bool
  pub minimum_mode : Option Str
  pub write_policy : Str
  pub allow_unsigned_export : Bool
  pub allow_unsigned_federation : Bool

pub record CacheeConfig : Type 0 where
  pub port : ℕ
  pub max_keys : ℕ
  pub default_ttl : ℕ
  pub l0_enabled : Bool
  pub l0_shards : ℕ
  pub l0_max_keys : ℕ
  pub attest_enabled : Bool
  pub metrics_port : ℕ
  pub data_dir : Str
  pub plan : Plan
  pub verification : VerificationConfig
  pub issuer_id : Str
  pub require_auth : Bool

abbrev pub default_write_policy : Str
default_write_policy = ascii "allow_unsigned"

abbrev pub default_verification_mode : Str
default_verification_mode = ascii "trust_cached"

abbrev pub default_max_age : ℕ
default_max_age = 3600

abbrev pub default_conflict_policy : Str
default_conflict_policy = ascii "reject"

abbrev pub default_read_mode : Str
default_read_mode = ascii "compatible"

-- `VerificationConfig::default`
abbrev pub default_verification : VerificationConfig
default_verification = record {
  mode = default_verification_mode;
  sample_rate = 10000000;
  max_age_secs = default_max_age;
  strict_fingerprint = false;
  overrides = [];
  conflict_policy = default_conflict_policy;
  read_mode = default_read_mode;
  mode_locked = false;
  minimum_mode = none;
  write_policy = default_write_policy;
  allow_unsigned_export = false;
  allow_unsigned_federation = false;
}

-- What the process gives: the variable CACHEE_ISSUER_ID, "cachee-" with the process number, and the
-- home directory's ".cachee".
pub record Process : Type 0 where
  pub issuer_variable : Option Str
  pub cachee_pid : Str
  pub cachee_dir : Str

unfoldable pub default_issuer_id : Process → Str
default_issuer_id p = elim p.issuer_variable [ none ↦ p.cachee_pid | some id ↦ id ]

-- `CacheeConfig::default`
unfoldable pub default_config : Process → CacheeConfig
default_config p = record {
  port = 6380;
  max_keys = 1000000;
  default_ttl = 3600;
  l0_enabled = true;
  l0_shards = 64;
  l0_max_keys = 100000;
  attest_enabled = false;
  metrics_port = 9090;
  data_dir = p.cachee_dir;
  plan = record {
    tier = ascii "free";
    ops_per_month = 10000000;
    rate_per_op = 0;
    memory_cap_tb = 0;
    overage_per_tb = 0;
  };
  verification = default_verification;
  issuer_id = default_issuer_id p;
  require_auth = false;
}

-- The configuration that `init` writes.
unfoldable pub init_config : Process → ℕ → ℕ → ℕ → CacheeConfig
unfolding default_config
init_config p port max_keys ttl = record (default_config p) {
  port = port;
  max_keys = max_keys;
  default_ttl = ttl;
  data_dir = p.cachee_dir;
}

pub data ConfigError : Type 0 where
  not_initialized read_failed parse_failed : ConfigError

-- `load`, given whether the file exists, what reading it returns, and `toml::from_str`.
unfoldable pub load_config :
    (Bytes → Option CacheeConfig) → Bool → Option Bytes → Result ConfigError CacheeConfig
load_config parse false contents = err not_initialized
load_config parse true none = err read_failed
load_config parse true (some contents) = elim (parse contents) [
  | none ↦ err parse_failed
  | some config ↦ ok config
]
