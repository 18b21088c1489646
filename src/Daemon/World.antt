-- ===== src/Daemon/World.antt =====
-- What the daemon runs on, its settings, and the state that its connections share.
use cachee_cli.Base.{ℕ, Bytes, Str, Bool, Option, List}
use cachee_cli.Crypto.{PqCrypto}
use cachee_cli.Archive.Types.{Codecs}
use cachee_cli.CacheSlot.{CacheSlot}
use cachee_cli.ContentStore.{ContentStore}
use cachee_cli.Audit.{Env, AuditLog}
use cachee_cli.PqKeys.{PqKeySet}

-- The `CacheeEngine` of the crate `cachee_core`: a bounded map from keys to bytes. `get` may change
-- its statistics, and a key may have been evicted.
pub record Engine : Type 1 where
  pub State : Type 0
  pub set : State → Str → Bytes → State
  pub get : State → Str → State × Option Bytes
  pub delete : State → Str → State × Bool

-- The crates, and the version of the package.
pub record World : Type 1 where
  pub codecs : Codecs
  pub crypto : PqCrypto
  pub env : Env
  pub engine : Engine
  pub hex_decode : Str → Option Bytes
  pub package_version : Str

-- What `start` reads from the configuration, and the key set that it loads.
pub record Settings : Type 0 where
  pub strict_mode : Bool
  pub safe_read_mode : Bool
  pub issuer_id : Str
  pub pq_keys : Option PqKeySet

-- The clock readings of one command, in nanoseconds: `CacheSlot::new` and its `Instant`, the
-- command's own, `transition`, and `AuditLog::append`.
pub record Clock : Type 0 where
  pub slot : ℕ
  pub instant : ℕ
  pub request : ℕ
  pub transition : ℕ
  pub audit : ℕ

pub record Shared (w : World) : Type 0 where
  pub engine : w.engine.State
  pub slots : List (Bytes × CacheSlot)
  pub store : ContentStore w.env.sled w.codecs
  pub log : AuditLog w.env
