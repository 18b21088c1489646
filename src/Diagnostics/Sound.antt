-- ===== src/Diagnostics/Sound.antt =====
-- When `doctor` of src/diagnostics.rs finds no issue.
use cachee_cli.Base.{
  ℕ, Str, Option, Bool, true, none, some, List, ◌≡◌, ascii, take, contains_text, from_utf8_lossy,
  trim,
}
use cachee_cli.Archive.Types.{Codecs}
use cachee_cli.Sled.{SledLaws}
use cachee_cli.Audit.{Env, AuditEntry, AuditLog}
use cachee_cli.Audit.Log.{WellFormed}
use cachee_cli.Diagnostics.{
  Probe, unreached, io_error, answer, Health, unreachable, Database, locked, opened, Installation,
  parse_i32,
}

-- The probe does not meet another program.
abbrev pub Answers : Probe → Type 0
Answers unreached = Unit
Answers io_error = ⊥
Answers (answer bytes) = contains_text (from_utf8_lossy (take 64 bytes)) (ascii "PONG") ≡ true

abbrev pub Reached : Health → Type 0
Reached unreachable = ⊥
Reached _ = Unit

abbrev pub Unlocked : {Db : Type 0} → Database Db → Type 0
Unlocked locked = ⊥
Unlocked _ = Unit

abbrev LivingNumber : (Bool × ℕ → Bool) → Option (Bool × ℕ) → Type 0
LivingNumber alive none = Unit
LivingNumber alive (some pid) = alive pid ≡ true

-- The text is not the number of a process that has ended.
abbrev pub Living : (Bool × ℕ → Bool) → Option Str → Type 0
Living alive none = Unit
Living alive (some text) = LivingNumber alive (parse_i32 (trim text))

module _ (env : Env) (laws : SledLaws env.sled) (c : Codecs) where
  -- The number in the file of the daemon's process, if there is one, is that of a living process.
  abbrev pub NotStale : Installation env c → Type 0
  NotStale i = Living i.alive i.pid_file

  -- An installation that is complete, with the database of a well-formed audit log.
  pub record Sound (i : Installation env c) (log : AuditLog env) (es : List AuditEntry)
      : Type 0 where
    pub config_there : i.config_exists ≡ true
    pub identity_there : i.identity_exists ≡ true
    pub answers : Answers i.probe
    pub no_stale : NotStale i
    pub mldsa_there : i.mldsa_key ≡ true
    pub falcon_there : i.falcon_key ≡ true
    pub slhdsa_there : i.slhdsa_key ≡ true
    pub audit_there : i.audit_log ≡ opened log.db
    pub well_formed : WellFormed env laws log es
    pub signed_out : i.credentials ≡ none
    pub auth1_there : Reached i.auth1
    pub store_there : Unlocked i.content_store
