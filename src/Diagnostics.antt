-- ===== src/Diagnostics.antt =====
-- src/diagnostics.rs: `doctor`, and the tail that `logs` prints. The files, the sockets and the server
-- are the fields of an installation; `info`, `metrics`, `export` and the templates of `sdk_init` print
-- text only and are left out.
pub mod Sound
use cachee_cli.Base.{
  ℕ, zero, suc, ◌+◌, ◌-◌, ◌^◌, Bytes, Str, Bool, true, false, not, Option, none, some, List, [],
  ◌∷◌, ◌++◌, ◌&&◌, ◌||◌, Result, ok, err, if◌then◌else◌, ltb, leb, ◌==◌, ascii, length, take, drop,
  starts_with, contains_text, bytes_eq, parse_u64, trim, lines, from_utf8_lossy, get_or, between,
}
use cachee_cli.Archive.Types.{Codecs}
use cachee_cli.Config.{CacheeConfig, ConfigError}
use cachee_cli.Security.{quoted_field, or_text}
use cachee_cli.Audit.{Env, AuditLog, AuditError, open_log, verify_chain, head}
use cachee_cli.ContentStore.{open_store, store_len}

-- `parse::<i32>()`: whether it is negative, and its absolute value.
unfoldable pub parse_i32 : Str → Option (Bool × ℕ)
parse_i32 [] = none
parse_i32 (c ∷ s) =
    if c == b'-'
    then within true (2 ^ 31 + 1) (digits s)
    else within false (2 ^ 31) (parse_u64 (c ∷ s))
  where
    -- after a minus sign there is no plus sign
    digits : Str → Option ℕ
    digits [] = none
    digits (d ∷ s) = if d == b'+' then none else parse_u64 (d ∷ s)

    within : Bool → ℕ → Option ℕ → Option (Bool × ℕ)
    within negative bound none = none
    within negative bound (some n) = if ltb n bound then some (negative, n) else none

pub data Line : Type 0 where
  config_found config_missing identity_present identity_missing : Line
  daemon_running port_in_use daemon_not_running : Line
  pid_running pid_stale : Bool × ℕ → Line
  tls_present tls_absent free_plan : Line
  paid_plan : Str → ℕ → Line
  pq_keys_loaded : Line
  pq_keys_missing : List Str → Line
  -- count, and eight bytes of the head
  audit_intact : ℕ → Bytes → Line
  -- broken_at, count
  audit_broken : ℕ → ℕ → Line
  audit_verify_error : AuditError → Line
  audit_open_failed audit_absent : Line
  api_key_configured api_key_unexpected : Str → Line
  api_key_absent not_signed_up : Line
  auth1_reachable auth1_responded auth1_unreachable : Line
  store_opened : ℕ → Line
  store_failed store_absent : Line

-- Where `issues += 1` stands.
abbrev pub is_issue : Line → Bool
is_issue config_missing = true
is_issue identity_missing = true
is_issue port_in_use = true
is_issue (pid_stale pid) = true
is_issue (pq_keys_missing names) = true
is_issue (audit_broken broken_at count) = true
is_issue (audit_verify_error e) = true
is_issue audit_open_failed = true
is_issue auth1_unreachable = true
is_issue store_failed = true
is_issue _ = false

abbrev pub count_issues : List Line → ℕ
count_issues [] = 0
count_issues (l ∷ ls) = if is_issue l then suc (count_issues ls) else count_issues ls

-- The answer to a PING, if the port can be reached; `io_error` ends `doctor`.
pub data Probe : Type 0 where
  unreached io_error : Probe
  answer : Bytes → Probe

pub data Health : Type 0 where
  healthy unhealthy unreachable : Health

-- A path, and what opening the database there gives.
pub data Database (Db : Type 0) : Type 0 where
  absent locked : Database Db
  opened : Db → Database Db

abbrev pub check_plan : CacheeConfig → Line
check_plan cfg =
    if bytes_eq cfg.plan.tier (ascii "free")
    then free_plan
    else paid_plan cfg.plan.tier cfg.plan.ops_per_month

unfoldable pub check_auth1 : Health → Line
check_auth1 healthy = auth1_reachable
check_auth1 unhealthy = auth1_responded
check_auth1 unreachable = auth1_unreachable

module _ (env : Env) (c : Codecs) where
  pub record Installation : Type 0 where
    pub config_exists : Bool
    pub identity_exists : Bool
    pub config : Result ConfigError CacheeConfig
    pub probe : Probe
    -- the text of cachee.pid, empty when it cannot be read
    pub pid_file : Option Str
    -- `kill(pid, 0) == 0`
    pub alive : Bool × ℕ → Bool
    pub tls_cert : Bool
    pub tls_key : Bool
    pub mldsa_key : Bool
    pub falcon_key : Bool
    pub slhdsa_key : Bool
    pub audit_log : Database env.sled.Db
    pub credentials : Option Str
    pub auth1 : Health
    pub content_store : Database env.sled.Db

  unfoldable pub check_pid : Installation → List Line
  unfolding parse_i32
  check_pid i = elim i.pid_file [
    | none ↦ []
    | some text ↦ elim (parse_i32 (trim text)) [
      | none ↦ []
      | some pid ↦ (if i.alive pid then pid_running pid else pid_stale pid) ∷ []
    ]
  ]

  -- The stale file is removed.
  unfoldable pub pid_file_after : Installation → Option Str
  unfolding parse_i32
  pid_file_after i = elim i.pid_file [
    | none ↦ none
    | some text ↦ elim (parse_i32 (trim text)) [
      | none ↦ some text
      | some pid ↦ if i.alive pid then some text else none
    ]
  ]

  unfoldable pub check_rest : Installation → CacheeConfig → List Line
  unfolding check_pid
  check_rest i cfg =
      check_pid i
      ++ (if i.tls_cert && i.tls_key then tls_present else tls_absent) ∷ check_plan cfg ∷ []

  -- The checks that need the configuration; `none` is an error of the socket.
  unfoldable pub check_daemon : Installation → Option (List Line)
  unfolding check_rest
  check_daemon i = elim i.config [
    | err e ↦ some []
    | ok cfg ↦
        let rest = check_rest i cfg in
        elim i.probe [
          | unreached ↦ some (daemon_not_running ∷ rest)
          | io_error ↦ none
          | answer bytes ↦ some (
              (if contains_text (from_utf8_lossy (take 64 bytes)) (ascii "PONG")
                then daemon_running
                else port_in_use)
              ∷ rest)
        ]
  ]

  abbrev missing : Bool → Str → List Str → List Str
  missing has name names = if has then names else name ∷ names

  unfoldable pub check_keys : Installation → Line
  check_keys i =
      if i.mldsa_key && i.falcon_key && i.slhdsa_key
      then pq_keys_loaded
      else pq_keys_missing (
          missing i.mldsa_key (ascii "ML-DSA-65")
            (missing i.falcon_key (ascii "FALCON-512") (missing i.slhdsa_key (ascii "SLH-DSA") [])))

  abbrev chain_line : AuditLog env → Result AuditError (ℕ × Option ℕ) → Line
  chain_line log (ok (count, none)) = audit_intact count (take 8 (head env log))
  chain_line log (ok (count, some broken_at)) = audit_broken broken_at count
  chain_line log (err e) = audit_verify_error e

  unfoldable pub check_audit : Installation → Line
  check_audit i = elim i.audit_log [
    | absent ↦ audit_absent
    | locked ↦ audit_open_failed
    | opened db ↦ elim (open_log env db (ascii "doctor")) [
      | err e ↦ audit_open_failed
      | ok log ↦ chain_line log (verify_chain env log)
    ]
  ]

  -- `api_key[..n]`; `none` is a panic.
  abbrev prefix : (Str → Line) → ℕ → Str → Option Line
  prefix line n key =
      if n == length key || not (between 128 191 (get_or key n 0))
      then some (line (take n key))
      else none

  unfoldable pub check_credentials : Installation → Option Line
  check_credentials i = elim i.credentials [
    | none ↦ some not_signed_up
    | some content ↦
        let api_key = or_text [] (quoted_field content (ascii "api_key")) in
        if starts_with api_key (ascii "ck_live_") && length api_key == 40
        then prefix api_key_configured 16 api_key
        else if not (length api_key == 0)
        then prefix api_key_unexpected (if ltb (length api_key) 12 then length api_key else 12)
            api_key
        else some api_key_absent
  ]

  unfoldable pub check_store : Installation → Line
  check_store i = elim i.content_store [
    | absent ↦ store_absent
    | locked ↦ store_failed
    | opened db ↦ store_opened (store_len env.sled c (open_store env.sled c db))
  ]

  abbrev pub check_files : Installation → List Line
  check_files i =
      (if i.config_exists then config_found else config_missing)
      ∷ (if i.identity_exists then identity_present else identity_missing)
      ∷ []

  -- The printed lines, before the number of issues; `none` is a panic or an error of the socket.
  unfoldable pub doctor : Installation → Option (List Line)
  unfolding check_daemon check_keys check_audit check_credentials check_auth1 check_store
  doctor i = elim (check_daemon i) [
    | none ↦ none
    | some daemon ↦ elim (check_credentials i) [
      | none ↦ none
      | some credentials ↦ some (
          check_files i
          ++ (daemon
              ++ check_keys i
                ∷ check_audit i
                ∷ credentials
                ∷ check_auth1 i.auth1
                ∷ check_store i
                ∷ []))
    ]
  ]

-- The last lines of cachee.log, of its text.
unfoldable pub last_lines : ℕ → Str → List Str
last_lines n content = let all_lines = lines content in drop (length all_lines - n) all_lines
